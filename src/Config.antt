-- ===== src/Config.antt =====
-- cognitivetree/config.py: the search parameters and what the constructor accepts. The integer
-- fields are natural numbers: the program tests them against 1, and refuses what lies below.
use cognitive_tree_ai.Prelude.{
  ℕ, Float, FloatOps, zero_f, one_f, Bool, Option, none, some, ◌&&◌, not, ltb, if◌then◌else◌, false,
}
use cognitive_tree_ai.Faults.{Fault, Result, ok, raise}

pub record SearchConfig : Type 0 where
  pub max_iterations : ℕ
  pub max_depth : ℕ
  pub branching_factor : ℕ
  pub exploration_weight : Float
  pub accept_threshold : Float
  pub prune_threshold : Float
  pub max_wall_seconds : Option Float
  pub evaluation_workers : ℕ

abbrev pub max_supported_depth : ℕ
max_supported_depth = 256

not_positive : FloatOps → Option Float → Bool
not_positive ops none = false
not_positive ops (some seconds) = ops.le seconds zero_f

-- `SearchConfig(...)`: `__post_init__` raises at the first test that fails.
unfoldable pub make_config : FloatOps → SearchConfig → Result SearchConfig
unfolding not_positive
make_config ops c =
    if ltb c.max_iterations 1
    then raise Fault.value_error
    else if ltb c.max_depth 1
    then raise Fault.value_error
    else if ltb max_supported_depth c.max_depth
    then raise Fault.value_error
    else if ltb c.branching_factor 1
    then raise Fault.value_error
    else if ops.lt c.exploration_weight zero_f
    then raise Fault.value_error
    else if not (
        ops.le zero_f c.prune_threshold
        && ops.lt c.prune_threshold c.accept_threshold
        && ops.le c.accept_threshold one_f)
    then raise Fault.value_error
    else if not_positive ops c.max_wall_seconds
    then raise Fault.value_error
    else if ltb c.evaluation_workers 1
    then raise Fault.value_error
    else ok c
