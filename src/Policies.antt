-- ===== src/Policies.antt =====
-- cognitivetree/policies.py: the contracts that the controller calls, as a record of functions.
-- What lies behind them (a model, a sandbox, a clock, a random generator, the caller's cancel
-- flag) keeps its state in the world `W`, which every call reads and replaces. A policy that
-- writes to the node it is given returns that node's metadata.
use cognitive_tree_ai.Prelude.{
  ℕ, Float, FloatOps, zero_f, one_f, Text, Bool, Option, List, ◌&&◌, if◌then◌else◌,
}
use cognitive_tree_ai.Phases.{Phase}
use cognitive_tree_ai.Faults.{Note, Fault, Result, ok, raise}
use cognitive_tree_ai.Node.{Metadata, Critique, Ref}
use cognitive_tree_ai.Tree.{Tree}

pub record Evaluation : Type 0 where
  pub score : Float
  pub is_terminal : Bool
  pub rationale : Text

-- `Evaluation(...)`: `__post_init__` wants a score within [0, 1].
unfoldable pub make_evaluation : FloatOps → Float → Bool → Text → Result Evaluation
make_evaluation ops score is_terminal rationale =
    if ops.le zero_f score && ops.le score one_f
    then ok (record { score = score; is_terminal = is_terminal; rationale = rationale })
    else raise Fault.value_error

-- search.py
pub record SearchEvent : Type 0 where
  pub iteration : ℕ
  pub phase : Phase
  pub node_id : Option Text
  pub detail : Note

pub record Policies (W : Type 0) : Type 0 where
  pub ops : FloatOps
  -- What the calls of `_short_id()` return: the identifier of the object at each address.
  pub ids : Ref → Text
  pub generate : Tree → Ref → ℕ → W → Result (List Text) × W
  pub evaluate : Tree → Ref → W → Result Evaluation × Metadata × W
  pub critique : Option (Tree → Ref → W → Result (Option Critique) × W)
  pub revise : Option (Tree → Ref → W → Result Bool × Metadata × W)
  pub shape : Option (Tree → Ref → Float → Option Critique → W → Result Float × Metadata × W)
  pub check : Option (W → Result (Option Text) × W)
  pub cancelled : Option (W → Bool × W)
  pub on_event : Option (SearchEvent → Tree → W → Result (Unit {0}) × W)
  pub monotonic : W → Float × W
  pub random : W → Float × W
  -- The tasks of a batch that the workers of a pool carry out, in the order of their effects.
  pub pool_order : List Ref → W → List Ref × W
