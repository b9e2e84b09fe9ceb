-- ===== src/Feedback.antt =====
-- cognitivetree/feedback: notes and budgets for revisions (revision.py), shaped rewards
-- (rewards.py) and critics in a chain (composite.py).
pub mod Notes
pub mod Revisions
use cognitive_tree_ai.Prelude.{
  ℕ, zero, suc, ◌+◌, ◌==◌, Text, text_eq, strip, mem_text, Float, FloatOps, zero_f, one_f, Bool,
  true, false, Option, none, some, List, [], ◌∷◌, ◌++◌, map, ◌||◌, ◌&&◌, not, leb, ltb,
  if◌then◌else◌,
}
use cognitive_tree_ai.Faults.{Fault, Result, ok, raise}
use cognitive_tree_ai.Node.{
  Node, Ref, NodeStatus, FailureClass, Critique, RewardRecord, Metadata, is_live,
  is_terminal_status,
}
use cognitive_tree_ai.Tree.{Tree}

-- The value of a member of the enumeration.
unfoldable pub value : FailureClass → Text
value FailureClass.no_execution =
    110 ∷ 111 ∷ 95 ∷ 101 ∷ 120 ∷ 101 ∷ 99 ∷ 117 ∷ 116 ∷ 105 ∷ 111 ∷ 110 ∷ []
value FailureClass.timeout = 116 ∷ 105 ∷ 109 ∷ 101 ∷ 111 ∷ 117 ∷ 116 ∷ []
value FailureClass.syntax = 115 ∷ 121 ∷ 110 ∷ 116 ∷ 97 ∷ 120 ∷ []
value FailureClass.assertion = 97 ∷ 115 ∷ 115 ∷ 101 ∷ 114 ∷ 116 ∷ 105 ∷ 111 ∷ 110 ∷ []
value FailureClass.exception = 101 ∷ 120 ∷ 99 ∷ 101 ∷ 112 ∷ 116 ∷ 105 ∷ 111 ∷ 110 ∷ []

-- `not guidance`
unfoldable pub no_text : Text → Bool
no_text [] = true
no_text (c ∷ s) = false

-- `f"- [{failure_class}] {guidance}"`
unfoldable pub note_line : FailureClass → Text → Text
unfolding value
note_line c guidance = (45 ∷ 32 ∷ 91 ∷ []) ++ value c ++ (93 ∷ 32 ∷ []) ++ guidance

-- `"\n".join(lines)`
unfoldable pub join_lines : List Text → Text
join_lines [] = []
join_lines (x ∷ []) = x
join_lines (x ∷ y ∷ xs) = x ++ 10 ∷ join_lines (y ∷ xs)

-- The loop over the children's critiques, with the guidance that was seen.
unfoldable pub note_lines : List Text → List (Option Critique) → List Text
unfolding no_text note_line
note_lines seen [] = []
note_lines seen (none ∷ rest) = note_lines seen rest
note_lines seen (some c ∷ rest) =
    let guidance = strip c.guidance in
    if no_text guidance || mem_text guidance seen
    then note_lines seen rest
    else note_line c.failure_class guidance ∷ note_lines (guidance ∷ seen) rest

-- The critiques in the metadata of a node's children.
abbrev pub critiques : Tree → Ref → List (Option Critique)
critiques t r = map (λ c. (t.cell c).metadata.critique) (t.cell r).children

-- `compile_revision_notes(node)`
unfoldable pub compile_revision_notes : Tree → Ref → Text
unfolding join_lines note_lines
compile_revision_notes t r = join_lines (note_lines [] (critiques t r))

-- `BoundedRevisionPolicy`
pub record BoundedRevisionPolicy : Type 0 where
  pub max_attempts : ℕ
  pub require_guidance : Bool

unfoldable pub make_revision_policy : ℕ → Bool → Result BoundedRevisionPolicy
make_revision_policy max_attempts require_guidance =
    if ltb max_attempts 1
    then raise Fault.value_error
    else ok (record { max_attempts = max_attempts; require_guidance = require_guidance })

unfoldable pub any : (Node → Bool) → Tree → List Ref → Bool
any p t [] = false
any p t (c ∷ cs) = p (t.cell c) || any p t cs

-- `int(node.metadata.get(REVISION_ATTEMPTS_KEY, 0))`
unfoldable pub attempts_of : Metadata → ℕ
attempts_of m = elim m.revision_attempts [ none ↦ 0 | some n ↦ n ]

unfoldable pub no_children : List Ref → Bool
no_children [] = true
no_children (c ∷ cs) = false

-- `policy.revise(node)`: whether the revision is granted, and the node's metadata.
unfoldable pub revise : BoundedRevisionPolicy → Tree → Ref → Bool × Metadata
unfolding any attempts_of no_children no_text
revise policy t r =
    let n = t.cell r in
    let attempts = attempts_of n.metadata in
    let notes = compile_revision_notes t r in
    if no_children n.children
    then (false, n.metadata)
    else if any is_live t n.children
    then (false, n.metadata)
    else if any (λ c. is_terminal_status c.status) t n.children
    then (false, n.metadata)
    else if leb policy.max_attempts attempts
    then (false, n.metadata)
    else if policy.require_guidance && no_text notes
    then (false, n.metadata)
    else (
      true,
      record n.metadata { revision_notes = some notes; revision_attempts = some (attempts + 1) },
    )

pub record RewardWeights : Type 0 where
  pub evaluation : Float
  pub critique : Float
  pub depth : Float
  pub depth_horizon : ℕ

-- `min` of two floats, and `max`: Python keeps the first where neither is smaller or larger.
unfoldable pub min_f : FloatOps → Float → Float → Float
min_f ops a b = if ops.lt b a then b else a

unfoldable pub max_f : FloatOps → Float → Float → Float
max_f ops a b = if ops.lt a b then b else a

unfoldable pub make_weights : FloatOps → RewardWeights → Result RewardWeights
unfolding min_f
make_weights ops w =
    if ops.lt (min_f ops (min_f ops w.evaluation w.critique) w.depth) zero_f
    then raise Fault.value_error
    else if ops.le (ops.add (ops.add w.evaluation w.critique) w.depth) zero_f
    then raise Fault.value_error
    else if ltb w.depth_horizon 1
    then raise Fault.value_error
    else ok w

critique_term : FloatOps → Option Critique → Float
critique_term ops none = one_f
critique_term ops (some c) = ops.sub one_f c.severity

-- `shaper.shape(node, base_score, critique)`: the value, and the node's metadata.
unfoldable pub shape :
    FloatOps → RewardWeights → Tree → Ref → Float → Option Critique → Float × Metadata
unfolding critique_term max_f
shape ops w t r base_score critique =
    let n = t.cell r in
    let term = critique_term ops critique in
    let depth_term =
      max_f ops zero_f
        (ops.sub one_f (ops.div (ops.of_nat n.depth) (ops.of_nat w.depth_horizon))) in
    let total = ops.add (ops.add w.evaluation w.critique) w.depth in
    let shaped =
      ops.div
        (ops.add (ops.add (ops.mul w.evaluation base_score) (ops.mul w.critique term))
          (ops.mul w.depth depth_term))
        total in
    (
      shaped,
      record n.metadata {
        reward = some (record {
          base_score = ops.round 6 base_score;
          critique_term = ops.round 6 term;
          depth_term = ops.round 6 depth_term;
          shaped = ops.round 6 shaped;
        });
      },
    )

-- A critic that reads a node and its world.
abbrev pub Critic : Type 0 → Type 0
Critic W = Tree → Ref → W → Result (Option Critique) × W

module _ {W : Type 0} where
  no_critics : List (Critic W) → Bool
  no_critics [] = true
  no_critics (c ∷ cs) = false

  unfoldable pub make_chain : List (Critic W) → Result (List (Critic W))
  unfolding no_critics
  make_chain critics = if no_critics critics then raise Fault.value_error else ok critics

  -- A critic that finds nothing hands on to the next.
  hand_on :
      Result (Option Critique)
      → W
      → (W → Result (Option Critique) × W)
      → Result (Option Critique) × W
  hand_on (raise e) w rest = (raise e, w)
  hand_on (ok (some k)) w rest = (ok (some k), w)
  hand_on (ok none) w rest = rest w

  -- `ChainedCritic.critique(node)`: the first critic that answers, in turn.
  unfoldable pub chain : List (Critic W) → Tree → Ref → W → Result (Option Critique) × W
  unfolding hand_on
  chain [] t r w = (ok none, w)
  chain (c ∷ cs) t r w = let (x, w') = c t r w in hand_on x w' (λ v. chain cs t r v)
