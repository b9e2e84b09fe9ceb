-- ===== src/Evaluation.antt =====
-- `_evaluate`, `_collect_verdicts` and `_backpropagate` of cognitivetree/search.py.
pub mod Workers
pub mod Control
pub mod Kept
pub mod Order
pub mod Verdicts
pub mod Visits
use cognitive_tree_ai.Prelude.{
  ℕ, zero, suc, Float, FloatOps, Bool, true, false, Option, none, some, List, [], ◌∷◌, ◌++◌, ◌&&◌,
  ◌||◌, leb, min, length, if◌then◌else◌, ◌==◌,
}
use cognitive_tree_ai.Faults.{Fault, Result, ok, raise}
use cognitive_tree_ai.Node.{
  Node, NodeStatus, Critique, Metadata, Ref, apply_evaluation, record_visit, is_terminal_status,
}
use cognitive_tree_ai.Tree.{Tree, modify, path_from_root}
use cognitive_tree_ai.Config.{SearchConfig}
use cognitive_tree_ai.Policies.{Policies, Evaluation}
use cognitive_tree_ai.Exec.{Run, Exec, pure, throw, world_call, policy_call, node_call, ◌>>=◌, ◌>>◌}

-- The status that a verdict gives a node.
unfoldable pub classify : FloatOps → SearchConfig → Evaluation → NodeStatus
classify ops cfg v =
    if v.is_terminal && ops.le cfg.accept_threshold v.score
    then NodeStatus.terminal
    else if v.is_terminal || ops.lt v.score cfg.prune_threshold
    then NodeStatus.pruned
    else NodeStatus.evaluated

-- What the workers of a pool hold for one candidate.
abbrev pub Slot : Type 0
Slot = Ref × Result Evaluation

unfoldable pub slot_of : Ref → List Slot → Result Evaluation
slot_of c [] = raise Fault.key_error
slot_of c ((r, v) ∷ slots) = if r == c then v else slot_of c slots

-- `list(pool.map(...))` yields in the order of submission and raises at the first failure.
unfoldable pub gather : List Slot → List Ref → Result (List Evaluation)
gather slots [] = ok []
gather slots (c ∷ cs) = elim (slot_of c slots) [
  | raise e ↦ raise e
  | ok v ↦ elim (gather slots cs) [ raise e ↦ raise e | ok vs ↦ ok (v ∷ vs) ]
]

is_pruned_status : NodeStatus → Bool
is_pruned_status NodeStatus.pruned = true
is_pruned_status _ = false

with_critique : Option Critique → Metadata → Metadata
with_critique none m = m
with_critique (some c) m = record m { critique = some c }

-- `critique.to_dict()`
rounded : FloatOps → Critique → Critique
rounded ops c = record c { severity = ops.round 4 c.severity }

unfoldable pub record_visits : FloatOps → Float → List Ref → Tree → Tree
record_visits ops value [] t = t
record_visits ops value (r ∷ path) t =
    record_visits ops value path (modify r (record_visit ops value) t)

unfoldable pub backpropagate : FloatOps → List (Ref × Float) → Tree → Tree
backpropagate ops [] t = t
backpropagate ops ((child, value) ∷ valued) t =
    backpropagate ops valued (record_visits ops value (path_from_root t child) t)

-- `if status is NodeStatus.TERMINAL and solution is None`
unfoldable pub first_solution : NodeStatus → Ref → Option Ref → Option Ref
first_solution status c (some s) = some s
first_solution status c none = if is_terminal_status status then some c else none

module _ {W : Type 0} (p : Policies W) (cfg : SearchConfig) where
  pub evaluate_one : Ref → Exec W Evaluation
  evaluate_one c s = node_call c (p.evaluate s.tree c) s

  -- One worker: the candidates in turn, up to the first that fails.
  pub in_sequence : List Ref → Exec W (List Evaluation)
  in_sequence [] = pure []
  in_sequence (c ∷ cs) = do v ← evaluate_one c; vs ← in_sequence cs; pure (v ∷ vs)

  -- The tasks of a batch that the workers carry out. Those behind a failure may run too, or be
  -- cancelled before they start.
  pub carry_out : List Ref → Run W → List Slot × Run W
  carry_out [] s = ([], s)
  carry_out (c ∷ cs) s =
      let (v, s') = evaluate_one c s in let (slots, s'') = carry_out cs s' in ((c, v) ∷ slots, s'')

  pub pooled : List Ref → List Ref → Exec W (List Evaluation)
  pooled children order s = let (slots, s') = carry_out order s in (gather slots children, s')

  pub in_pool : List Ref → Exec W (List Evaluation)
  in_pool children = do order ← world_call (p.pool_order children); pooled children order

  unfoldable pub collect_verdicts : List Ref → Exec W (List Evaluation)
  collect_verdicts children =
      if leb (min cfg.evaluation_workers (length children)) 1
      then in_sequence children
      else in_pool children

  apply_verdict : Ref → Evaluation → Exec W NodeStatus
  apply_verdict c v s =
      let status = classify p.ops cfg v in
      (ok status, record s { tree = modify c (apply_evaluation v.score status v.rationale) s.tree })

  store_critique : Ref → Option Critique → Exec W (Option Critique)
  store_critique c none s = (ok none, s)
  store_critique c (some k) s = (
    ok (some k),
    record s {
      tree =
          modify c (λ n. record n { metadata = with_critique (some (rounded p.ops k)) n.metadata })
            s.tree;
    },
  )

  -- A pruned child is offered to the critic, whose diagnosis is kept in its metadata.
  criticise :
      Option (Tree → Ref → W → Result (Option Critique) × W) → Ref → Bool → Exec W (Option Critique)
  criticise none c pruned s = (ok none, s)
  criticise (some critique) c false s = (ok none, s)
  criticise (some critique) c true s = (policy_call (critique s.tree c) >>= store_critique c) s

  shaped_value :
      Option (Tree → Ref → Float → Option Critique → W → Result Float × Metadata × W)
      → Ref
      → Float
      → Option Critique
      → Exec W Float
  shaped_value none c score critique s = (ok score, s)
  shaped_value (some shape) c score critique s = node_call c (shape s.tree c score critique) s

  -- What `_evaluate` returns.
  abbrev pub Evaluated : Type 0
  Evaluated = Option Ref × List (Ref × Float)

  -- The body of the loop for one child: its status and the value that flows up from it.
  pub judge : Ref → Evaluation → Exec W (NodeStatus × Float)
  judge c v = do
    status ← apply_verdict c v
    critique ← criticise p.critique c (is_pruned_status status)
    value ← shaped_value p.shape c v.score critique
    pure (status, value)

  -- The loop over the children and their verdicts, with the solution so far. `zip(strict=True)`
  -- raises where the lists end apart.
  pub apply_verdicts : Option Ref → List Ref → List Evaluation → Exec W Evaluated
  apply_verdicts solution [] [] = pure (solution, [])
  apply_verdicts solution [] (v ∷ vs) = throw Fault.value_error
  apply_verdicts solution (c ∷ cs) [] = throw Fault.value_error
  apply_verdicts solution (c ∷ cs) (v ∷ vs) = do
    judged ← judge c v
    rest ← apply_verdicts (first_solution judged.0 c solution) cs vs
    pure (rest.0, (c, judged.1) ∷ rest.1)

  unfoldable pub evaluate : List Ref → Exec W Evaluated
  evaluate children = do verdicts ← collect_verdicts children; apply_verdicts none children verdicts
