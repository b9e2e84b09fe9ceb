-- ===== src/Search.antt =====
-- `run` of cognitivetree/search.py: the search loop under the state machine. The state machine,
-- the tree and the iteration count are the state of an `Exec`; the world is that of the policies.
pub mod Phasing
pub mod Iterations
pub mod Total
pub mod Returns
pub mod Invariant
pub mod Parts
pub mod Steps
pub mod Limits
pub mod Sound
pub mod Kept
pub mod Recorded
use cognitive_tree_ai.Prelude.{
  ℕ, zero, suc, ◌+◌, Float, FloatOps, Text, Bool, true, false, Option, none, some, List, [], ◌∷◌,
  if◌then◌else◌, length,
}
use cognitive_tree_ai.Phases.{Phase, Outcome}
use cognitive_tree_ai.Faults.{Note, Fault, Result, ok, raise}
use cognitive_tree_ai.State.{PhaseTransition, Machine, new, transition, is_terminal}
use cognitive_tree_ai.Node.{Node, Ref}
use cognitive_tree_ai.Tree.{Tree, new_tree, len, best_path}
use cognitive_tree_ai.Config.{SearchConfig}
use cognitive_tree_ai.Policies.{Policies, SearchEvent}
use cognitive_tree_ai.Exec.{Run, Exec, pure, throw, world_call, policy_call, ◌>>=◌, ◌>>◌}
use cognitive_tree_ai.Selection.{prune, Selected, select}
use cognitive_tree_ai.Expansion.{expand}
use cognitive_tree_ai.Evaluation.{Evaluated, evaluate, backpropagate}

pub record SearchResult : Type 0 where
  pub outcome : Outcome
  pub best_path : List Ref
  pub iterations : ℕ
  pub node_count : ℕ
  pub phase_history : List PhaseTransition
  pub tree : Tree
  pub error : Option Fault

-- `_OUTCOME_BY_PHASE[phase]`
unfoldable pub outcome_by_phase : Phase → Result Outcome
outcome_by_phase Phase.succeeded = ok Outcome.succeeded
outcome_by_phase Phase.exhausted = ok Outcome.exhausted
outcome_by_phase Phase.failed = ok Outcome.failed
outcome_by_phase Phase.timed_out = ok Outcome.timed_out
outcome_by_phase Phase.budget_exhausted = ok Outcome.budget_exhausted
outcome_by_phase Phase.cancelled = ok Outcome.cancelled
outcome_by_phase _ = raise Fault.key_error

unfoldable pub last_content : Tree → List Ref → Option Text
last_content t [] = none
last_content t (x ∷ []) = some (t.cell x).content
last_content t (x ∷ y ∷ xs) = last_content t (y ∷ xs)

-- `result.solution`
unfoldable pub solution : SearchResult → Option Text
solution r = elim r.outcome [ Outcome.succeeded ↦ last_content r.tree r.best_path | _ ↦ none ]

module _ {W : Type 0} (p : Policies W) where
  -- Mirrors an accepted transition to the event sink.
  unfoldable pub notify : SearchEvent → Exec W (Unit {0})
  notify event s = elim p.on_event [
    | none ↦ (ok tt, s)
    | some sink ↦ policy_call (sink event s.tree) s
  ]

  -- `machine.transition(target, detail)`
  unfoldable pub move : Phase → Note → Exec W (Unit {0})
  move target detail s =
      let (now, w) = p.monotonic s.world in
      let (result, m) = transition now target detail s.machine in
      elim result [ raise e ↦ (raise e, s) | ok _ ↦ (ok tt, record s { machine = m; world = w }) ]

  -- `_advance`
  unfoldable pub advance : Phase → Option Text → Note → Exec W (Unit {0})
  advance target node_id detail s =
      (do
        move target detail
        notify (record {
          iteration = s.iteration;
          phase = target;
          node_id = node_id;
          detail = detail;
        }))
        s

  -- `cancel_event is not None and cancel_event.is_set()`
  is_cancelled : Exec W Bool
  is_cancelled = elim p.cancelled [ none ↦ pure false | some f ↦ world_call f ]

  -- `deadline is not None and time.monotonic() >= deadline`
  is_late : Option Float → Exec W Bool
  is_late none s = (ok false, s)
  is_late (some deadline) s =
      let (now, w) = p.monotonic s.world in (ok (p.ops.le deadline now), record s { world = w })

  -- The reason of the stop condition; an empty text is no reason.
  stop_reason : Exec W (Option Text)
  stop_reason = elim p.check [ none ↦ pure none | some f ↦ policy_call f ]

  -- Stops the run in a terminal phase.
  halt : Phase → Note → Exec W Bool
  halt target detail = do advance target none detail; pure false

  on_reason : Option Text → Exec W Bool
  on_reason none = pure true
  on_reason (some []) = pure true
  on_reason (some (c ∷ text)) = halt Phase.budget_exhausted (Note.reason (c ∷ text))

  on_late : Float → Bool → Exec W Bool
  on_late limit true = halt Phase.timed_out (Note.wall_clock_spent limit)
  on_late limit false = do reason ← stop_reason; on_reason reason

  on_cancelled : Option Float → Float → Bool → Exec W Bool
  on_cancelled deadline limit true = halt Phase.cancelled Note.run_cancelled
  on_cancelled deadline limit false = do late ← is_late deadline; on_late limit late

  -- The checks before an iteration: true if the iteration may begin.
  pub boundary : Option Float → Float → Exec W Bool
  boundary deadline limit = do cancelled ← is_cancelled; on_cancelled deadline limit cancelled

  -- `_advance` with the identifier of a node.
  pub advance_node : Phase → Ref → Note → Exec W (Unit {0})
  advance_node target r detail s = advance target (some (s.tree.cell r).id) detail s

  count_iteration : Exec W (Unit {0})
  count_iteration s = (ok tt, record s { iteration = s.iteration + 1 })

  -- `if revived:`
  announce : Ref → List Text → Exec W (Unit {0})
  announce r [] = pure tt
  announce r (x ∷ xs) = do
    advance_node Phase.backtracking r Note.reopened
    advance_node Phase.selection r Note.notes_prepared
    pure tt

  -- An expansion without candidates: the node is a dead end.
  dead_end : Ref → Exec W Bool
  dead_end r = do
    advance_node Phase.backtracking r Note.no_candidates
    prune r
    advance Phase.selection none Note.backtracked
    pure true

  succeed : Ref → Exec W (Unit {0})
  succeed c s = advance_node Phase.succeeded c (Note.accepted (s.tree.cell c).score) s

  -- The end of an iteration: true if the loop goes on.
  conclude : Option Ref → Exec W Bool
  conclude (some c) = do succeed c; pure false
  conclude none = do advance Phase.selection none Note.iteration_complete; pure true

  unfoldable pub propagate : List (Ref × Float) → Exec W (Unit {0})
  propagate valued s = (ok tt, record s { tree = backpropagate p.ops valued s.tree })

  pub rescue : Result (Unit {0}) → Exec W (Option Fault)
  rescue (ok _) s = (ok none, s)
  rescue (raise e) s = (do advance Phase.failed none (Note.fault e); pure (some e)) s

  -- `except Exception`: the fault is recorded, and the machine is sent to its phase.
  pub guarded : Exec W (Unit {0}) → Exec W (Option Fault)
  guarded body s = let (result, s') = body s in rescue result s'

  close_if : Bool → Exec W (Unit {0})
  close_if true = pure tt
  close_if false = advance Phase.exhausted none Note.iterations_spent

  -- The guard against an exit in a phase that is not terminal.
  pub close : Exec W (Unit {0})
  close s = close_if (is_terminal s.machine) s

  pub report : Option Fault → Exec W SearchResult
  report error s = elim (outcome_by_phase s.machine.phase) [
    | raise e ↦ (raise e, s)
    | ok outcome ↦ (
      ok (record {
        outcome = outcome;
        best_path = best_path p.ops s.tree;
        iterations = s.iteration;
        node_count = len s.tree;
        phase_history = s.machine.history;
        tree = s.tree;
        error = error;
      }),
      s,
    )
  ]

  module _ (cfg : SearchConfig) where
    -- The fresh children are scored, and their values flow up.
    score_batch : Ref → List Ref → Exec W Bool
    score_batch r children = do
      advance_node Phase.evaluation r (Note.candidates (length children))
      result ← evaluate p cfg children
      advance_node Phase.backpropagation r Note.blank
      propagate result.1
      conclude result.0

    grow : Ref → List Ref → Exec W Bool
    grow r [] = dead_end r
    grow r (c ∷ cs) = score_batch r (c ∷ cs)

    -- What an iteration does with the node that it selected.
    work_on : Option Ref → List Text → Exec W Bool
    work_on none revived = do advance Phase.exhausted none Note.frontier_empty; pure false
    work_on (some r) revived = do
      announce r revived
      advance_node Phase.expansion r Note.blank
      children ← expand p cfg r
      grow r children

    -- One iteration: true if the loop goes on.
    pub iteration : Exec W Bool
    iteration = do count_iteration; selected ← select p cfg; work_on selected.0 selected.1

    attempt : Bool → Exec W Bool
    attempt true = iteration
    attempt false = pure false

    proceed : Exec W (Unit {0}) → Bool → Exec W (Unit {0})
    proceed rest true = rest
    proceed rest false = pure tt

    -- The `while` loop; each round that goes on counts one iteration, so `rounds` is what is left
    -- of `max_iterations`.
    pub loop : ℕ → Option Float → Float → Exec W (Unit {0})
    loop zero deadline limit s = (ok tt, s)
    loop (suc rounds) deadline limit s =
        (do
          go ← boundary deadline limit
          again ← attempt go
          proceed (loop rounds deadline limit) again)
          s

    deadline_from : Option Float → Exec W (Option Float)
    deadline_from none s = (ok none, s)
    deadline_from (some seconds) s =
        let (now, w) = p.monotonic s.world in
        (ok (some (p.ops.add now seconds)), record s { world = w })

    -- The deadline, and the limit that its note quotes.
    deadline_of : Exec W (Option Float)
    deadline_of = deadline_from cfg.max_wall_seconds

    limit : Option Float → Float
    limit none = record { bits = 0 }
    limit (some seconds) = seconds

    unfoldable pub start : Text → W → Run W
    start task w = record {
      tree = new_tree (p.ids 0) task;
      machine = new;
      world = w;
      iteration = 0;
    }

    pub run_from : Exec W SearchResult
    run_from = do
      deadline ← deadline_of
      advance Phase.selection none Note.search_started
      error ← guarded (loop cfg.max_iterations deadline (limit cfg.max_wall_seconds))
      close
      report error

    -- `run(task)`, with the state that it leaves.
    unfoldable pub run : Text → W → Result SearchResult × Run W
    run task w = run_from (start task w)
