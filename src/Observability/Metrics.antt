-- ===== src/Observability/Metrics.antt =====
-- `RunMetrics.from_result` of cognitivetree/observability/metrics.py: the summary of a finished run.
pub mod Counted
use cognitive_tree_ai.Prelude.{
  ℕ, suc, ◌+◌, ◌-◌, ◌≤◌, ◌≡◌, refl, ap, Text, Float, FloatOps, zero_f, Bool, true, false, Option,
  none, some, List, [], ◌∷◌, keep, length, if◌then◌else◌, arith, Bool-cases, inl, inr,
}
use cognitive_tree_ai.Phases.{Phase, Outcome, contains}
use cognitive_tree_ai.Faults.{Note, Fault}
use cognitive_tree_ai.State.{PhaseTransition}
use cognitive_tree_ai.Node.{NodeStatus, Ref}
use cognitive_tree_ai.Tree.{Tree, nodes}
use cognitive_tree_ai.Search.{SearchResult}
use cognitive_tree_ai.Feedback.{attempts_of}
use cognitive_tree_ai.Observability.{TokenUsage}

-- Counts by the status of a node.
pub record StatusCounts : Type 0 where
  pub pending : ℕ
  pub evaluated : ℕ
  pub terminal : ℕ
  pub pruned : ℕ
  pub failed : ℕ

pub record RunMetrics : Type 0 where
  pub outcome : Outcome
  pub iterations : ℕ
  pub nodes : ℕ
  pub wall_time_seconds : Float
  pub solution_depth : Option ℕ
  pub best_path_length : ℕ
  pub structural_backtracks : ℕ
  pub revision_backtracks : ℕ
  pub revisions_granted : ℕ
  pub status_counts : StatusCounts
  pub phase_counts : Phase → ℕ
  pub phase_seconds : Phase → Float
  pub token_usage : Option TokenUsage

-- `status_counts[status] += 1`
count_status : NodeStatus → StatusCounts → StatusCounts
count_status NodeStatus.pending c = record c { pending = c.pending + 1 }
count_status NodeStatus.evaluated c = record c { evaluated = c.evaluated + 1 }
count_status NodeStatus.terminal c = record c { terminal = c.terminal + 1 }
count_status NodeStatus.pruned c = record c { pruned = c.pruned + 1 }
count_status NodeStatus.failed c = record c { failed = c.failed + 1 }

abbrev no_counts : StatusCounts
no_counts = record { pending = 0; evaluated = 0; terminal = 0; pruned = 0; failed = 0 }

-- The loop over the nodes.
count_nodes : Tree → List Ref → StatusCounts × ℕ → StatusCounts × ℕ
unfolding count_status
count_nodes t [] s = s
count_nodes t (r ∷ rs) (counts, granted) =
    count_nodes t rs
      (count_status (t.cell r).status counts, granted + attempts_of (t.cell r).metadata)

is_backtracking : Phase → Bool
is_backtracking Phase.backtracking = true
is_backtracking _ = false

-- `"revision" in note.lower()` for a note: the program's templates one by one; for a text from
-- outside the test is `mentions`.
mentions_revision : (Text → Bool) → (Fault → Text) → Note → Bool
mentions_revision mentions describe Note.reopened = true
mentions_revision mentions describe Note.notes_prepared = true
mentions_revision mentions describe (Note.reason text) = mentions text
mentions_revision mentions describe (Note.fault e) = mentions (describe e)
mentions_revision mentions describe _ = false

backtrack_notes : List PhaseTransition → List Note
unfolding is_backtracking
backtrack_notes [] = []
backtrack_notes (x ∷ xs) =
    if is_backtracking x.target then x.note ∷ backtrack_notes xs else backtrack_notes xs

last_stamp : PhaseTransition → List PhaseTransition → Float
last_stamp x [] = x.timestamp
last_stamp x (y ∷ ys) = last_stamp y ys

wall_time : FloatOps → List PhaseTransition → Float
unfolding last_stamp
wall_time ops [] = zero_f
wall_time ops (x ∷ []) = zero_f
wall_time ops (x ∷ y ∷ ys) = ops.sub (last_stamp y ys) x.timestamp

last_depth : Tree → List Ref → Option ℕ
last_depth t [] = none
last_depth t (x ∷ []) = some (t.cell x).depth
last_depth t (x ∷ y ∷ xs) = last_depth t (y ∷ xs)

-- `result.best_path[-1].depth if solved else None`
solution_depth : SearchResult → Option ℕ
unfolding last_depth
solution_depth r = elim r.outcome [ Outcome.succeeded ↦ last_depth r.tree r.best_path | _ ↦ none ]

-- `phase_counts`: how often each phase was entered.
pub phase_count : Phase → List PhaseTransition → ℕ
phase_count q [] = 0
phase_count q (x ∷ xs) =
    let rest = phase_count q xs in if contains (x.target ∷ []) q then suc rest else rest

-- `_phase_durations`: the time from a transition to the next, added to the phase that it entered;
-- the last transition has no successor and adds the difference of its own stamp.
pub phase_duration : FloatOps → Phase → Float → List PhaseTransition → Float
phase_duration ops q sum [] = sum
phase_duration ops q sum (x ∷ []) =
    if contains (x.target ∷ []) q then ops.add sum (ops.sub x.timestamp x.timestamp) else sum
phase_duration ops q sum (x ∷ y ∷ ys) =
    let added = phase_duration ops q (ops.add sum (ops.sub y.timestamp x.timestamp)) (y ∷ ys) in
    let skipped = phase_duration ops q sum (y ∷ ys) in
    if contains (x.target ∷ []) q then added else skipped

module _ (ops : FloatOps) (mentions : Text → Bool) (describe : Fault → Text) where
  pub from_result : SearchResult → Option TokenUsage → RunMetrics
  unfolding count_nodes backtrack_notes mentions_revision wall_time solution_depth phase_count
      phase_duration
  from_result r usage =
      let notes = backtrack_notes r.phase_history in
      let revisions = length (keep (mentions_revision mentions describe) notes) in
      let (counts, granted) = count_nodes r.tree (nodes r.tree) (no_counts, 0) in
      record {
        outcome = r.outcome;
        iterations = r.iterations;
        nodes = r.node_count;
        wall_time_seconds = wall_time ops r.phase_history;
        solution_depth = solution_depth r;
        best_path_length = length r.best_path;
        structural_backtracks = length notes - revisions;
        revision_backtracks = revisions;
        revisions_granted = granted;
        status_counts = counts;
        phase_counts = λ q. phase_count q r.phase_history;
        phase_seconds = λ q. phase_duration ops q zero_f r.phase_history;
        token_usage = usage;
      }
