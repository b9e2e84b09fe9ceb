-- ===== src/Observability/Metrics/Counted.antt =====
-- The counts in the metrics of a run (cognitivetree/observability/metrics.py) beside the nodes of the
-- tree and the transitions of the history.
use cognitive_tree_ai.Prelude.{
  ℕ, ◌+◌, ◌==◌, ◌≡◌, ◌⊎◌, refl, Text, FloatOps, Bool, true, false, Option, List, [], ◌∷◌, keep,
  length, if◌then◌else◌, All, arith, inl, inr,
}
use cognitive_tree_ai.Phases.{Phase}
use cognitive_tree_ai.Faults.{Note, Fault}
use cognitive_tree_ai.State.{PhaseTransition}
use cognitive_tree_ai.Node.{NodeStatus, Ref}
use cognitive_tree_ai.Tree.{Tree, nodes}
use cognitive_tree_ai.Search.{SearchResult}
use cognitive_tree_ai.Feedback.{attempts_of}
use cognitive_tree_ai.Observability.{TokenUsage}
use cognitive_tree_ai.Observability.Metrics.{
  StatusCounts, count_status, count_nodes, is_backtracking, mentions_revision, backtrack_notes,
  from_result, no_counts,
}

-- The entry of a status.
abbrev pub entry : NodeStatus → StatusCounts → ℕ
entry NodeStatus.pending c = c.pending
entry NodeStatus.evaluated c = c.evaluated
entry NodeStatus.terminal c = c.terminal
entry NodeStatus.pruned c = c.pruned
entry NodeStatus.failed c = c.failed

abbrev pub place : NodeStatus → ℕ
place NodeStatus.pending = 0
place NodeStatus.evaluated = 1
place NodeStatus.terminal = 2
place NodeStatus.pruned = 3
place NodeStatus.failed = 4

-- How many of the nodes have the status.
pub count_with : NodeStatus → Tree → List Ref → ℕ
count_with q t [] = 0
count_with q t (r ∷ rs) = (if place (t.cell r).status == place q then 1 else 0) + count_with q t rs

-- The attempts that the nodes record, in sum.
pub attempts_in : Tree → List Ref → ℕ
attempts_in t [] = 0
attempts_in t (r ∷ rs) = attempts_of (t.cell r).metadata + attempts_in t rs

-- How many transitions lead into the backtracking phase with a note of this kind.
pub backtracks_noted : (Note → Bool) → List PhaseTransition → ℕ
backtracks_noted kind [] = 0
backtracks_noted kind (x ∷ xs) =
    (elim x.target [ Phase.backtracking ↦ if kind x.note then 1 else 0 | _ ↦ 0 ])
    + backtracks_noted kind xs

abbrev pub is_reopening : Note → Bool
is_reopening Note.reopened = true
is_reopening _ = false

abbrev pub is_dead_end : Note → Bool
is_dead_end Note.no_candidates = true
is_dead_end _ = false

-- The notes that the controller gives the transitions into the backtracking phase.
abbrev pub Noted : PhaseTransition → Type 0
Noted x = x.target ≡ Phase.backtracking → (x.note ≡ Note.reopened) ⊎ (x.note ≡ Note.no_candidates)

entry-count_status :
    (q s : NodeStatus) (c : StatusCounts)
    → entry q (count_status s c) ≡ entry q c + (if place s == place q then 1 else 0)
unfolding count_status
entry-count_status NodeStatus.pending NodeStatus.pending c = omega arith
entry-count_status NodeStatus.evaluated NodeStatus.evaluated c = omega arith
entry-count_status NodeStatus.terminal NodeStatus.terminal c = omega arith
entry-count_status NodeStatus.pruned NodeStatus.pruned c = omega arith
entry-count_status NodeStatus.failed NodeStatus.failed c = omega arith
entry-count_status _ _ c = omega arith

entry-count_nodes :
    (q : NodeStatus) (t : Tree) (rs : List Ref) (s : StatusCounts × ℕ)
    → (entry q (count_nodes t rs s).0 ≡ entry q s.0 + count_with q t rs)
      × ((count_nodes t rs s).1 ≡ s.1 + attempts_in t rs)
unfolding count_nodes count_with attempts_in
entry-count_nodes q t [] s = (omega arith, omega arith)
entry-count_nodes q t (r ∷ rs) (counts, granted) =
    let status = (t.cell r).status in
    let (e, g) =
      entry-count_nodes q t rs
        (count_status status counts, granted + attempts_of (t.cell r).metadata) in
    (omega (arith, e, entry-count_status q status counts), omega (arith, g))

entry_none : (q : NodeStatus) → entry q no_counts ≡ 0
entry_none NodeStatus.pending = refl
entry_none _ = refl

-- What one transition adds to a count.
abbrev one : (Note → Bool) → Phase → Note → ℕ
one kind q n = elim q [ Phase.backtracking ↦ if kind n then 1 else 0 | _ ↦ 0 ]

module _ (mentions : Text → Bool) (describe : Fault → Text) where
  abbrev tells : Note → Bool
  tells = mentions_revision mentions describe

  -- The notes with that of one more transition in front.
  collected :
      (q : Phase) (n : Note) (rest : List Note) (a b : ℕ)
      → (q ≡ Phase.backtracking → (n ≡ Note.reopened) ⊎ (n ≡ Note.no_candidates))
      → length (keep tells rest) ≡ a
      → length rest ≡ a + b
      → (length (keep tells (if is_backtracking q then n ∷ rest else rest))
          ≡ one is_reopening q n + a)
        × (length (if is_backtracking q then n ∷ rest else rest)
            ≡ (one is_reopening q n + a) + (one is_dead_end q n + b))
  unfolding is_backtracking mentions_revision keep
  collected Phase.backtracking n rest a b h e l = elim (h refl) [
    | inl i ↦ rw i (omega (arith, e), omega (arith, l))
    | inr i ↦ rw i (omega (arith, e), omega (arith, l))
  ]
  collected _ n rest a b h e l = (omega (arith, e), omega (arith, l))

  collected_each :
      (xs : List PhaseTransition)
      → All Noted xs
      → (length (keep tells (backtrack_notes xs)) ≡ backtracks_noted is_reopening xs)
        × (length (backtrack_notes xs)
            ≡ backtracks_noted is_reopening xs + backtracks_noted is_dead_end xs)
  unfolding backtrack_notes backtracks_noted keep
  collected_each [] h = (refl, refl)
  collected_each (x ∷ xs) (n, h) =
      let (e, l) = collected_each xs h in collected x.target x.note (backtrack_notes xs) _ _ n e l

  -- Let the transitions into the backtracking phase carry the notes that the controller gives them.
  -- The metrics of a result count, for each status, the nodes of the tree that have it; the granted
  -- revisions are the attempts that the nodes record, in sum; the revision backtracks are the
  -- transitions that reopened a node, and the structural backtracks those away from a dead end.
  pub from_result-counts :
      (ops : FloatOps) (r : SearchResult) (usage : Option TokenUsage)
      → All Noted r.phase_history
      → let m = from_result ops mentions describe r usage in
        ((q : NodeStatus) → entry q m.status_counts ≡ count_with q r.tree (nodes r.tree))
        × (m.revisions_granted ≡ attempts_in r.tree (nodes r.tree))
        × (m.revision_backtracks ≡ backtracks_noted is_reopening r.phase_history)
        × (m.structural_backtracks ≡ backtracks_noted is_dead_end r.phase_history)
  unfolding from_result
  from_result-counts ops r usage h =
      let (e, l) = collected_each r.phase_history h in
      (
        λ q.
            omega
              (arith, (entry-count_nodes q r.tree (nodes r.tree) (no_counts, 0)).0, entry_none q),
        omega
            (arith, (entry-count_nodes NodeStatus.pending r.tree (nodes r.tree) (no_counts, 0)).1),
        e,
        omega (arith, e, l),
      )
