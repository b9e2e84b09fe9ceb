-- ===== src/Examples.antt =====
-- The theorems at concrete inputs.
pub mod Remotes
pub mod Sandboxes
pub mod Sessions
pub mod Archives
pub mod Documents
use cognitive_tree_ai.Observability.Metrics.Counted.{
  entry, count_with, attempts_in, backtracks_noted, is_reopening, is_dead_end, from_result-counts,
}
use cognitive_tree_ai.Node.{NodeStatus}
use cognitive_tree_ai.Prelude.{
  take, ◌+◌, ◌<◌, ◌⊎◌, true, false, none, some, All, refl, ℕ, ◌≡◌, ◌↔◌, ◌≢◌, [], ◌∷◌, length,
}
use mathlib.Core.List.{Memᴰ}
use cognitive_tree_ai.Phases.{Phase}
use cognitive_tree_ai.Faults.{Note, Fault, raise, ok}
use cognitive_tree_ai.State.{new, is_terminal, can_transition, transition}
use cognitive_tree_ai.State.Graph.{Edge, Forced, can_transition-Edge, is_terminal-final}
use cognitive_tree_ai.State.Trace.{IsReplayable, new-IsReplayable, transition-IsReplayable}
use cognitive_tree_ai.Tree.{add_child, walk, path_from_root, prune_subtree}
use cognitive_tree_ai.Tree.WellFormed.{IsWellFormed}
use cognitive_tree_ai.Tree.Growth.{add_child-IsWellFormed}
use cognitive_tree_ai.Tree.Paths.{Chain, path_from_root-Chain}
use cognitive_tree_ai.Tree.Walks.{Below, each, walk-Below}
use cognitive_tree_ai.Tree.Pruning.{count_live, prune_subtree_lem}
use cognitive_tree_ai.Selection.{select}
use cognitive_tree_ai.Selection.Selects.{Selects, select-Selects}
use cognitive_tree_ai.Search.{run}
use cognitive_tree_ai.Search.Returns.{Returns, run-Returns}
use cognitive_tree_ai.Search.Sound.{Sane, run-Sane}
use cognitive_tree_ai.Expansion.{expand}
use cognitive_tree_ai.Expansion.Unique.{Grows, expand-Grows}
use cognitive_tree_ai.Evaluation.{evaluate, backpropagate, collect_verdicts}
use cognitive_tree_ai.Evaluation.Order.{in_order, collect_verdicts-in_order}
use cognitive_tree_ai.Evaluation.Verdicts.{Scores, evaluate-Scores}
use cognitive_tree_ai.Evaluation.Visits.{credit, credited, backpropagate-credit}
use cognitive_tree_ai.Llm.{get, put, complete}
use cognitive_tree_ai.Llm.Store.{IsCache, put-IsCache, get-IsCache, get-put}
use cognitive_tree_ai.Llm.Replay.{Completes, complete-Completes}
use cognitive_tree_ai.Observability.{check}
use cognitive_tree_ai.Observability.Spending.{
  counted, answers, spent_calls, spent_tokens, Reached, check-spent,
}
use cognitive_tree_ai.Feedback.{revise, compile_revision_notes, critiques, no_text}
use cognitive_tree_ai.Feedback.Notes.{Silent, compile_revision_notes-Silent}
use cognitive_tree_ai.Feedback.Revisions.{Qualifies, Leaves, revise-Qualifies}
use cognitive_tree_ai.Sandbox.{new_reader, drain, join, data_of}
use cognitive_tree_ai.Sandbox.Capture.{drain-take}
use cognitive_tree_ai.Tree.{nodes}
use cognitive_tree_ai.Observability.Metrics.{from_result}
use cognitive_tree_ai.Critic.{critique_execution}
use cognitive_tree_ai.Critic.Diagnosed.{Says, critique_execution-Says}
use cognitive_tree_ai.Llm.Parsing.Slices.{Found, extract_json_object-Found}
use cognitive_tree_ai.Llm.Scripted.{complete_each, prepared, complete_each-prepared}
use cognitive_tree_ai.Sandbox.Bounded.{Runs, run_bounded, run_bounded-Runs}
use cognitive_tree_ai.Scenarios.{
  talker, crashed, parses, reply_text, reply_parses, finished, request, reply, backend, store,
  store-IsCache, numbers-IsKeyTest, request_self, budget, revisions, numbers, verdict, pool_covers,
  policies-Known, pair-AllSiblings, number, policies, config, pair, pair-IsWellFormed,
  finished-Noted, pair-holds_one, state_of, started,
}

run-Returns_example : Returns 4 (run policies config (80 ∷ []) 0)
run-Returns_example = run-Returns policies config (80 ∷ []) 0 (λ e t w. refl)

select-Selects_example : Selects config (λ e. ⊥) pair (select policies config (state_of pair))
select-Selects_example =
    select-Selects policies config (λ e. ⊥) (state_of pair) (λ t r w e q. cc) pair-IsWellFormed

can_transition-Edge_example :
    (can_transition started Phase.expansion ≡ true) ↔ Edge started.phase Phase.expansion
can_transition-Edge_example = can_transition-Edge started Phase.expansion

is_terminal-final_example :
    (is_terminal started ≡ true
      → (now : _) (target : Phase) (note : Note)
      → transition now target note started
        ≡ (raise (Fault.invalid_transition started.phase target), started))
    × (is_terminal started ≢ true
        → (target : Phase) → Forced target
        → can_transition started target ≡ true)
is_terminal-final_example = is_terminal-final started

transition-IsReplayable_example :
    IsReplayable (transition (number 6) Phase.expansion Note.blank new).1
transition-IsReplayable_example =
    transition-IsReplayable (number 6) Phase.expansion Note.blank new new-IsReplayable

add_child-IsWellFormed_example : IsWellFormed (add_child (2 ∷ []) 1 (66 ∷ []) pair).1
add_child-IsWellFormed_example =
    add_child-IsWellFormed (2 ∷ []) 1 (66 ∷ []) pair pair-IsWellFormed pair-holds_one

path_from_root-Chain_example :
    Chain pair pair.root (path_from_root pair 1) 1
    × (length (path_from_root pair 1) ≡ (pair.cell 1).depth + 1)
path_from_root-Chain_example = path_from_root-Chain pair 1 pair-IsWellFormed pair-holds_one

walk-Below_example :
    (walk pair 1 ≡ 1 ∷ each (walk pair) (pair.cell 1).children)
    × ((x : ℕ) → (Memᴰ x (walk pair 1) → Below pair 1 x) × (Below pair 1 x → Memᴰ x (walk pair 1)))
walk-Below_example = walk-Below pair pair-IsWellFormed 1 pair-holds_one

prune_subtree_lem_example :
    (prune_subtree 1 pair).0 + count_live (prune_subtree 1 pair).1 pair.size
    ≡ count_live pair pair.size
prune_subtree_lem_example = (prune_subtree_lem 1 pair pair-IsWellFormed pair-holds_one).2

run-Sane_example : Sane (λ e. e ≢ Fault.no_fuel) (run policies config (80 ∷ []) 0)
run-Sane_example = run-Sane policies config (λ e. e ≢ Fault.no_fuel) (80 ∷ []) 0 policies-Known

expand-Grows_example : Grows 2 pair 1 (expand policies config 1 (state_of pair))
expand-Grows_example =
    expand-Grows policies config 1 (state_of pair) pair-IsWellFormed pair-holds_one pair-AllSiblings

collect_verdicts-in_order_example :
    (collect_verdicts policies config (1 ∷ 2 ∷ []) (state_of pair)).0
    ≡ in_order (λ r. ok (verdict r)) (1 ∷ 2 ∷ [])
collect_verdicts-in_order_example =
    collect_verdicts-in_order policies config (λ r. ok (verdict r)) (λ t c w. refl) (1 ∷ 2 ∷ [])
      (state_of pair) pool_covers

evaluate-Scores_example :
    Scores policies config
      (λ r. ok (verdict r))
      (1 ∷ 2 ∷ [])
      (evaluate policies config (1 ∷ 2 ∷ []) (state_of pair))
evaluate-Scores_example =
    evaluate-Scores policies config (λ r. ok (verdict r)) (1 ∷ 2 ∷ []) (state_of pair)
      (λ t c w. refl) pool_covers

backpropagate-credit_example :
    (backpropagate numbers ((1, number 4) ∷ []) pair).cell 0
    ≡ credit numbers (credited pair 0 ((1, number 4) ∷ [])) (pair.cell 0)
backpropagate-credit_example =
    backpropagate-credit numbers ((1, number 4) ∷ []) pair 0 pair-IsWellFormed (pair-holds_one, tt)

get-put_example : (get numbers request (put numbers request reply store)).0 ≡ some reply
get-put_example = get-put numbers numbers-IsKeyTest request reply store store-IsCache request_self

put-IsCache_example : IsCache numbers (put numbers request reply store)
put-IsCache_example =
    put-IsCache numbers numbers-IsKeyTest request reply store store-IsCache request_self

get-IsCache_example : IsCache numbers (get numbers request (put numbers request reply store)).1
get-IsCache_example =
    get-IsCache numbers numbers-IsKeyTest request (put numbers request reply store)
      (put-IsCache numbers numbers-IsKeyTest request reply store store-IsCache request_self)

complete-Completes_example :
    Completes numbers backend false request store 0
      (complete numbers backend false request (store, 0))
complete-Completes_example =
    complete-Completes numbers backend false request refl numbers-IsKeyTest request_self store 0
      store-IsCache

check-spent_example :
    ((check budget (counted backend (request ∷ request ∷ []) (budget.baseline, 0)).1 ≢ none) ↔ (
      Reached budget.max_total_tokens (spent_tokens (answers backend (request ∷ request ∷ []) 0).0)
      ⊎ Reached budget.max_calls (spent_calls (answers backend (request ∷ request ∷ []) 0).0)))
    × ((counted backend (request ∷ request ∷ []) (budget.baseline, 0)).0
        ≡ (answers backend (request ∷ request ∷ []) 0).0)
check-spent_example = check-spent backend budget (request ∷ request ∷ []) 0

compile_revision_notes-Silent_example :
    (no_text (compile_revision_notes pair 0) ≡ true) ↔ All Silent (critiques pair 0)
compile_revision_notes-Silent_example = compile_revision_notes-Silent pair 0

revise-Qualifies_example :
    (((revise revisions pair 0).0 ≡ true) ↔ Qualifies revisions pair 0)
    × Leaves pair 0 (revise revisions pair 0)
revise-Qualifies_example = revise-Qualifies revisions pair 0

drain-take_example :
    (data_of (drain ((1 ∷ 2 ∷ []) ∷ (3 ∷ []) ∷ []) (new_reader 2))
      ≡ take 2 (join ((1 ∷ 2 ∷ []) ∷ (3 ∷ []) ∷ [])))
    × (((drain ((1 ∷ 2 ∷ []) ∷ (3 ∷ []) ∷ []) (new_reader 2)).truncated ≡ true)
        ↔ (2 < length (join ((1 ∷ 2 ∷ []) ∷ (3 ∷ []) ∷ []))))
drain-take_example = drain-take 2 ((1 ∷ 2 ∷ []) ∷ (3 ∷ []) ∷ [])

from_result-counts_example :
    let m = from_result numbers (λ x. false) (λ e. []) finished none in
    ((q : NodeStatus) → entry q m.status_counts ≡ count_with q pair (nodes pair))
    × (m.revisions_granted ≡ attempts_in pair (nodes pair))
    × (m.revision_backtracks ≡ backtracks_noted is_reopening finished.phase_history)
    × (m.structural_backtracks ≡ backtracks_noted is_dead_end finished.phase_history)
from_result-counts_example =
    from_result-counts (λ x. false) (λ e. []) numbers finished none finished-Noted

critique_execution-Says_example : Says (some crashed) (critique_execution (λ c. []) (some crashed))
critique_execution-Says_example = critique_execution-Says (λ c. []) (some crashed)

extract_json_object-Found_example : Found parses reply_text 7
extract_json_object-Found_example = extract_json_object-Found parses reply_text 7 reply_parses

complete_each-prepared_example :
    ((complete_each []
        (request ∷ request ∷ [])
        (record { requests = []; world = (72 ∷ []) ∷ [] })).0
      ≡ prepared [] (request ∷ request ∷ []) ((72 ∷ []) ∷ []))
    × ((complete_each []
          (request ∷ request ∷ [])
          (record { requests = []; world = (72 ∷ []) ∷ [] })).1.requests
        ≡ request ∷ request ∷ [])
complete_each-prepared_example =
    complete_each-prepared [] (request ∷ request ∷ []) [] ((72 ∷ []) ∷ [])

run_bounded-Runs_example : Runs 2 (talker 0) (run_bounded talker 2 0)
run_bounded-Runs_example = run_bounded-Runs talker 2 0 refl
