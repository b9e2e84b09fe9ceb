-- ===== src/State/Graph.antt =====
-- The transition table against the documented diagram, and the dead ends of the machine.
use cognitive_tree_ai.Prelude.{Float, true, ◌≡◌, ◌≢◌, ◌↔◌, ◌⊎◌, inl, inr, refl, arith}
use cognitive_tree_ai.Phases.{Phase, contains, transitions, terminal_phases}
use cognitive_tree_ai.Faults.{Note, Fault, raise}
use cognitive_tree_ai.State.{Machine, is_terminal, can_transition, transition}

-- A phase in which the search still works.
pub data InProgress : Phase → Type 0 where
  idle : InProgress Phase.idle
  selection : InProgress Phase.selection
  expansion : InProgress Phase.expansion
  evaluation : InProgress Phase.evaluation
  backpropagation : InProgress Phase.backpropagation
  backtracking : InProgress Phase.backtracking

-- The four ends that an outside constraint forces.
pub data Forced : Phase → Type 0 where
  failed : Forced Phase.failed
  timed_out : Forced Phase.timed_out
  budget_exhausted : Forced Phase.budget_exhausted
  cancelled : Forced Phase.cancelled

-- The arrows of the diagram in README.md, and the ends that strike from anywhere.
pub data Edge : Phase → Phase → Type 0 where
  start : Edge Phase.idle Phase.selection
  expand : Edge Phase.selection Phase.expansion
  revive : Edge Phase.selection Phase.backtracking
  empty : Edge Phase.selection Phase.exhausted
  evaluate : Edge Phase.expansion Phase.evaluation
  dead_end : Edge Phase.expansion Phase.backtracking
  backpropagate : Edge Phase.evaluation Phase.backpropagation
  next : Edge Phase.backpropagation Phase.selection
  solve : Edge Phase.backpropagation Phase.succeeded
  spend : Edge Phase.backpropagation Phase.exhausted
  return : Edge Phase.backtracking Phase.selection
  give_up : Edge Phase.backtracking Phase.exhausted
  force : {s t : Phase} → InProgress s → Forced t → Edge s t

ruleset arrows = (
  start, expand, revive, empty, evaluate, dead_end, backpropagate, next, solve, spend, return,
  give_up, force,
)

ruleset ends = (failed, timed_out, budget_exhausted, cancelled)

ruleset works = (idle, selection, expansion, evaluation, backpropagation, backtracking)

Forced-follows :
    {t : Phase} (s : Phase) → InProgress s → Forced t → contains (transitions s) t ≡ true
unfolding contains transitions
Forced-follows s idle failed = refl
Forced-follows s idle timed_out = refl
Forced-follows s idle budget_exhausted = refl
Forced-follows s idle cancelled = refl
Forced-follows s selection failed = refl
Forced-follows s selection _ = refl
Forced-follows s expansion failed = refl
Forced-follows s expansion _ = refl
Forced-follows s evaluation failed = refl
Forced-follows s evaluation _ = refl
Forced-follows s backpropagation failed = refl
Forced-follows s backpropagation _ = refl
Forced-follows s backtracking failed = refl
Forced-follows s backtracking _ = refl

Edge→contains : {s t : Phase} → Edge s t → contains (transitions s) t ≡ true
unfolding contains transitions
Edge→contains (force w f) = Forced-follows _ w f
Edge→contains start = refl
Edge→contains _ = refl

contains→Edge : (s t : Phase) → contains (transitions s) t ≡ true → Edge s t
unfolding contains transitions
contains→Edge Phase.idle t h = grind (arith, arrows, ends, works)
contains→Edge Phase.selection t h = grind (arith, arrows, ends, works)
contains→Edge _ t h = grind (arith, arrows, ends, works)

-- A machine allows a move exactly when the diagram has an arrow from its phase to the target.
pub can_transition-Edge :
    (m : Machine) (target : Phase) → (can_transition m target ≡ true) ↔ Edge m.phase target
unfolding can_transition
can_transition-Edge m target = (contains→Edge m.phase target, Edge→contains)

pub phase_cases : (p : Phase) → InProgress p ⊎ (contains terminal_phases p ≡ true)
unfolding contains
phase_cases Phase.idle = inl idle
phase_cases Phase.selection = inl selection
phase_cases Phase.expansion = inl expansion
phase_cases Phase.evaluation = inl evaluation
phase_cases Phase.backpropagation = inl backpropagation
phase_cases Phase.backtracking = inl backtracking
phase_cases _ = inr refl

-- A machine in a terminal phase refuses every target and stays as it was; in any other phase each
-- of the four forced ends is allowed.
pub is_terminal-final :
    (m : Machine)
    → (is_terminal m ≡ true
        → (now : Float) (target : Phase) (note : Note)
        → transition now target note m ≡ (raise (Fault.invalid_transition m.phase target), m))
      × (is_terminal m ≢ true → (target : Phase) → Forced target → can_transition m target ≡ true)
unfolding is_terminal transition
is_terminal-final m = (
  λ h now target note. ground arith,
  λ h target f. elim (phase_cases m.phase) [
    | inl w ↦ Edge→contains (force w f)
    | inr t ↦ absurd (h t)
  ],
)
