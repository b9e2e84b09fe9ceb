-- ===== src/State.antt =====
-- cognitivetree/state.py: the machine that guards the order of the search phases. A method
-- returns its result and the machine after it; a machine that refuses stays as it was.
pub mod Graph
pub mod Trace
use cognitive_tree_ai.Prelude.{Float, Bool, true, false, List, [], ◌∷◌, ◌++◌, if◌then◌else◌}
use cognitive_tree_ai.Phases.{Phase, contains, transitions, terminal_phases}
use cognitive_tree_ai.Faults.{Note, Fault, Result, ok, raise}

pub record PhaseTransition : Type 0 where
  pub source : Phase
  pub target : Phase
  pub note : Note
  pub timestamp : Float

pub record Machine : Type 0 where
  pub phase : Phase
  pub history : List PhaseTransition

abbrev pub new : Machine
new = record { phase = Phase.idle; history = [] }

unfoldable pub is_terminal : Machine → Bool
unfolding contains
is_terminal m = contains terminal_phases m.phase

unfoldable pub can_transition : Machine → Phase → Bool
unfolding contains transitions
can_transition m target = contains (transitions m.phase) target

-- `now` is the reading of `time.monotonic()`, which is taken only where the edge is legal.
unfoldable pub transition : Float → Phase → Note → Machine → Result PhaseTransition × Machine
unfolding can_transition
transition now target note m =
    let r : PhaseTransition = record {
      source = m.phase;
      target = target;
      note = note;
      timestamp = now;
    } in
    if can_transition m target
    then (ok r, record { phase = target; history = m.history ++ r ∷ [] })
    else (raise (Fault.invalid_transition m.phase target), m)
