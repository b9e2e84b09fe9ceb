-- ===== src/State/Trace.antt =====
-- The recorded history is a walk along the diagram that ends in the machine's phase.
use cognitive_tree_ai.Prelude.{Float, true, ◌≡◌, refl, Bool-cases, inl, inr, List, [], ◌∷◌, ◌++◌}
use cognitive_tree_ai.Phases.{Phase}
use cognitive_tree_ai.Faults.{Note, ok}
use cognitive_tree_ai.State.{PhaseTransition, Machine, new, can_transition, transition}
use cognitive_tree_ai.State.Graph.{Edge, can_transition-Edge}

-- `records` leads from phase `s` to phase `t` along arrows of the diagram.
pub data Trace (s : Phase) : List PhaseTransition → Phase → Type 0 where
  here : Trace s [] s
  step :
      {records : List PhaseTransition} {u : Phase} (r : PhaseTransition)
      → Trace s records u
      → r.source ≡ u
      → Edge u r.target
      → Trace s (records ++ r ∷ []) r.target

abbrev pub IsReplayable : Machine → Type 0
IsReplayable m = Trace Phase.idle m.history m.phase

pub new-IsReplayable : IsReplayable new
new-IsReplayable = here

-- The history of a machine whose history is a walk from the idle phase stays one under every
-- call of `transition`, accepted or refused.
pub transition-IsReplayable :
    (now : Float) (target : Phase) (note : Note) (m : Machine)
    → IsReplayable m
    → IsReplayable (transition now target note m).1
unfolding transition
transition-IsReplayable now target note m h = elim (Bool-cases (can_transition m target)) [
  | inl e ↦ rw e (step _ h refl ((can_transition-Edge m target).0 e))
  | inr e ↦ rw e h
]

pub transition-allowed :
    (now : Float) (target : Phase) (note : Note) (m : Machine)
    → can_transition m target ≡ true
    → transition now target note m ≡ (
      ok (record { source = m.phase; target = target; note = note; timestamp = now }),
      record {
        phase = target;
        history =
            m.history
            ++ record { source = m.phase; target = target; note = note; timestamp = now } ∷ [];
      },
    )
unfolding transition
transition-allowed now target note m e = rw e
