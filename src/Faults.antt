-- ===== src/Faults.antt =====
-- What Python raises, the texts that the controller records with a transition, and results.
-- A text that the program formats is the constructor of its template with the values put in.
use cognitive_tree_ai.Prelude.{ℕ, Float, Text, ◌≡◌, refl, ◌⊎◌, inl, inr}
use cognitive_tree_ai.Phases.{Phase}

-- `sandbox_error` is a SandboxError, or the DockerUnavailableError that is one; `raised` is another
-- exception of a policy or a sink; `no_fuel` is no exception of the program, it
-- marks a loop of the model that ran out of rounds.
pub data Fault : Type 0 where
  invalid_transition : Phase → Phase → Fault
  key_error : Fault
  value_error : Fault
  raised : Text → Fault
  sandbox_error : Text → Fault
  no_fuel : Fault

pub data Note : Type 0 where
  blank search_started run_cancelled frontier_empty reopened notes_prepared no_candidates : Note
  backtracked iteration_complete iterations_spent : Note
  wall_clock_spent : Float → Note
  reason : Text → Note
  candidates : ℕ → Note
  accepted : Float → Note
  fault : Fault → Note

pub data Result {ℓ} (A : Type ℓ) : Type ℓ where
  ok : A → Result A
  raise : Fault → Result A

pub fault_of : {A : Type 0} {e x : Fault} → ◌≡◌ {A = Result A} (raise e) (raise x) → e ≡ x
fault_of q = cc

pub Result-cases :
    {A : Type 0} (r : Result A) → ((a : A) × (r ≡ ok a)) ⊎ ((e : Fault) × (r ≡ raise e))
Result-cases (ok a) = inl (a, refl)
Result-cases (raise e) = inr (e, refl)
