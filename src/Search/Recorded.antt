-- ===== src/Search/Recorded.antt =====
-- The history and the tree in the result of `run` (cognitivetree/search.py).
use cognitive_tree_ai.Prelude.{◌≡◌, refl, subst, Text, Bool, Option, none, some, inl, inr}
use cognitive_tree_ai.Faults.{Fault, Result, Result-cases, ok, raise}
use cognitive_tree_ai.Node.{Ref, Metadata}
use cognitive_tree_ai.Tree.{Tree}
use cognitive_tree_ai.Tree.WellFormed.{IsWellFormed}
use cognitive_tree_ai.Config.{SearchConfig}
use cognitive_tree_ai.Policies.{Policies, SearchEvent}
use cognitive_tree_ai.Exec.{Run, Exec, ◌>>=◌, bind_rule}
use cognitive_tree_ai.Selection.Termination.{Raises}
use cognitive_tree_ai.Evaluation.Control.{any_Evaluators}
use cognitive_tree_ai.Search.{SearchResult, outcome_by_phase, report, run_from, run, start}
use cognitive_tree_ai.Search.Invariant.{CheckFaults, SinkFaults}
use cognitive_tree_ai.Search.Sound.{Sane, run-Sane}

-- The history in a result is that of the machine.
abbrev pub Recorded : {W : Type 0} → Result SearchResult × Run W → Type 0
Recorded (ok r, s) = r.phase_history ≡ s.machine.history
Recorded (raise e, s) = Unit

module _ {W : Type 0} (p : Policies W) where
  pub any_revise :
      (o : Option (Tree → Ref → W → Result Bool × Metadata × W)) → Raises (λ e. Unit {0}) o
  any_revise none = tt
  any_revise (some f) = λ t r w e q. tt

  any_check : (o : Option (W → Result (Option Text) × W)) → CheckFaults (λ e. Unit {0}) o
  any_check none = tt
  any_check (some f) = λ w e q. tt

  any_sink :
      (o : Option (SearchEvent → Tree → W → Result (Unit {0}) × W)) → SinkFaults (λ e. Unit {0}) o
  any_sink none = tt
  any_sink (some f) = λ x t w e q. tt

  -- Whatever the policies raise, the tree of the result is well-formed.
  pub run-IsWellFormed :
      (cfg : SearchConfig) (task : Text) (w : W) (r : SearchResult)
      → (run p cfg task w).0 ≡ ok r
      → IsWellFormed r.tree
  run-IsWellFormed cfg task w r e =
      (subst (λ x. Sane (λ e. Unit {0}) (x, (run p cfg task w).1)) e
        (run-Sane p cfg (λ e. Unit {0}) task w
          (record {
            generate = λ t r k w e q. tt;
            evaluators = any_Evaluators p;
            revise = any_revise p.revise;
            check = any_check p.check;
            on_event = any_sink p.on_event;
            invalid_transition = λ a b. tt;
          }))).0

  report-Recorded : (o : Option Fault) (s : Run W) → Recorded (report p o s)
  unfolding report
  report-Recorded o s = elim (Result-cases (outcome_by_phase s.machine.phase)) [
    | inl (outcome, e) ↦ rw (e, report) refl
    | inr (x, e) ↦ rw (e, report) tt
  ]

  then_Recorded :
      {A : Type 0} (m : Exec W A) (f : A → Exec W SearchResult) (s : Run W)
      → ((a : A) (t : Run W) → Recorded (f a t))
      → Recorded ((m >>= f) s)
  then_Recorded m f s h = bind_rule Recorded m f s (λ a e. h a (m s).1) (λ e q. tt)

  pub run-Recorded : (cfg : SearchConfig) (task : Text) (w : W) → Recorded (run p cfg task w)
  unfolding run run_from
  run-Recorded cfg task w = then_Recorded _ _ (start p cfg task w) λ deadline t.
      then_Recorded _ _ t
        λ _ u. then_Recorded _ _ u λ error v. then_Recorded _ _ v λ _ x. report-Recorded error x
