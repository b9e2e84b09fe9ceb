-- ===== src/Search/Returns.antt =====
-- A run always returns: no fault of a policy escapes it, and it stops within its iterations.
use cognitive_tree_ai.Prelude.{
  ℕ, ◌≤◌, ◌≡◌, ◌≢◌, ◌∙◌, ◌⊎◌, ◌↔◌, inl, inr, refl, sym, ap, subst, Text, Float, true, Option, none,
  some, arith,
}
use cognitive_tree_ai.Phases.{Phase, Outcome, contains, terminal_phases}
use cognitive_tree_ai.Faults.{Note, Fault, Result, ok, raise}
use cognitive_tree_ai.State.{is_terminal}
use cognitive_tree_ai.State.Graph.{Edge, Forced}
use cognitive_tree_ai.Config.{SearchConfig}
use cognitive_tree_ai.Policies.{Policies}
use cognitive_tree_ai.Exec.{Run, Exec, pure, ◌>>=◌, bind_rule}
use cognitive_tree_ai.Exec.Keeps.{Quiet, SameControl-refl}
use cognitive_tree_ai.Search.{
  SearchResult, loop, rescue, guarded, close_if, close, report, run_from, run, start, deadline_of,
  deadline_from, outcome_by_phase,
}
use cognitive_tree_ai.Search.Phasing.{
  At, At-quiet, Stops, SinkReturns, advance_rule, advance-allowed,
}
use cognitive_tree_ai.Search.Total.{Ends, loop-Ends}

-- The state behind `try`, by the fault that it caught.
abbrev Caught : {W : Type 0} → Option Fault → Run W → Type 0
Caught none t = (t.machine.phase ≡ Phase.selection) ⊎ Stops t.machine.phase
Caught (some e) t = t.machine.phase ≡ Phase.failed

-- The state at the end of a run.
abbrev Closed : {W : Type 0} → Option Fault → Run W → Type 0
Closed none t = Stops t.machine.phase
Closed (some e) t = t.machine.phase ≡ Phase.failed

abbrev Guarded : {W : Type 0} → ℕ → Result (Option Fault) × Run W → Type 0
Guarded bound (ok o, t) = Caught o t × (t.iteration ≤ bound)
Guarded bound (raise e, t) = ⊥

abbrev ClosedAs : {W : Type 0} → Option Fault → ℕ → Result (Unit {0}) × Run W → Type 0
ClosedAs o bound (ok _, t) = Closed o t × (t.iteration ≤ bound)
ClosedAs o bound (raise e, t) = ⊥

-- What a run returns: a result whose outcome is a failure exactly if it carries a fault.
abbrev pub Returns : {W : Type 0} → ℕ → Result SearchResult × Run W → Type 0
Returns bound (ok r, t) = (r.iterations ≤ bound) × ((r.outcome ≡ Outcome.failed) ↔ (r.error ≢ none))
Returns bound (raise e, t) = ⊥

Stops-terminal : {q : Phase} → Stops q → contains terminal_phases q ≡ true
unfolding contains
Stops-terminal Stops.succeeded = refl
Stops-terminal _ = refl

Stops-outcome :
    {q : Phase} → Stops q → (o : Outcome) × (outcome_by_phase q ≡ ok o) × (o ≢ Outcome.failed)
unfolding outcome_by_phase
Stops-outcome Stops.succeeded = (Outcome.succeeded, refl, λ e. cc)
Stops-outcome Stops.exhausted = (Outcome.exhausted, refl, λ e. cc)
Stops-outcome Stops.timed_out = (Outcome.timed_out, refl, λ e. cc)
Stops-outcome Stops.budget_exhausted = (Outcome.budget_exhausted, refl, λ e. cc)
Stops-outcome Stops.cancelled = (Outcome.cancelled, refl, λ e. cc)

outcome-failed : outcome_by_phase Phase.failed ≡ ok Outcome.failed
unfolding outcome_by_phase
outcome-failed = refl

module _ {W : Type 0} (p : Policies W) (silent : SinkReturns p.on_event) where
  rescue-Guarded :
      (bound : ℕ) (r : Result (Unit {0})) (t : Run W)
      → Ends bound (r, t)
      → Guarded bound (rescue p r t)
  unfolding rescue pure
  rescue-Guarded bound (ok u) t h = h
  rescue-Guarded bound (raise e) t (w, c) =
      advance_rule p silent (Guarded bound) Phase.failed _ _ _ t
        (record { phase = refl; count = refl }) (Edge.force w Forced.failed)
        λ u b. (b.phase, omega (arith, b.count, c))

  close-idle :
      (o : Option Fault) (bound : ℕ) (t : Run W)
      → contains terminal_phases t.machine.phase ≡ true
      → Closed o t × (t.iteration ≤ bound)
      → ClosedAs o bound (close p t)
  unfolding close close_if is_terminal pure
  close-idle o bound t e h = subst (λ b. ClosedAs o bound (close_if p b t)) (sym e) h

  ClosedAs-of :
      (bound : ℕ) (x : Result (Unit {0}) × Run W)
      → x.0 ≡ ok tt
      → x.1.machine.phase ≡ Phase.exhausted
      → x.1.iteration ≤ bound
      → ClosedAs none bound x
  ClosedAs-of bound (ok _, t) e q le = (subst Stops (sym q) Stops.exhausted, le)
  ClosedAs-of bound (raise x, t) e q le = cc

  -- A loop that ends in the selection phase has spent its iterations.
  close-selection :
      (bound : ℕ) (t : Run W)
      → t.machine.phase ≡ Phase.selection
      → t.iteration ≤ bound
      → ClosedAs none bound (close p t)
  unfolding close close_if is_terminal contains
  close-selection bound t sel le =
      let (done, a) =
        advance-allowed p silent Phase.exhausted none Note.iterations_spent t
          (subst (λ q. Edge q Phase.exhausted) (sym sel) Edge.empty) in
      subst (λ b. ClosedAs none bound (close_if p b t)) (sym (ap (contains terminal_phases) sel))
        (ClosedAs-of bound _ done (a.phase) (omega (arith, a.iteration)))

  close-ClosedAs :
      (o : Option Fault) (bound : ℕ) (t : Run W)
      → Caught o t
      → t.iteration ≤ bound
      → ClosedAs o bound (close p t)
  unfolding contains
  close-ClosedAs (some e) bound t h le =
      close-idle (some e) bound t (subst (λ q. contains terminal_phases q ≡ true) (sym h) refl)
        (h, le)
  close-ClosedAs none bound t (inr stops) le =
      close-idle none bound t (Stops-terminal stops) (stops, le)
  close-ClosedAs none bound t (inl sel) le = close-selection bound t sel le

  outcome-report :
      (o : Option Fault) (bound : ℕ) (t : Run W)
      → Closed o t
      → t.iteration ≤ bound
      → Returns bound (report p o t)
  unfolding report
  outcome-report none bound t h le =
      let (outcome, e, other) = Stops-outcome h in
      rw (e, report) (le, (λ q. absurd (other q), λ q. absurd (q refl)))
  outcome-report (some x) bound t h le =
      rw (ap outcome_by_phase h ∙ outcome-failed, report) (le, (λ q e. cc, λ q. refl))

  Caught_rule :
      (bound : ℕ) (o : Option Fault) (t : Run W)
      → Guarded bound (ok o, t)
      → Returns bound ((close p >>= λ _. report p o) t)
  Caught_rule bound o t (caught, le) =
      let closed = close-ClosedAs o bound t caught le in
      bind_rule (Returns bound) (close p) (λ _. report p o) t
        (λ u e.
          let (c, b) = subst (λ r. ClosedAs o bound (r, (close p t).1)) e closed in
          outcome-report o bound _ c b)
        (λ x e. absurd (subst (λ r. ClosedAs o bound (r, (close p t).1)) e closed))

  deadline_from-Quiet : (cfg : SearchConfig) (o : Option Float) → Quiet (deadline_from p cfg o)
  unfolding deadline_from
  deadline_from-Quiet cfg none = record { at = SameControl-refl }
  deadline_from-Quiet cfg (some x) = record {
    at = λ s. record { machine = refl; iteration = refl };
  }

  guarded-Returns :
      (bound : ℕ) (body : Exec W (Unit {0})) (s : Run W)
      → Ends bound (body s)
      → Returns bound ((guarded p body >>= λ error. close p >>= λ _. report p error) s)
  guarded-Returns bound body s h =
      let g : Guarded bound (guarded p body s) = unfold guarded in rescue-Guarded bound _ _ h in
      bind_rule (Returns bound) (guarded p body) _ s
        (λ o e. Caught_rule bound o _ (subst (λ r. Guarded bound (r, (guarded p body s).1)) e g))
        (λ x e. absurd (subst (λ r. Guarded bound (r, (guarded p body s).1)) e g))

  deadline_from-returns :
      (cfg : SearchConfig) (o : Option Float) (s : Run W) (e : Fault)
      → (deadline_from p cfg o s).0 ≢ raise e
  unfolding deadline_from
  deadline_from-returns cfg none s e h = cc
  deadline_from-returns cfg (some x) s e h = cc

  from_selection :
      (cfg : SearchConfig) (deadline : Option Float) (l : Float) (u : Run W)
      → At Phase.selection 0 u
      → Ends cfg.max_iterations (loop p cfg cfg.max_iterations deadline l u)
  from_selection cfg deadline l u c =
      subst (λ k. Ends k (loop p cfg cfg.max_iterations deadline l u)) (omega arith)
        (loop-Ends p silent cfg deadline l cfg.max_iterations 0 u c)

  run_from-Returns :
      (cfg : SearchConfig) (s : Run W)
      → At Phase.idle 0 s
      → Returns cfg.max_iterations (run_from p cfg s)
  unfolding run_from deadline_of
  run_from-Returns cfg s a =
      let n = cfg.max_iterations in
      bind_rule (Returns n) (deadline_from p cfg cfg.max_wall_seconds) _ s
        (λ deadline e.
          advance_rule p silent (Returns n) Phase.selection _ _ _ _
            (At-quiet a ((deadline_from-Quiet cfg cfg.max_wall_seconds).at s)) Edge.start
            λ u c. guarded-Returns n _ u (from_selection cfg deadline _ u c))
        (λ e raised. absurd (deadline_from-returns cfg cfg.max_wall_seconds s e raised))

-- With an event sink that raises nothing, `run` always returns a result, whatever the policies
-- answer or raise: no fault escapes it. It counts at most `max_iterations` iterations, and its
-- outcome is FAILED exactly if it reports a fault.
pub run-Returns :
    {W : Type 0} (p : Policies W) (cfg : SearchConfig) (task : Text) (w : W)
    → SinkReturns p.on_event
    → Returns cfg.max_iterations (run p cfg task w)
unfolding run start
run-Returns p cfg task w silent =
    run_from-Returns p silent cfg _ (record { phase = refl; count = refl })
