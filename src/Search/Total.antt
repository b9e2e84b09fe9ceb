-- ===== src/Search/Total.antt =====
-- A run always returns: no fault of a policy escapes it, and it stops within its iterations.
use cognitive_tree_ai.Prelude.{
  ℕ, zero, suc, ◌+◌, ◌≤◌, ◌≡◌, ◌⊎◌, inl, inr, refl, subst, Text, Float, Bool, true, false, Option,
  none, some, [], ◌∷◌, arith, Option-cases,
}
use cognitive_tree_ai.Phases.{Phase}
use cognitive_tree_ai.Faults.{Note, Result, ok, raise}
use cognitive_tree_ai.State.Graph.{Edge, InProgress, Forced}
use cognitive_tree_ai.Config.{SearchConfig}
use cognitive_tree_ai.Policies.{Policies}
use cognitive_tree_ai.Exec.{Run, pure, ◌>>=◌, bind_rule}
use cognitive_tree_ai.Exec.Keeps.{
  Quiet, SameControl-refl, Quiet-pure, Quiet-world_call, Quiet-policy_call,
}
use cognitive_tree_ai.Search.{
  iteration, boundary, loop, halt, on_reason, on_late, on_cancelled, attempt, proceed, is_cancelled,
  is_late, stop_reason, limit,
}
use cognitive_tree_ai.Search.Phasing.{
  At, Stops, At-working, At-stopped, SinkReturns, quiet_rule, advance_rule,
}
use cognitive_tree_ai.Search.Iterations.{Lands, iteration-Lands}

-- How the loop may end, with at most `bound` iterations counted.
abbrev pub Ends : {W : Type 0} → ℕ → Result (Unit {0}) × Run W → Type 0
Ends bound (ok _, t) =
    ((t.machine.phase ≡ Phase.selection) ⊎ Stops t.machine.phase) × (t.iteration ≤ bound)
Ends bound (raise e, t) = InProgress t.machine.phase × (t.iteration ≤ bound)

module _ {W : Type 0} (p : Policies W) (silent : SinkReturns p.on_event) where
  is_cancelled-Quiet : Quiet (is_cancelled p)
  unfolding is_cancelled
  is_cancelled-Quiet = elim (Option-cases p.cancelled) [
    | inl e ↦ rw e (Quiet-pure false)
    | inr (f, e) ↦ rw e (Quiet-world_call f)
  ]

  stop_reason-Quiet : Quiet (stop_reason p)
  unfolding stop_reason
  stop_reason-Quiet = elim (Option-cases p.check) [
    | inl e ↦ rw e (Quiet-pure none)
    | inr (f, e) ↦ rw e (Quiet-policy_call f)
  ]

  is_late-Quiet : (deadline : Option Float) → Quiet (is_late p deadline)
  unfolding is_late
  is_late-Quiet none = record { at = SameControl-refl }
  is_late-Quiet (some d) = record { at = λ s. record { machine = refl; iteration = refl } }

  halt-Lands :
      (target : Phase) (d : Note) (n : ℕ) (s : Run W)
      → At Phase.selection n s
      → Edge Phase.selection target
      → Stops target
      → Lands n (halt p target d s)
  unfolding halt pure
  halt-Lands target d n s a edge stops =
      advance_rule p silent (Lands n) target _ _ _ s a edge λ t b. At-stopped b stops

  on_reason-Lands :
      (reason : Option Text) (n : ℕ) (s : Run W)
      → At Phase.selection n s
      → Lands n (on_reason p reason s)
  unfolding on_reason pure
  on_reason-Lands none n s a = (a.phase, a.count)
  on_reason-Lands (some []) n s a = (a.phase, a.count)
  on_reason-Lands (some (c ∷ text)) n s a =
      halt-Lands Phase.budget_exhausted _ n s a
        (Edge.force InProgress.selection Forced.budget_exhausted) Stops.budget_exhausted

  on_late-Lands :
      (limit : Float) (late : Bool) (n : ℕ) (s : Run W)
      → At Phase.selection n s
      → Lands n (on_late p limit late s)
  unfolding on_late
  on_late-Lands limit true n s a =
      halt-Lands Phase.timed_out _ n s a (Edge.force InProgress.selection Forced.timed_out)
        Stops.timed_out
  on_late-Lands limit false n s a =
      quiet_rule (Lands n) (stop_reason p) (on_reason p) s a stop_reason-Quiet
        (λ reason t b. on_reason-Lands reason n t b) (λ e t b. At-working b InProgress.selection)

  on_cancelled-Lands :
      (deadline : Option Float) (limit : Float) (c : Bool) (n : ℕ) (s : Run W)
      → At Phase.selection n s
      → Lands n (on_cancelled p deadline limit c s)
  unfolding on_cancelled
  on_cancelled-Lands deadline limit true n s a =
      halt-Lands Phase.cancelled _ n s a (Edge.force InProgress.selection Forced.cancelled)
        Stops.cancelled
  on_cancelled-Lands deadline limit false n s a =
      quiet_rule (Lands n) (is_late p deadline) (on_late p limit) s a (is_late-Quiet deadline)
        (λ late t b. on_late-Lands limit late n t b) (λ e t b. At-working b InProgress.selection)

  boundary-Lands :
      (deadline : Option Float) (limit : Float) (n : ℕ) (s : Run W)
      → At Phase.selection n s
      → Lands n (boundary p deadline limit s)
  unfolding boundary
  boundary-Lands deadline limit n s a =
      quiet_rule (Lands n) (is_cancelled p) (on_cancelled p deadline limit) s a is_cancelled-Quiet
        (λ c t b. on_cancelled-Lands deadline limit c n t b)
        (λ e t b. At-working b InProgress.selection)

  -- What an ending says of the state, by the result that it comes with.
  abbrev LandsAs : ℕ → Result Bool → Run W → Type 0
  LandsAs n r t = Lands n (r, t)

  Lands-as :
      (n : ℕ) (x : Result Bool × Run W) (r : Result Bool) → Lands n x → x.0 ≡ r → LandsAs n r x.1
  Lands-as n (r, t) r' h e = subst (λ y. Lands n (y, t)) e h

  module _ (cfg : SearchConfig) (deadline : Option Float) (limit : Float) where
    proceed-Ends :
        (again : Bool) (k n : ℕ) (s : Run W)
        → LandsAs n (ok again) s
        → (At Phase.selection n s → Ends (n + k) (loop p cfg k deadline limit s))
        → Ends (n + k) (proceed p cfg (loop p cfg k deadline limit) again s)
    unfolding proceed pure
    proceed-Ends true k n s h rest = rest (record { phase = h.0; count = h.1 })
    proceed-Ends false k n s h rest = (inr h.0, omega (arith, h.1))

    attempt-Ends :
        (go : Bool) (k n : ℕ) (s : Run W)
        → LandsAs n (ok go) s
        → ((t : Run W)
            → At Phase.selection (n + 1) t
            → Ends (n + 1 + k) (loop p cfg k deadline limit t))
        → Ends (n + suc k) ((attempt p cfg go >>= proceed p cfg (loop p cfg k deadline limit)) s)
    unfolding attempt
    attempt-Ends true k n s h rest =
        let landed = iteration-Lands p silent cfg n s (record { phase = h.0; count = h.1 }) in
        subst (λ b. Ends b ((iteration p cfg >>= proceed p cfg (loop p cfg k deadline limit)) s))
          (omega arith)
          (bind_rule (Ends (n + 1 + k)) (iteration p cfg) _ s
            (λ again e.
              proceed-Ends again k (n + 1) _ (Lands-as (n + 1) _ (ok again) landed e) (rest _))
            (λ x e. let (w, c) = Lands-as (n + 1) _ (raise x) landed e in (w, omega (arith, c))))
    attempt-Ends false k n s h rest = unfold pure proceed ◌>>=◌ in (inr h.0, omega (arith, h.1))

    pub loop-Ends :
        (k n : ℕ) (s : Run W)
        → At Phase.selection n s
        → Ends (n + k) (loop p cfg k deadline limit s)
    unfolding loop
    loop-Ends zero n s a = (inl a.phase, omega (arith, a.count))
    loop-Ends (suc k) n s a =
        let landed = boundary-Lands deadline limit n s a in
        bind_rule (Ends (n + suc k)) (boundary p deadline limit) _ s
          (λ go e.
            attempt-Ends go k n _ (Lands-as n _ (ok go) landed e) (λ t b. loop-Ends k (n + 1) t b))
          (λ x e. let (w, c) = Lands-as n _ (raise x) landed e in (w, omega (arith, c)))
