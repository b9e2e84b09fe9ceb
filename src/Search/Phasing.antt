-- ===== src/Search/Phasing.antt =====
-- The phases that a run goes through: a transition that the table allows succeeds, and each
-- statement of the loop starts and ends in the phase that the next one needs.
use cognitive_tree_ai.Prelude.{
  ℕ, ◌≡◌, ◌∙◌, inl, inr, refl, sym, ap, subst, Text, true, Option, none, some, Option-cases,
}
use cognitive_tree_ai.Phases.{Phase}
use cognitive_tree_ai.Faults.{Note, Fault, Result, ok, raise}
use cognitive_tree_ai.State.{can_transition}
use cognitive_tree_ai.State.Trace.{transition-allowed}
use cognitive_tree_ai.State.Graph.{Edge, InProgress, can_transition-Edge}
use cognitive_tree_ai.Node.{Ref}
use cognitive_tree_ai.Tree.{Tree}
use cognitive_tree_ai.Policies.{Policies, SearchEvent}
use cognitive_tree_ai.Exec.{Run, Exec, policy_call, ◌>>=◌, bind_rule}
use cognitive_tree_ai.Exec.Keeps.{Quiet, SameControl}
use cognitive_tree_ai.Search.{notify, move, advance, advance_node}

-- The phases in which the loop itself ends a run.
pub data Stops : Phase → Type 0 where
  succeeded : Stops Phase.succeeded
  exhausted : Stops Phase.exhausted
  timed_out : Stops Phase.timed_out
  budget_exhausted : Stops Phase.budget_exhausted
  cancelled : Stops Phase.cancelled

-- The machine is in phase `q`, and `n` iterations are counted.
pub record At {W : Type 0} (q : Phase) (n : ℕ) (s : Run W) : Type 0 where
  pub phase : s.machine.phase ≡ q
  pub count : s.iteration ≡ n

-- The event sink raises nothing.
abbrev pub SinkReturns :
    {W : Type 0} → Option (SearchEvent → Tree → W → Result (Unit {0}) × W) → Type 0
SinkReturns none = Unit
SinkReturns {W} (some sink) = (e : SearchEvent) (t : Tree) (w : W) → (sink e t w).0 ≡ ok tt

module _ {W : Type 0} {q : Phase} {n : ℕ} where
  pub At-quiet : {s t : Run W} → At q n s → SameControl s t → At q n t
  At-quiet a c = record {
    phase = ap (λ x. x.phase) c.machine ∙ a.phase;
    count = c.iteration ∙ a.count;
  }

  -- A fault in a phase in progress leaves the machine there.
  pub At-working :
      {s : Run W} → At q n s → InProgress q → InProgress s.machine.phase × (s.iteration ≡ n)
  At-working a w = (subst InProgress (sym a.phase) w, a.count)

  pub At-stopped : {s : Run W} → At q n s → Stops q → Stops s.machine.phase × (s.iteration ≡ n)
  At-stopped a h = (subst Stops (sym a.phase) h, a.count)

  -- A statement that leaves the control state alone leaves the phase and the count to the rest.
  pub quiet_rule :
      {A B : Type 0} (Q : Result B × Run W → Type 0) (m : Exec W A) (f : A → Exec W B) (s : Run W)
      → At q n s
      → Quiet m
      → ((a : A) (t : Run W) → At q n t → Q (f a t))
      → ((e : Fault) (t : Run W) → At q n t → Q (raise e, t))
      → Q ((m >>= f) s)
  quiet_rule Q m f s a k good bad =
      bind_rule Q m f s (λ x e. good x (m s).1 (At-quiet a (k.at s)))
        (λ x e. bad x (m s).1 (At-quiet a (k.at s)))

module _ {W : Type 0} (p : Policies W) where
  -- What an accepted `_advance` leaves.
  pub record Advanced (target : Phase) (s t : Run W) : Type 0 where
    pub phase : t.machine.phase ≡ target
    pub iteration : t.iteration ≡ s.iteration
    pub tree : t.tree ≡ s.tree

  move-allowed :
      (target : Phase) (d : Note) (s : Run W)
      → can_transition s.machine target ≡ true
      → ((move p target d s).0 ≡ ok tt) × Advanced target s (move p target d s).1
  unfolding move
  move-allowed target d s e =
      let accepted = transition-allowed (p.monotonic s.world).0 target d s.machine e in
      rw (accepted, move)
        (refl, record { phase = ap (λ x. x.1.phase) accepted; iteration = refl; tree = refl })

  module _ (silent : SinkReturns p.on_event) where
    notify-silent :
        (event : SearchEvent) (s : Run W)
        → ((notify p event s).0 ≡ ok tt)
          × ((notify p event s).1.machine ≡ s.machine)
          × ((notify p event s).1.iteration ≡ s.iteration)
          × ((notify p event s).1.tree ≡ s.tree)
    unfolding notify policy_call
    notify-silent event s = elim (Option-cases p.on_event) [
      | inl e ↦ rw e (refl, refl, refl, refl)
      | inr (sink, e) ↦ rw e (subst SinkReturns e silent event s.tree s.world, refl, refl, refl)
    ]

    pub advance-allowed :
        (target : Phase) (id : Option Text) (d : Note) (s : Run W)
        → Edge s.machine.phase target
        → ((advance p target id d s).0 ≡ ok tt) × Advanced target s (advance p target id d s).1
    unfolding advance
    advance-allowed target id d s edge =
        let (moved, a) = move-allowed target d s ((can_transition-Edge s.machine target).1 edge) in
        bind_rule (λ x. (x.0 ≡ ok tt) × Advanced target s x.1) (move p target d) _ s
          (λ _ _.
            let event : SearchEvent = record {
              iteration = s.iteration;
              phase = target;
              node_id = id;
              detail = d;
            } in
            let (done, m, i, t) = notify-silent event (move p target d s).1 in
            (
              done,
              record {
                phase = ap (λ x. x.phase) m ∙ a.phase;
                iteration = i ∙ a.iteration;
                tree = t ∙ a.tree;
              },
            ))
          (λ x e. cc)

    -- To prove something of what begins with an allowed `_advance`, prove it of the rest in the new
    -- phase.
    pub advance_rule :
        {B : Type 0} {q : Phase} {n : ℕ} (Q : Result B × Run W → Type 0) (target : Phase)
        (id : Option Text) (d : Note) (f : Unit {0} → Exec W B) (s : Run W)
        → At q n s
        → Edge q target
        → ((t : Run W) → At target n t → Q (f tt t))
        → Q ((advance p target id d >>= f) s)
    advance_rule Q target id d f s here edge rest =
        let (done, a) =
          advance-allowed target id d s (subst (λ x. Edge x target) (sym here.phase) edge) in
        bind_rule Q (advance p target id d) f s
          (λ _ _.
            rest (advance p target id d s).1
              (record { phase = a.phase; count = a.iteration ∙ here.count }))
          (λ e raised. cc)

    pub advance_node_rule :
        {B : Type 0} {q : Phase} {n : ℕ} (Q : Result B × Run W → Type 0) (target : Phase) (r : Ref)
        (d : Note) (f : Unit {0} → Exec W B) (s : Run W)
        → At q n s
        → Edge q target
        → ((t : Run W) → At target n t → Q (f tt t))
        → Q ((advance_node p target r d >>= f) s)
    unfolding advance_node ◌>>=◌
    advance_node_rule Q target r d f s here edge rest =
        advance_rule Q target (some (s.tree.cell r).id) d f s here edge rest
