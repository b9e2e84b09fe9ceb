-- ===== src/Search/Parts.antt =====
-- `_advance` and `_expand` keep the invariant of a run.
use cognitive_tree_ai.Prelude.{
  ℕ, ◌≡◌, refl, sym, subst, Text, Float, Option, some, List, Option-cases, Bool-cases, inl, inr,
}
use cognitive_tree_ai.Phases.{Phase}
use cognitive_tree_ai.Faults.{Note, Fault, Result, ok, raise, fault_of, Result-cases}
use cognitive_tree_ai.State.{Machine, can_transition, transition}
use cognitive_tree_ai.State.Trace.{IsReplayable, transition-IsReplayable}
use cognitive_tree_ai.Node.{Ref}
use cognitive_tree_ai.Tree.Updates.{SameShape-refl}
use cognitive_tree_ai.Config.{SearchConfig}
use cognitive_tree_ai.Policies.{Policies, SearchEvent}
use cognitive_tree_ai.Exec.{Run, policy_call, ◌>>=◌}
use cognitive_tree_ai.Expansion.{expand}
use cognitive_tree_ai.Expansion.Control.{expand-Quiet, expand-Raising}
use cognitive_tree_ai.Expansion.Unique.{Grows, expand-Grows}
use cognitive_tree_ai.Search.{notify, move, advance, advance_node}
use cognitive_tree_ai.Search.Invariant.{Known, SinkFaults, Holds, Holds-same, Sound, Sound-bind}

module _ {W : Type 0} (p : Policies W) (E : Fault → Type 0) (known : Known E p) (r : Ref) where
  transition-faults :
      (now : Float) (target : Phase) (d : Note) (m : Machine) (e : Fault)
      → (transition now target d m).0 ≡ raise e
      → E e
  unfolding transition
  transition-faults now target d m e q = elim (Bool-cases (can_transition m target)) [
    | inl legal ↦ absurd (cc (rw legal at q))
    | inr illegal ↦ subst E (fault_of (rw illegal at q)) (known.invalid_transition m.phase target)
  ]

  notify-Sound : (x : SearchEvent) → Sound E r (notify p x)
  unfolding notify policy_call
  notify-Sound x = record {
    at = λ s h. elim (Option-cases p.on_event) [
      | inl e ↦ rw e h
      | inr (sink, e) ↦ rw e (Holds-same (SameShape-refl s.tree) refl h)
    ];
    faults = λ s h e q. elim (Option-cases p.on_event) [
      | inl o ↦ absurd (cc (rw o at q))
      | inr (sink, o) ↦ subst (SinkFaults E) o known.on_event x s.tree s.world e (rw o at q)
    ];
  }

  move-Sound : (target : Phase) (d : Note) → Sound E r (move p target d)
  unfolding move
  move-Sound target d = record {
    at = λ s h.
        let now = (p.monotonic s.world).0 in
        elim (Result-cases (transition now target d s.machine).0) [
          | inr (e, q) ↦ rw (q, move) h
          | inl (a, q) ↦
              rw (q, move)
                (record {
                  fits = h.fits;
                  inside = h.inside;
                  siblings = h.siblings;
                  replay = transition-IsReplayable now target d s.machine h.replay;
                })
        ];
    faults = λ s h e q.
        let now = (p.monotonic s.world).0 in
        elim (Result-cases (transition now target d s.machine).0) [
          | inr (x, o) ↦
              subst E (fault_of (rw (o, move) at q)) (transition-faults now target d s.machine x o)
          | inl (a, o) ↦ absurd (cc (rw (o, move) at q))
        ];
  }

  pub advance-Sound :
      (target : Phase) (id : Option Text) (d : Note) → Sound E r (advance p target id d)
  unfolding advance
  advance-Sound target id d = record { at = λ s. (both s).at s; faults = λ s. (both s).faults s }
    where
      both :
          (s : Run W)
          → Sound E r (
              move p target d >>= λ _.
              notify p
                (record { iteration = s.iteration; phase = target; node_id = id; detail = d }))
      both s = Sound-bind E r _ _ (move-Sound target d) λ _. notify-Sound _

  pub advance_node-Sound :
      (target : Phase) (c : Ref) (d : Note) → Sound E r (advance_node p target c d)
  unfolding advance_node
  advance_node-Sound target c d = record {
    at = λ s. (advance-Sound target (some (s.tree.cell c).id) d).at s;
    faults = λ s. (advance-Sound target (some (s.tree.cell c).id) d).faults s;
  }

  Grown-Holds :
      (n : ℕ) {s : Run W} (x : Result (List Ref) × Run W)
      → Holds r s
      → IsReplayable x.1.machine
      → Grows n s.tree r x
      → Holds r x.1
  Grown-Holds n (ok cs, u) h replay g = record {
    fits = g.0;
    inside = g.1;
    siblings = g.2;
    replay = replay;
  }
  Grown-Holds n (raise e, u) h replay g = record {
    fits = g.0;
    inside = g.1;
    siblings = g.2;
    replay = replay;
  }

  pub expand-Sound : (cfg : SearchConfig) → Sound E r (expand p cfg r)
  expand-Sound cfg = record {
    at = λ s h.
        Grown-Holds cfg.branching_factor (expand p cfg r s) h
          (subst IsReplayable (sym ((expand-Quiet p cfg r).at s).machine) h.replay)
          (expand-Grows p cfg r s h.fits h.inside h.siblings);
    faults = λ s h.
        (expand-Raising p cfg E known.evaluators.key_error r (λ t k. known.generate t r k)).faults
          s;
  }
