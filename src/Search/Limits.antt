-- ===== src/Search/Limits.antt =====
-- The checks before an iteration keep the invariant of a run.
use cognitive_tree_ai.Prelude.{
  refl, subst, Text, Float, Bool, true, false, Option, none, some, [], ◌∷◌, Option-cases, inl, inr,
}
use cognitive_tree_ai.Phases.{Phase}
use cognitive_tree_ai.Faults.{Note, Fault}
use cognitive_tree_ai.Tree.Updates.{SameShape-refl}
use cognitive_tree_ai.Policies.{Policies}
use cognitive_tree_ai.Exec.Calm.{Calm-policy_call}
use cognitive_tree_ai.Search.Invariant.{
  Known, CheckFaults, Holds-same, Sound, Sound-bind, Sound-Calm, Sound-pure,
}
use cognitive_tree_ai.Search.Parts.{advance-Sound}
use cognitive_tree_ai.Exec.Calm.{Calm-world_call}
use cognitive_tree_ai.Search.{
  is_cancelled, is_late, stop_reason, halt, on_reason, on_late, on_cancelled, boundary, limit,
}

module _ {W : Type 0} (p : Policies W) (E : Fault → Type 0) (known : Known E p) where
  halt-Sound : (target : Phase) (d : Note) → Sound E 0 (halt p target d)
  unfolding halt
  halt-Sound target d =
      Sound-bind E 0 _ _ (advance-Sound p E known 0 target none d) λ _. Sound-pure E 0 false

  on_reason-Sound : (o : Option Text) → Sound E 0 (on_reason p o)
  unfolding on_reason
  on_reason-Sound none = Sound-pure E 0 true
  on_reason-Sound (some []) = Sound-pure E 0 true
  on_reason-Sound (some (c ∷ text)) = halt-Sound Phase.budget_exhausted _

  stop_reason-Sound : Sound E 0 (stop_reason p)
  unfolding stop_reason
  stop_reason-Sound = elim (Option-cases p.check) [
    | inl e ↦ rw e (Sound-pure E 0 none)
    | inr (f, e) ↦
        rw e (Sound-Calm E 0 _ (Calm-policy_call E f (subst (CheckFaults E) e known.check)))
  ]

  is_cancelled-Sound : Sound E 0 (is_cancelled p)
  unfolding is_cancelled
  is_cancelled-Sound = elim (Option-cases p.cancelled) [
    | inl e ↦ rw e (Sound-pure E 0 false)
    | inr (f, e) ↦ rw e (Sound-Calm E 0 _ (Calm-world_call E f))
  ]

  is_late-Sound : (o : Option Float) → Sound E 0 (is_late p o)
  unfolding is_late
  is_late-Sound none = record { at = λ s h. h; faults = λ s h e q. cc }
  is_late-Sound (some deadline) = record {
    at = λ s h. Holds-same (SameShape-refl s.tree) refl h;
    faults = λ s h e q. cc;
  }

  on_late-Sound : (limit : Float) (b : Bool) → Sound E 0 (on_late p limit b)
  unfolding on_late
  on_late-Sound limit true = halt-Sound Phase.timed_out _
  on_late-Sound limit false = Sound-bind E 0 _ _ stop_reason-Sound on_reason-Sound

  on_cancelled-Sound :
      (deadline : Option Float) (limit : Float) (b : Bool)
      → Sound E 0 (on_cancelled p deadline limit b)
  unfolding on_cancelled
  on_cancelled-Sound deadline limit true = halt-Sound Phase.cancelled _
  on_cancelled-Sound deadline limit false =
      Sound-bind E 0 _ _ (is_late-Sound deadline) (on_late-Sound limit)

  pub boundary-Sound :
      (deadline : Option Float) (limit : Float) → Sound E 0 (boundary p deadline limit)
  unfolding boundary
  boundary-Sound deadline limit =
      Sound-bind E 0 _ _ is_cancelled-Sound (on_cancelled-Sound deadline limit)
