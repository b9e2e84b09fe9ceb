-- ===== src/Feedback/Revisions.antt =====
-- When a revision is granted, and what it leaves.
use cognitive_tree_ai.Prelude.{
  ℕ, ◌+◌, ◌<◌, ◌≡◌, ◌≢◌, ◌↔◌, inl, inr, refl, Bool, true, false, some, List, [], ◌∷◌, ◌&&◌, leb,
  All, arith, Bool-cases,
}
use cognitive_tree_ai.Node.{Node, Ref, Metadata, is_live, is_terminal_status}
use cognitive_tree_ai.Tree.{Tree}
use cognitive_tree_ai.Feedback.{
  no_text, critiques, compile_revision_notes, BoundedRevisionPolicy, any, attempts_of, no_children,
  revise,
}
use cognitive_tree_ai.Feedback.Notes.{Silent, compile_revision_notes-Silent}

-- What a revision asks for.
pub record Qualifies (policy : BoundedRevisionPolicy) (t : Tree) (r : Ref) : Type 0 where
  pub expanded : (t.cell r).children ≢ []
  pub none_live : All (λ c. is_live (t.cell c) ≡ false) (t.cell r).children
  pub none_terminal : All (λ c. is_terminal_status (t.cell c).status ≡ false) (t.cell r).children
  pub attempts_left : attempts_of (t.cell r).metadata < policy.max_attempts
  pub guided : policy.require_guidance ≡ true → ¬ All Silent (critiques t r)

any_iff :
    (p : Node → Bool) (t : Tree) (cs : List Ref)
    → (any p t cs ≡ false) ↔ All (λ c. p (t.cell c) ≡ false) cs
unfolding any
any_iff p t [] = (λ q. tt, λ h. refl)
any_iff p t (c ∷ cs) =
    let (f, g) = any_iff p t cs in
    elim (Bool-cases (p (t.cell c))) [
      | inl e ↦ rw e (λ q. absurd (cc), λ h. absurd (cc h.0))
      | inr e ↦ rw e (λ q. (refl, f q), λ h. g h.1)
    ]

no_children_iff : (cs : List Ref) → (no_children cs ≡ false) ↔ (cs ≢ [])
unfolding no_children
no_children_iff [] = (λ q e. cc, λ h. absurd (h refl))
no_children_iff (c ∷ cs) = (λ q e. cc, λ h. refl)

-- What a call of `revise` leaves in the metadata `m`.
abbrev pub Leaves : Tree → Ref → Bool × Metadata → Type 0
Leaves t r (true, m) =
    (attempts_of m ≡ attempts_of (t.cell r).metadata + 1)
    × (m.revision_notes ≡ some (compile_revision_notes t r))
    × (m.critique ≡ (t.cell r).metadata.critique)
Leaves t r (false, m) = m ≡ (t.cell r).metadata

spent : {a b : ℕ} {x : Bool} → leb a b ≡ true → b < a → x ≡ true
spent e lt = absurd (ground arith)

unspent : {a b : ℕ} → leb a b ≡ false → b < a
unspent e = ground arith

module _ (policy : BoundedRevisionPolicy) (t : Tree) (r : Ref) where
  guided_iff :
      ((policy.require_guidance && no_text (compile_revision_notes t r)) ≡ false)
      ↔ (policy.require_guidance ≡ true → ¬ All Silent (critiques t r))
  guided_iff =
      let (f, g) = compile_revision_notes-Silent t r in
      elim (Bool-cases policy.require_guidance) [
        | inr off ↦ rw off (λ q e. absurd (cc), λ h. refl)
        | inl on ↦ elim (Bool-cases (no_text (compile_revision_notes t r))) [
          | inl empty ↦ rw (on, empty) (λ q. absurd (cc), λ h. absurd (h refl (f empty)))
          | inr notes ↦ rw (on, notes) (λ q e s. cc (notes, g s), λ h. refl)
        ]
      ]

  -- `BoundedRevisionPolicy.revise` grants a revision exactly if the node has children, none of them
  -- live and none terminal, attempts are left, and, where guidance is required, some child has a
  -- critique with a guidance that is not blank. A granted revision counts one attempt and stores
  -- the notes; a refused one leaves the metadata as it was.
  pub revise-Qualifies :
      (((revise policy t r).0 ≡ true) ↔ Qualifies policy t r) × Leaves t r (revise policy t r)
  unfolding revise attempts_of
  revise-Qualifies = elim (Bool-cases (no_children (t.cell r).children)) [
    | inl e ↦
        rw (e, revise) ((λ q. absurd (cc), λ h. cc (e, (no_children_iff _).1 h.expanded)), refl)
    | inr some_child ↦ elim (Bool-cases (any is_live t (t.cell r).children)) [
      | inl e ↦
          rw (some_child, e, revise)
            ((λ q. absurd (cc), λ h. cc (e, (any_iff is_live t _).1 h.none_live)), refl)
      | inr dead ↦
          elim (Bool-cases
            (any (λ (n : Node). is_terminal_status n.status) t (t.cell r).children)) [
              | inl e ↦
                  rw (some_child, dead, e, revise)
                    (
                      (
                        λ q. absurd (cc),
                        λ h. cc (
                          e,
                          (any_iff (λ (n : Node). is_terminal_status n.status) t _).1
                              h.none_terminal,
                        ),
                      ),
                      refl,
                    )
              | inr unsolved ↦ rest some_child dead unsolved
            ]
    ]
  ]
    where
      rest :
          no_children (t.cell r).children ≡ false
          → any is_live t (t.cell r).children ≡ false
          → any (λ (n : Node). is_terminal_status n.status) t (t.cell r).children ≡ false
          → (((revise policy t r).0 ≡ true) ↔ Qualifies policy t r) × Leaves t r (revise policy t r)
      rest some_child dead unsolved =
          elim (Bool-cases (leb policy.max_attempts (attempts_of (t.cell r).metadata))) [
            | inl e ↦
                rw (some_child, dead, unsolved, e, revise)
                  ((λ q. absurd (cc), λ h. spent e h.attempts_left), refl)
            | inr left ↦
                elim (Bool-cases
                  (policy.require_guidance && no_text (compile_revision_notes t r))) [
                    | inl e ↦
                        rw (some_child, dead, unsolved, left, e, revise)
                          ((λ q. absurd (cc), λ h. cc (e, guided_iff.1 h.guided)), refl)
                    | inr g ↦
                        rw (some_child, dead, unsolved, left, g, revise)
                          (
                            (
                              λ q. record {
                                expanded = (no_children_iff (t.cell r).children).0 some_child;
                                none_live = (any_iff is_live t (t.cell r).children).0 dead;
                                none_terminal =
                                    (any_iff (λ (n : Node). is_terminal_status n.status) t
                                        (t.cell r).children).0
                                      unsolved;
                                attempts_left = unspent left;
                                guided = guided_iff.0 g;
                              },
                              λ h. refl,
                            ),
                            (refl, refl, refl),
                          )
                  ]
          ]
