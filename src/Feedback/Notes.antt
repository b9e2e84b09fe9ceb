-- ===== src/Feedback/Notes.antt =====
-- When the revision notes of a node are empty.
use cognitive_tree_ai.Prelude.{
  ◌≡◌, ◌↔◌, inl, inr, refl, Text, true, false, Option, none, some, List, [], ◌∷◌, strip, mem_text,
  All, Bool-cases,
}
use cognitive_tree_ai.Node.{Ref, FailureClass, Critique}
use cognitive_tree_ai.Tree.{Tree}
use cognitive_tree_ai.Feedback.{
  no_text, note_line, note_lines, join_lines, critiques, compile_revision_notes,
}

-- No critique, or one whose guidance is blank.
abbrev pub Silent : Option Critique → Type 0
Silent none = Unit
Silent (some c) = no_text (strip c.guidance) ≡ true

-- Notes with a line in them are not empty.
join_lines-cons :
    (c : FailureClass) (g : Text) (rest : List Text)
    → no_text (join_lines (note_line c g ∷ rest)) ≡ false
unfolding join_lines note_line no_text
join_lines-cons c g [] = refl
join_lines-cons c g (x ∷ xs) = refl

Silent-notes :
    (cs : List (Option Critique)) → (no_text (join_lines (note_lines [] cs)) ≡ true) ↔ All Silent cs
unfolding note_lines mem_text
Silent-notes [] = (λ q. tt, λ h. unfold join_lines no_text in refl)
Silent-notes (none ∷ cs) = let (f, g) = Silent-notes cs in (λ q. (tt, f q), λ h. g h.1)
Silent-notes (some c ∷ cs) =
    let (f, g) = Silent-notes cs in
    elim (Bool-cases (no_text (strip c.guidance))) [
      | inl blank ↦ rw blank (λ q. (refl, f q), λ h. g h.1)
      | inr text ↦ rw text (
        λ q. absurd (
            cc (
              q,
              join_lines-cons c.failure_class (strip c.guidance)
                  (note_lines (strip c.guidance ∷ []) cs),
            )),
        λ h. cc h.0,
      )
    ]

-- The revision notes of a node are empty exactly if no child has a critique with a guidance that is
-- not blank.
pub compile_revision_notes-Silent :
    (t : Tree) (r : Ref)
    → (no_text (compile_revision_notes t r) ≡ true) ↔ All Silent (critiques t r)
unfolding compile_revision_notes
compile_revision_notes-Silent t r = Silent-notes (critiques t r)
