-- ===== src/Critic/Named.antt =====
-- The line that names an error (`_ERROR_LINE` of cognitivetree/feedback/execution_critic.py).
use cognitive_tree_ai.Prelude.{
  ◌≡◌, ◌∙◌, refl, sym, ap, subst, Text, codes, strip, true, Bool-cases, inl, inr, Option, none,
  some, [], ◌∷◌, ◌++◌, All, All-append, ◌==◌, ==_iff,
}
use mathlib.Core.List.{Memᴰ, append-nil}
use cognitive_tree_ai.Critic.{
  is_letter, is_name_part, name_run, is_error_name, after_name, error_line,
}
use cognitive_tree_ai.Critic.Wording.{error_suffixes}
use cognitive_tree_ai.Critic.Spelled.{
  IsNamePart, endings, IsErrorName, Names, is_letter-IsLetter, IsLetter-is_letter, name_run-parts,
  name_run-Ends, ends_with_any-parts, ends_with_any-append, letter, nothing, colon, bare, told,
}

-- The test of the name says what the pattern does.
is_error_name-IsErrorName :
    (name : Text) → is_error_name name ≡ true → All IsNamePart name → IsErrorName name
unfolding is_error_name
is_error_name-IsErrorName [] e h = absurd (cc)
is_error_name-IsErrorName (c ∷ s) e h = elim (Bool-cases (is_letter c)) [
  | inr q ↦ absurd (cc (rw q at e))
  | inl q ↦
      let (before, ending, p, m) = ends_with_any-parts error_suffixes s (rw q at e) in
      record {
        first = c;
        middle = before;
        ending = ending;
        parts = ap (◌∷◌ c) p;
        letter = is_letter-IsLetter c q;
        inner = All-before before ending (subst (All IsNamePart) p h.1);
        known = m;
      }
]
  where
    All-before : (xs ys : Text) → All IsNamePart (xs ++ ys) → All IsNamePart xs
    All-before [] ys k = tt
    All-before (x ∷ xs) ys k = (k.0, All-before xs ys k.1)

IsErrorName-is_error_name : (name : Text) → IsErrorName name → is_error_name name ≡ true
unfolding is_error_name
IsErrorName-is_error_name name n =
    rw
      (
        n.parts,
        IsLetter-is_letter n.first n.letter,
        ends_with_any-append error_suffixes n.middle n.ending n.known,
      )
      refl

IsErrorName-parts : (name : Text) → IsErrorName name → All IsNamePart name
unfolding name_run is_name_part is_letter
IsErrorName-parts name n =
    subst (All IsNamePart) (sym n.parts)
      (letter n.letter, All-append IsNamePart n.middle n.ending n.inner (spelled n.ending n.known))
  where
    of : (s : Text) → (name_run s).0 ≡ s → All IsNamePart s
    of s e = subst (All IsNamePart) e (name_run-parts s).1

    spelled : (ending : Text) → Memᴰ ending endings → All IsNamePart ending
    spelled _ (Memᴰ.head e) = rw e (of (codes "Error") refl)
    spelled _ (Memᴰ.tail (Memᴰ.head e)) = rw e (of (codes "Exception") refl)
    spelled _ (Memᴰ.tail (Memᴰ.tail (Memᴰ.head e))) = rw e (of (codes "Exit") refl)
    spelled _ (Memᴰ.tail (Memᴰ.tail (Memᴰ.tail (Memᴰ.head e)))) = rw e (of (codes "Interrupt") refl)
    spelled _ (Memᴰ.tail (Memᴰ.tail (Memᴰ.tail (Memᴰ.tail (Memᴰ.head e))))) =
        rw e (of (codes "Warning") refl)
    spelled _ (Memᴰ.tail (Memᴰ.tail (Memᴰ.tail (Memᴰ.tail (Memᴰ.tail m))))) = elim m [ ]

-- What is found in a line is its form.
abbrev Found : Text → Option (Text × Text) → Type 0
Found line none = Unit
Found line (some (name, message)) = Names line name message

after_name-Found :
    (name rest : Text) → IsErrorName name → Found (name ++ rest) (after_name name rest)
unfolding after_name
after_name-Found name [] n = subst (λ x. Names x name []) (sym (append-nil name)) (bare name n)
after_name-Found name (c ∷ rest) n = elim (Bool-cases (c == 58)) [
  | inl e ↦ rw e (
      subst (λ d. Names (name ++ d ∷ rest) name (strip rest)) (sym ((==_iff c 58).0 e))
        (told name rest n))
  | inr e ↦ rw e tt
]

error_line-Found : (line : Text) → Found line (error_line line)
unfolding error_line
error_line-Found line =
    let (name, rest) = name_run line in
    let (q, h) = name_run-parts line in
    elim (Bool-cases (is_error_name name)) [
      | inl e ↦
          rw (e, error_line)
            (subst (λ x. Found x (after_name name rest)) (sym q)
              (after_name-Found name rest (is_error_name-IsErrorName name e h)))
      | inr e ↦ rw (e, error_line) tt
    ]

-- `error_line` finds a name and a message exactly in the lines of that form.
pub error_line-Names :
    (line name message : Text) → error_line line ≡ some (name, message) → Names line name message
error_line-Names line name message e = subst (Found line) e (error_line-Found line)

pub Names-error_line :
    (line name message : Text) → Names line name message → error_line line ≡ some (name, message)
unfolding error_line after_name strip
Names-error_line _ name _ (bare _ n) = ap error_line (sym (append-nil name)) ∙ found
  where
    found : error_line (name ++ []) ≡ some (name, [])
    found =
        rw
          (
            error_line,
            name_run-Ends name [] (IsErrorName-parts name n) nothing,
            IsErrorName-is_error_name name n,
          )
          refl
Names-error_line _ name _ (told _ rest n) =
    rw
      (
        error_line,
        name_run-Ends name (58 ∷ rest) (IsErrorName-parts name n) (colon rest),
        IsErrorName-is_error_name name n,
      )
      refl
