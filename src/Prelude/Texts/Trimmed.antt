-- ===== src/Prelude/Texts/Trimmed.antt =====
-- What `str.strip` takes off a text.
use mathlib.Core.Path.{◌≡◌, ◌∙◌, refl, sym, ap, subst}
use mathlib.Core.Logic.{inl, inr}
use mathlib.Core.Bool.{true}
use mathlib.Core.List.{
  [], ◌∷◌, ◌++◌, reverse, reverse-cons, reverse-append, reverse-reverse, append_assoc,
}
use cognitive_tree_ai.Prelude.Tests.{Bool-cases}
use cognitive_tree_ai.Prelude.Lists.{All, All-append}
use cognitive_tree_ai.Prelude.Texts.{Text, is_space, drop_spaces, strip}

-- A text of white space.
abbrev pub IsBlank : Text → Type 0
IsBlank = All (λ c. is_space c ≡ true)

pub IsBlank-append : (s t : Text) → IsBlank s → IsBlank t → IsBlank (s ++ t)
IsBlank-append = All-append (λ c. is_space c ≡ true)

IsBlank-reverse : (s : Text) → IsBlank s → IsBlank (reverse s)
IsBlank-reverse [] h = tt
IsBlank-reverse (c ∷ s) h =
    subst IsBlank (sym (reverse-cons c s))
      (IsBlank-append (reverse s) (c ∷ []) (IsBlank-reverse s h.1) (h.0, tt))

dropped : (s : Text) → (a : Text) × (s ≡ a ++ drop_spaces s) × IsBlank a
unfolding drop_spaces
dropped [] = ([], refl, tt)
dropped (c ∷ s) = elim (Bool-cases (is_space c)) [
  | inl e ↦ let (a, q, h) = dropped s in rw e (c ∷ a, ap (◌∷◌ c) q, (e, h))
  | inr e ↦ rw e ([], refl, tt)
]

-- `strip` leaves the middle of a text, and takes white space off both ends.
pub strip-parts :
    (s : Text) → (a : Text) × (b : Text) × (s ≡ a ++ strip s ++ b) × IsBlank a × IsBlank b
unfolding strip
strip-parts s =
    let (a, p, h) = dropped s in
    let d = drop_spaces s in
    let (b, q, k) = dropped (reverse d) in
    let ends : d ≡ strip s ++ reverse b =
      sym (reverse-reverse d) ∙ ap reverse q ∙ reverse-append b (drop_spaces (reverse d)) in
    (
      a,
      reverse b,
      p ∙ ap (◌++◌ a) ends ∙ sym (append_assoc a (strip s) (reverse b)),
      h,
      IsBlank-reverse b k,
    )

pub strip-IsBlank : (s : Text) → strip s ≡ [] → IsBlank s
strip-IsBlank s e =
    let (a, b, q, h, k) = strip-parts s in
    subst IsBlank (sym q)
      (IsBlank-append (a ++ strip s) b (IsBlank-append a (strip s) h (subst IsBlank (sym e) tt)) k)
