-- ===== src/Prelude/Texts/Stripped.antt =====
-- A stripped text begins with a character that is no space, and such a text is not blank.
use mathlib.Core.Path.{◌≡◌, refl, sym}
use mathlib.Core.Logic.{◌≢◌, inl, inr}
use mathlib.Core.Bool.{false}
use mathlib.Core.List.{[], ◌∷◌, ◌++◌, reverse, reverse-cons, reverse-append}
use Prim.Native.Nat.{ℕ}
use cognitive_tree_ai.Prelude.Tests.{Bool-cases}
use cognitive_tree_ai.Prelude.Texts.{Text, is_space, drop_spaces, strip}

-- The text is empty, or its first character is no space.
pub data Starts : Text → Type 0 where
  empty : Starts []
  sharp : (c : ℕ) (s : Text) → is_space c ≡ false → Starts (c ∷ s)

drop_spaces-Starts : (t : Text) → Starts (drop_spaces t)
unfolding drop_spaces
drop_spaces-Starts [] = empty
drop_spaces-Starts (c ∷ s) = elim (Bool-cases (is_space c)) [
  | inl e ↦ rw e (drop_spaces-Starts s)
  | inr e ↦ rw e (sharp c s e)
]

-- A character that is no space stays at the end.
drop_spaces-snoc :
    (t : Text) (c : ℕ) → is_space c ≡ false → (u : Text) × (drop_spaces (t ++ c ∷ []) ≡ u ++ c ∷ [])
unfolding drop_spaces
drop_spaces-snoc [] c h = ([], rw h refl)
drop_spaces-snoc (d ∷ t) c h = elim (Bool-cases (is_space d)) [
  | inl e ↦ rw e (drop_spaces-snoc t c h)
  | inr e ↦ rw e (d ∷ t, refl)
]

trimmed_end :
    (c : ℕ) (t : Text)
    → is_space c ≡ false
    → (u : Text) × (reverse (drop_spaces (reverse (c ∷ t))) ≡ c ∷ u)
trimmed_end c t h =
    let (u, e) = drop_spaces-snoc (reverse t) c h in
    (reverse u, rw (reverse-cons c t, e) (reverse-append u (c ∷ [])))

strip_rest : (t : Text) → Starts t → Starts (reverse (drop_spaces (reverse t)))
unfolding drop_spaces
strip_rest [] empty = empty
strip_rest (c ∷ t) (sharp c' t' h) = let (u, e) = trimmed_end c t h in rw e (sharp c u h)

pub strip-Starts : (t : Text) → Starts (strip t)
unfolding strip
strip-Starts t = strip_rest (drop_spaces t) (drop_spaces-Starts t)

pub strip-ne_nil : (c : ℕ) (t : Text) → is_space c ≡ false → strip (c ∷ t) ≢ []
unfolding strip drop_spaces
strip-ne_nil c t h q = let (u, e) = trimmed_end c t h in cc (sym e, rw h at q)
