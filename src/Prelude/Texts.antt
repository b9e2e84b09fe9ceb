-- ===== src/Prelude/Texts.antt =====
-- Texts as lists of code points, and the part of Python's `str` that the program uses on thoughts.
pub mod Stripped
pub mod Trimmed
use Prim.Native.Nat.{ℕ}
use Prim.Native.Char.{code}
use Prim.Native.String.{String}
use mathlib.Core.Path.{◌≡◌, refl, sym}
use mathlib.Core.Logic.{◌↔◌, inl, inr}
use mathlib.Core.Bool.{Bool, true, false, ◌&&◌, ◌||◌}
use mathlib.Core.List.{List, [], ◌∷◌, reverse, Memᴰ}
use native.Mathlib.Omega.{arith}
use cognitive_tree_ai.Prelude.Tests.{Bool-cases, leb, ◌==◌, if◌then◌else◌}

abbrev pub Text : Type 0
Text = List ℕ

-- The code points of a literal. `String` has its own `[]` and `∷`.
abbrev pub codes : String → Text
codes String.[] = []
codes (String.◌∷◌ c s) = code c ∷ codes s

unfoldable pub text_eq : Text → Text → Bool
text_eq [] [] = true
text_eq (a ∷ s) (b ∷ t) = (a == b) && text_eq s t
text_eq _ _ = false

pub text_eq_iff : (s t : Text) → (text_eq s t ≡ true) ↔ (s ≡ t)
unfolding text_eq
text_eq_iff [] [] = ground arith
text_eq_iff [] (b ∷ t) = ground arith
text_eq_iff (a ∷ s) [] = ground arith
text_eq_iff (a ∷ s) (b ∷ t) = ground (arith, text_eq_iff s t)

-- The code points for which `str.isspace` holds, which `str.strip` removes.
unfoldable pub is_space : ℕ → Bool
is_space c =
    (leb 9 c && leb c 13)
    || (leb 28 c && leb c 32)
    || (c == 133)
    || (c == 160)
    || (c == 5760)
    || (leb 8192 c && leb c 8202)
    || (c == 8232)
    || (c == 8233)
    || (c == 8239)
    || (c == 8287)
    || (c == 12288)

drop_spaces : Text → Text
drop_spaces [] = []
drop_spaces (c ∷ s) = if is_space c then drop_spaces s else c ∷ s

-- `str.strip()`
unfoldable pub strip : Text → Text
unfolding drop_spaces is_space
strip s = reverse (drop_spaces (reverse (drop_spaces s)))

-- `str.rstrip()`
unfoldable pub rstrip : Text → Text
unfolding drop_spaces is_space
rstrip s = reverse (drop_spaces (reverse s))

-- `text in seen`
unfoldable pub mem_text : Text → List Text → Bool
mem_text t [] = false
mem_text t (s ∷ seen) = text_eq s t || mem_text t seen

pub mem_text-Memᴰ : (x : Text) (xs : List Text) → Memᴰ x xs → mem_text x xs ≡ true
unfolding mem_text
mem_text-Memᴰ x [] m = elim m [ ]
mem_text-Memᴰ x (y ∷ ys) (Memᴰ.head e) = rw ((text_eq_iff y x).1 (sym e)) refl
mem_text-Memᴰ x (y ∷ ys) (Memᴰ.tail m) = elim (Bool-cases (text_eq y x)) [
  | inl e ↦ rw e refl
  | inr e ↦ rw (e, mem_text-Memᴰ x ys m) refl
]

pub Memᴰ-mem_text : (x : Text) (xs : List Text) → mem_text x xs ≡ true → Memᴰ x xs
unfolding mem_text
Memᴰ-mem_text x [] q = absurd (cc)
Memᴰ-mem_text x (y ∷ xs) q = elim (Bool-cases (text_eq y x)) [
  | inl e ↦ Memᴰ.head (sym ((text_eq_iff y x).0 e))
  | inr e ↦ Memᴰ.tail (Memᴰ-mem_text x xs (rw e at q))
]
