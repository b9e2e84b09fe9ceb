-- ===== src/Critic/Spelled.antt =====
-- The characters of the name of an error, and the scans for them (`_ERROR_LINE` of cognitivetree/
-- feedback/execution_critic.py).
use cognitive_tree_ai.Prelude.{
  ℕ, ◌≤◌, ◌≡◌, ◌∙◌, ◌⊎◌, refl, sym, ap, Text, codes, strip, true, Bool-cases, inl, inr, List, [],
  ◌∷◌, ◌++◌, reverse, All, arith, leb, ◌&&◌, ◌==◌, ==_iff,
}
use mathlib.Core.List.{Memᴰ, reverse-append, reverse-reverse}
use cognitive_tree_ai.Critic.{is_letter, is_name_part, name_run, starts_with, ends_with_any}

pub data IsLetter (c : ℕ) : Type 0 where
  upper : 65 ≤ c → c ≤ 90 → IsLetter c
  lower : 97 ≤ c → c ≤ 122 → IsLetter c
  underscore : c ≡ 95 → IsLetter c

pub data IsNamePart (c : ℕ) : Type 0 where
  letter : IsLetter c → IsNamePart c
  digit : 48 ≤ c → c ≤ 57 → IsNamePart c

-- How the name of an error ends.
abbrev pub endings : List Text
endings =
    codes "Error" ∷ codes "Exception" ∷ codes "Exit" ∷ codes "Interrupt" ∷ codes "Warning" ∷ []

-- A letter, any characters of a name, and one of the endings.
pub record IsErrorName (name : Text) : Type 0 where
  pub first : ℕ
  pub middle : Text
  pub ending : Text
  pub parts : name ≡ first ∷ middle ++ ending
  pub letter : IsLetter first
  pub inner : All IsNamePart middle
  pub known : Memᴰ ending endings

-- The line is the name of an error, or such a name with a colon and a message behind it.
pub data Names : Text → Text → Text → Type 0 where
  bare : (name : Text) → IsErrorName name → Names name name []
  told : (name rest : Text) → IsErrorName name → Names (name ++ 58 ∷ rest) name (strip rest)

pub is_letter-IsLetter : (c : ℕ) → is_letter c ≡ true → IsLetter c
unfolding is_letter
is_letter-IsLetter c e = elim (ranges e) [
  | inl (a, b) ↦ upper a b
  | inr (inl (a, b)) ↦ lower a b
  | inr (inr q) ↦ underscore q
]
  where
    ranges : is_letter c ≡ true → ((65 ≤ c) × (c ≤ 90)) ⊎ ((97 ≤ c) × (c ≤ 122)) ⊎ (c ≡ 95)
    ranges h = ground arith

pub IsLetter-is_letter : (c : ℕ) → IsLetter c → is_letter c ≡ true
unfolding is_letter
IsLetter-is_letter c (upper a b) = ground arith
IsLetter-is_letter c (lower a b) = ground arith
IsLetter-is_letter c (underscore e) = ground arith

pub is_name_part-IsNamePart : (c : ℕ) → is_name_part c ≡ true → IsNamePart c
unfolding is_name_part
is_name_part-IsNamePart c e = elim (Bool-cases (is_letter c)) [
  | inl q ↦ letter (is_letter-IsLetter c q)
  | inr q ↦ let (a, b) = range (rw q at e) in digit a b
]
  where
    range : (leb 48 c && leb c 57) ≡ true → (48 ≤ c) × (c ≤ 57)
    range h = ground arith

pub IsNamePart-is_name_part : (c : ℕ) → IsNamePart c → is_name_part c ≡ true
unfolding is_name_part
IsNamePart-is_name_part c (letter h) = rw (IsLetter-is_letter c h) refl
IsNamePart-is_name_part c (digit a b) = elim (Bool-cases (is_letter c)) [
  | inl q ↦ rw q refl
  | inr q ↦ rw q (ground arith)
]

-- `name_run` splits the line, after the characters of a name.
pub name_run-parts :
    (s : Text) → (s ≡ (name_run s).0 ++ (name_run s).1) × All IsNamePart (name_run s).0
unfolding name_run
name_run-parts [] = (refl, tt)
name_run-parts (c ∷ s) = elim (Bool-cases (is_name_part c)) [
  | inl e ↦ let (q, h) = name_run-parts s in rw e (ap (◌∷◌ c) q, (is_name_part-IsNamePart c e, h))
  | inr e ↦ rw e (refl, tt)
]

-- What stands behind a name: nothing, or a colon first.
pub data Ends : Text → Type 0 where
  nothing : Ends []
  colon : (rest : Text) → Ends (58 ∷ rest)

pub name_run-Ends :
    (name rest : Text) → All IsNamePart name → Ends rest → name_run (name ++ rest) ≡ (name, rest)
unfolding name_run is_name_part is_letter
name_run-Ends [] _ h nothing = refl
name_run-Ends [] _ h (colon rest) = refl
name_run-Ends (c ∷ name) rest h e =
    rw (IsNamePart-is_name_part c h.0, name_run-Ends name rest h.1 e) refl

pub starts_with-parts : (p s : Text) → starts_with p s ≡ true → (rest : Text) × (s ≡ p ++ rest)
unfolding starts_with
starts_with-parts [] s e = (s, refl)
starts_with-parts (c ∷ p) [] e = absurd (cc)
starts_with-parts (c ∷ p) (d ∷ s) e = elim (Bool-cases (c == d)) [
  | inl q ↦
      let (rest, h) = starts_with-parts p s (rw q at e) in
      (rest, ap (λ x. x ∷ s) (sym ((==_iff c d).0 q)) ∙ ap (◌∷◌ c) h)
  | inr q ↦ absurd (cc (rw q at e))
]

pub starts_with-append : (p rest : Text) → starts_with p (p ++ rest) ≡ true
unfolding starts_with
starts_with-append [] rest = refl
starts_with-append (c ∷ p) rest = rw ((==_iff c c).1 refl) (starts_with-append p rest)

pub ends_with_any-parts :
    (suffixes : List Text) (s : Text)
    → ends_with_any suffixes s ≡ true
    → (before : Text) × (ending : Text) × (s ≡ before ++ ending) × Memᴰ ending suffixes
unfolding ends_with_any
ends_with_any-parts [] s e = absurd (cc)
ends_with_any-parts (suffix ∷ suffixes) s e =
    elim (Bool-cases (starts_with (reverse suffix) (reverse s))) [
      | inl q ↦
          let (rest, h) = starts_with-parts (reverse suffix) (reverse s) q in
          (
            reverse rest,
            suffix,
            sym (reverse-reverse s)
                ∙ ap reverse h
                ∙ reverse-append (reverse suffix) rest
                ∙ ap (◌++◌ (reverse rest)) (reverse-reverse suffix),
            Memᴰ.head refl,
          )
      | inr q ↦
          let (before, ending, h, m) = ends_with_any-parts suffixes s (rw q at e) in
          (before, ending, h, Memᴰ.tail m)
    ]

pub ends_with_any-append :
    (suffixes : List Text) (before ending : Text)
    → Memᴰ ending suffixes
    → ends_with_any suffixes (before ++ ending) ≡ true
unfolding ends_with_any
ends_with_any-append [] before ending m = elim m [ ]
ends_with_any-append (suffix ∷ suffixes) before ending (Memᴰ.head e) =
    rw (e, reverse-append before suffix, starts_with-append (reverse suffix) (reverse before)) refl
ends_with_any-append (suffix ∷ suffixes) before ending (Memᴰ.tail m) =
    elim (Bool-cases (starts_with (reverse suffix) (reverse (before ++ ending)))) [
      | inl q ↦ rw q refl
      | inr q ↦ rw q (ends_with_any-append suffixes before ending m)
    ]
