-- ===== src/Llm/Parsing.antt =====
-- `extract_json_object` of cognitivetree/llm/parsing.py. The JSON parser of the standard library is
-- a parameter: it fails, or it yields an object or some other value.
pub mod Slices
use cognitive_tree_ai.Prelude.{
  ℕ, zero, suc, ◌+◌, ◌-◌, ◌==◌, ==_iff, ◌≡◌, ◌≢◌, ◌∙◌, ◌⊎◌, inl, inr, refl, sym, ap, subst, Text,
  Bool, true, false, Option, none, some, List, [], ◌∷◌, ◌++◌, if◌then◌else◌, All, Bool-cases,
  Option-cases, arith,
}
use mathlib.Core.List.{append_assoc}

-- The locals of the loop over the characters.
pub record Scanner : Type 0 where
  pub depth : ℕ
  pub in_string : Bool
  pub escaped : Bool

abbrev pub outside : ℕ → Scanner
outside depth = record { depth = depth; in_string = false; escaped = false }

unfoldable pub within_string : ℕ → Scanner → Scanner
within_string c s =
    if s.escaped
    then record s { escaped = false }
    else if c == 92
    then record s { escaped = true }
    else if c == 34
    then record s { in_string = false }
    else s

unfoldable pub between_strings : ℕ → Scanner → Scanner
between_strings c s =
    if c == 34
    then record s { in_string = true }
    else if c == 123
    then record s { depth = s.depth + 1 }
    else if c == 125
    then record s { depth = s.depth - 1 }
    else s

-- The body of the loop; the depth is at least one until the object is closed.
unfoldable pub scan_char : ℕ → Scanner → Scanner
unfolding within_string between_strings
scan_char c s = if s.in_string then within_string c s else between_strings c s

-- Whether the character closes the object.
unfoldable pub closes : ℕ → Scanner → Bool
closes c s = if s.in_string then false else if c == 125 then (s.depth - 1) == 0 else false

unfoldable pub prefix : ℕ → Option Text → Option Text
prefix c none = none
prefix c (some t) = some (c ∷ t)

-- `text[start : position + 1]` for the text from `start` on, where the loop finds a position.
unfoldable pub balanced : Scanner → Text → Option Text
unfolding scan_char closes prefix
balanced s [] = none
balanced s (c ∷ text) =
    let rest = prefix c (balanced (scan_char c s) text) in
    if closes c s then some (c ∷ []) else rest

pub data Parsed (D : Type 0) : Type 0 where
  object : D → Parsed D
  other : Parsed D

unfoldable pub dict_of : {D : Type 0} → Parsed D → Option D
dict_of (object d) = some d
dict_of other = none

module _ {D : Type 0} (loads : Text → Option (Parsed D)) where
  unfoldable pub decode : Option D → Option (Parsed D) → Option D
  unfolding dict_of
  decode next none = next
  decode next (some p) = dict_of p

  unfoldable pub attempt : Option D → Option Text → Option D
  unfolding decode
  attempt next none = next
  attempt next (some slice) = decode next (loads slice)

  -- `extract_json_object(text)`; `next` is what the later starts yield.
  unfoldable pub extract_json_object : Text → Option D
  unfolding balanced attempt
  extract_json_object [] = none
  extract_json_object (c ∷ text) =
      let next = extract_json_object text in
      if c == 123 then attempt next (balanced (outside 0) (c ∷ text)) else next
