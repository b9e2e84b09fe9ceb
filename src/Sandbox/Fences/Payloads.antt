-- ===== src/Sandbox/Fences/Payloads.antt =====
-- Which block of a thought is its payload, and that a fenced block of code is found whole.
use cognitive_tree_ai.Prelude.{
  ◌≢◌, strip, is_space, subst, Option-cases, ◌≡◌, ◌∙◌, inl, inr, refl, Text, Bool, true, false,
  Option, none, some, List, [], ◌∷◌, ◌++◌, not, ◌&&◌, All, Bool-cases, if◌then◌else◌, arith,
}
use mathlib.Core.List.{append-nil, append_assoc}
use cognitive_tree_ai.Prelude.Texts.Stripped.{Starts, empty, sharp, strip-Starts}
use cognitive_tree_ai.Sandbox.Fences.{
  Fence, Block, Open, opening, closes, block_of, scan, splitlines, fenced_blocks, is_python,
  no_text, first_of, pick, extract_python_payload, dedent, join_lines,
}

-- The body of the first block that passes the test.
pub body_where : (Block → Bool) → List Block → Option Text
body_where p [] = none
body_where p (b ∷ bs) = let rest = body_where p bs in if p b then some b.body else rest

-- A block with code in it, tagged as Python or not tagged at all.
pub is_tagged : Block → Bool
is_tagged b = not (no_text b.body) && is_python b.tag

pub is_plain : Block → Bool
is_plain b = not (no_text b.body) && no_text b.tag

abbrev pub or_else : Option Text → Option Text → Option Text
or_else none o = o
or_else (some t) o = some t

pick-body_where :
    (o : Option Text) (bs : List Block)
    → pick o bs ≡ or_else (body_where is_tagged bs) (or_else o (body_where is_plain bs))
unfolding pick body_where is_tagged is_plain first_of
pick-body_where none [] = refl
pick-body_where (some t) [] = refl
pick-body_where none (b ∷ bs) =
    ground (arith, pick-body_where none bs, pick-body_where (some b.body) bs)
pick-body_where (some t) (b ∷ bs) = ground (arith, pick-body_where (some t) bs)

-- The payload of a thought is the first block with code that is tagged as Python; where there is
-- none, it is the first untagged block with code; and where there is none either, there is no
-- payload.
pub extract_python_payload-first :
    (text : Text)
    → extract_python_payload text
      ≡ or_else
          (body_where is_tagged (fenced_blocks text))
          (body_where is_plain (fenced_blocks text))
unfolding extract_python_payload
extract_python_payload-first text = pick-body_where none (fenced_blocks text)

scan-prose :
    (before rest : List Text)
    → All (λ l. opening l ≡ none) before
    → scan none (before ++ rest) ≡ scan none rest
unfolding scan
scan-prose [] rest h = refl
scan-prose (l ∷ ls) rest (h, more) = rw (h, scan) (scan-prose ls rest more)

-- What may follow the lines of a block: nothing, or a line that closes it.
pub data Closed (fence : Fence) : List Text → List Text → Type 0 where
  at_end : Closed fence [] []
  by_line :
      (line : Text) (rest : List Text) → closes line fence ≡ true → Closed fence (line ∷ rest) rest

scan-open :
    (o : Open) (body tail rest : List Text)
    → All (λ l. closes l o.fence ≡ false) body
    → Closed o.fence tail rest
    → scan (some o) (body ++ tail)
      ≡ block_of (record o { lines = o.lines ++ body }) ∷ scan none rest
unfolding scan
scan-open o [] tail rest h at_end = rw (append-nil o.lines) refl
scan-open o [] tail rest h (by_line m r e) = rw (e, scan) (rw (append-nil o.lines) refl)
scan-open o (l ∷ ls) tail rest (h, more) c =
    rw (h, scan)
      (scan-open (record o { lines = o.lines ++ l ∷ [] }) ls tail rest more c
        ∙ rw (append_assoc o.lines (l ∷ []) ls) refl)

no_text-false : (t : Text) → t ≢ [] → no_text t ≡ false
unfolding no_text
no_text-false [] h = absurd (h refl)
no_text-false (c ∷ t) h = refl

module _ (text : Text) (before body tail rest : List Text) (line : Text) (fence : Fence)
    (tag : Text) where
  -- Let the lines of a thought be prose that opens no block, a line that opens a block tagged as
  -- Python, lines that do not close it, and then the end of the text or a line that closes it.
  -- If the dedented code is not blank, it is the payload, whatever comes after.
  pub extract_python_payload-fenced :
      splitlines text ≡ before ++ line ∷ (body ++ tail)
      → All (λ l. opening l ≡ none) before
      → opening line ≡ some (fence, tag)
      → is_python tag ≡ true
      → All (λ l. closes l fence ≡ false) body
      → Closed fence tail rest
      → strip (join_lines (dedent body)) ≢ []
      → extract_python_payload text ≡ some (strip (join_lines (dedent body)))
  extract_python_payload-fenced lines prose opens python inside closed code =
      unfold extract_python_payload fenced_blocks in
      rw (lines, scan-prose before (line ∷ (body ++ tail)) prose)
        (unfold scan in
          rw (opens, scan)
            (rw
              (scan-open (record { fence = fence; tag = tag; lines = [] }) body tail rest inside
                closed)
              (unfold pick block_of in rw (no_text-false _ code, python, pick) refl)))

-- A body is stripped.
abbrev Trimmed : Block → Type 0
Trimmed b = Starts b.body

scan-Trimmed : (o : Option Open) (lines : List Text) → All Trimmed (scan o lines)
unfolding scan block_of
scan-Trimmed none [] = tt
scan-Trimmed none (l ∷ ls) = elim (Option-cases (opening l)) [
  | inl e ↦ rw (e, scan) (scan-Trimmed none ls)
  | inr (found, e) ↦ rw (e, scan) (scan-Trimmed (some _) ls)
]
scan-Trimmed (some o) [] = (strip-Starts _, tt)
scan-Trimmed (some o) (l ∷ ls) = elim (Bool-cases (closes l o.fence)) [
  | inl e ↦ rw (e, scan) (strip-Starts _, scan-Trimmed none ls)
  | inr e ↦ rw (e, scan) (scan-Trimmed (some _) ls)
]

-- A text that is not blank from its first character on.
abbrev pub Sharp : Text → Type 0
Sharp [] = ⊥
Sharp (c ∷ s) = is_space c ≡ false

Sharp-of_Starts : (t : Text) → Starts t → no_text t ≡ false → Sharp t
unfolding no_text
Sharp-of_Starts [] empty e = cc
Sharp-of_Starts (c ∷ s) (sharp d u h) e = h

abbrev AllSharp : Option Text → Type 0
AllSharp none = Unit
AllSharp (some t) = Sharp t

pick-Sharp :
    (o : Option Text) (bs : List Block) → AllSharp o → All Trimmed bs → AllSharp (pick o bs)
unfolding pick
pick-Sharp o [] h t = h
pick-Sharp o (b ∷ bs) h (s, t) = elim (Bool-cases (no_text b.body)) [
  | inl e ↦ rw (e, pick) (pick-Sharp o bs h t)
  | inr e ↦ elim (Bool-cases (is_python b.tag)) [
    | inl q ↦ rw (e, q, pick) (Sharp-of_Starts b.body s e)
    | inr q ↦ elim (Bool-cases (no_text b.tag)) [
      | inl r ↦ rw (e, q, r, pick) (pick-Sharp _ bs (kept o (Sharp-of_Starts b.body s e) h) t)
      | inr r ↦ rw (e, q, r, pick) (pick-Sharp o bs h t)
    ]
  ]
]
  where
    kept : (u : Option Text) → Sharp b.body → AllSharp u → AllSharp (first_of u b.body)
    kept none k a = k
    kept (some x) k a = a

-- A payload is never blank: its first character is no space.
pub extract_python_payload-Sharp : (text p : Text) → extract_python_payload text ≡ some p → Sharp p
unfolding extract_python_payload fenced_blocks
extract_python_payload-Sharp text p e =
    subst AllSharp e (pick-Sharp none (fenced_blocks text) tt (scan-Trimmed none (splitlines text)))
