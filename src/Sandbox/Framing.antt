-- ===== src/Sandbox/Framing.antt =====
-- cognitivetree/sandbox/payload.py: the frame in which the code of a payload and its input travel
-- over one pipe, and how the bootstrap takes it apart. The UTF-8 codec is a parameter; a byte is a
-- number.
use cognitive_tree_ai.Prelude.{
  ℕ, zero, suc, ◌+◌, ◌-◌, ◌*◌, ◌/◌, ◌%◌, ◌≤◌, ◌<◌, ◌==◌, ◌≡◌, ◌∙◌, refl, ap, Text, Option, none,
  some, List, [], ◌∷◌, ◌++◌, ◌&&◌, ltb, leb, take, drop, length, if◌then◌else◌, arith, Bool-cases,
  inl, inr, All, All-append, take-append, drop-append,
}

-- `b"%d" % n`, with as many rounds as the number allows.
digits_from : ℕ → ℕ → List ℕ
digits_from zero n = []
digits_from (suc rounds) n =
    let rest = digits_from rounds (n / 10) in
    if ltb n 10 then (48 + n) ∷ [] else rest ++ (48 + n % 10) ∷ []

unfoldable pub digits : ℕ → List ℕ
unfolding digits_from
digits n = digits_from (suc n) n

module _ (encode : Text → List ℕ) where
  -- `frame_payload(code, stdin)`
  unfoldable pub frame_payload : Text → Text → List ℕ
  unfolding digits
  frame_payload code stdin =
      let body = encode code in digits (length body) ++ (10 ∷ (body ++ encode stdin))

-- The line that `readline` returns, without its newline, and what follows it in the buffer.
unfoldable pub read_line : List ℕ → List ℕ × List ℕ
read_line [] = ([], [])
read_line (c ∷ s) = let (line, rest) = read_line s in if c == 10 then ([], s) else (c ∷ line, rest)

-- `int(line)` of a line of digits; `none` stands for the ValueError.
unfoldable pub int_from : ℕ → List ℕ → Option ℕ
int_from acc [] = some acc
int_from acc (c ∷ s) =
    let rest = int_from (acc * 10 + (c - 48)) s in if leb 48 c && leb c 57 then rest else none

unfoldable pub int_of : List ℕ → Option ℕ
unfolding int_from
int_of [] = none
int_of (c ∷ s) = int_from 0 (c ∷ s)

unfoldable pub read_source : Option ℕ → List ℕ → Option (List ℕ × List ℕ)
read_source none buffer = none
read_source (some size) buffer = some (take size buffer, drop size buffer)

-- The bootstrap: it reads the framed code and leaves the rest of the buffer to the payload.
unfoldable pub unframe : List ℕ → Option (List ℕ × List ℕ)
unfolding read_line int_of read_source
unframe buffer = let (line, rest) = read_line buffer in read_source (int_of line) rest

abbrev IsDigit : ℕ → Type 0
IsDigit c = (48 ≤ c) × (c ≤ 57)

digits_from-IsDigit : (rounds n : ℕ) → All IsDigit (digits_from rounds n)
unfolding digits_from
digits_from-IsDigit zero n = tt
digits_from-IsDigit (suc rounds) n = elim (Bool-cases (ltb n 10)) [
  | inl e ↦ rw e (ground arith, tt)
  | inr e ↦ rw e (
      All-append IsDigit (digits_from rounds (n / 10)) _ (digits_from-IsDigit rounds (n / 10))
        (omega arith, tt))
]

int_from-snoc :
    (acc v d : ℕ) (xs : List ℕ)
    → int_from acc xs ≡ some v
    → IsDigit d
    → int_from acc (xs ++ d ∷ []) ≡ some (v * 10 + (d - 48))
unfolding int_from
int_from-snoc acc v d [] e h = ground arith
int_from-snoc acc v d (c ∷ xs) e h = elim (Bool-cases (leb 48 c && leb c 57)) [
  | inl q ↦ rw q (int_from-snoc (acc * 10 + (c - 48)) v d xs (rw q at e) h)
  | inr q ↦ absurd (cc (rw q at e))
]

int_from-digits : (rounds n : ℕ) → n < rounds → int_from 0 (digits_from rounds n) ≡ some n
unfolding digits_from
int_from-digits zero n h = absurd (omega arith)
int_from-digits (suc rounds) n h = elim (Bool-cases (ltb n 10)) [
  | inl e ↦ rw e (unfold int_from in ground arith)
  | inr e ↦
      let ih = int_from-digits rounds (n / 10) (ground arith) in
      rw e (
        int_from-snoc 0 (n / 10) (48 + n % 10) (digits_from rounds (n / 10)) ih (omega arith)
        ∙ ap some (omega arith))
]

int_of-snoc : (xs : List ℕ) (d : ℕ) → int_of (xs ++ d ∷ []) ≡ int_from 0 (xs ++ d ∷ [])
unfolding int_of
int_of-snoc [] d = refl
int_of-snoc (x ∷ xs) d = refl

-- Reading a printed number gives it back.
int_of-digits : (n : ℕ) → int_of (digits n) ≡ some n
unfolding digits digits_from
int_of-digits n = elim (Bool-cases (ltb n 10)) [
  | inl e ↦ rw e (int_of-snoc [] (48 + n) ∙ rw e at (int_from-digits (suc n) n (omega arith)))
  | inr e ↦ rw e (int_of-snoc _ _ ∙ rw e at (int_from-digits (suc n) n (omega arith)))
]

read_line-digits : (xs rest : List ℕ) → All IsDigit xs → read_line (xs ++ (10 ∷ rest)) ≡ (xs, rest)
unfolding read_line
read_line-digits [] rest h = refl
read_line-digits (x ∷ xs) rest (h, more) = rw (read_line-digits xs rest more) (ground arith)

-- The bootstrap takes out of the frame exactly the bytes of the code, and leaves exactly the bytes
-- of the input, whatever the two contain.
pub unframe-frame_payload :
    (encode : Text → List ℕ) (code stdin : Text)
    → unframe (frame_payload encode code stdin) ≡ some (encode code, encode stdin)
unfolding unframe frame_payload read_source
unframe-frame_payload encode code stdin =
    let body = encode code in
    rw
      (
        read_line-digits (digits (length body)) (body ++ encode stdin)
            (unfold digits in digits_from-IsDigit (suc (length body)) (length body)),
        int_of-digits (length body),
        take-append body (encode stdin),
        drop-append body (encode stdin),
      )
      refl
