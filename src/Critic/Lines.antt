-- ===== src/Critic/Lines.antt =====
-- The last line of an error output (`_last_meaningful_line` of cognitivetree/feedback/
-- execution_critic.py).
use cognitive_tree_ai.Prelude.{
  ℕ, ◌≤◌, ◌≡◌, ◌≢◌, ◌∙◌, ◌⊎◌, refl, sym, ap, subst, Text, is_space, strip, true, Bool-cases, inl,
  inr, List, [], ◌∷◌, ◌++◌, reverse, All, All-append, arith,
}
use mathlib.Core.List.{append_assoc, append-nil, reverse-cons}
use cognitive_tree_ai.Prelude.Texts.Trimmed.{IsBlank, IsBlank-append, strip-parts, strip-IsBlank}
use cognitive_tree_ai.Critic.{is_break, split_lines, first_text, last_meaningful_line}

-- The characters that end a line.
pub data IsBreak (c : ℕ) : Type 0 where
  control : 10 ≤ c → c ≤ 13 → IsBreak c
  separator : 28 ≤ c → c ≤ 30 → IsBreak c
  next_line : c ≡ 133 → IsBreak c
  unicode : 8232 ≤ c → c ≤ 8233 → IsBreak c

is_break-IsBreak : (c : ℕ) → is_break c ≡ true → IsBreak c
unfolding is_break
is_break-IsBreak c e = elim (ranges e) [
  | inl (a, b) ↦ control a b
  | inr (inl (a, b)) ↦ separator a b
  | inr (inr (inl q)) ↦ next_line q
  | inr (inr (inr (a, b))) ↦ unicode a b
]
  where
    ranges :
        is_break c ≡ true
        → ((10 ≤ c) × (c ≤ 13)) ⊎ ((28 ≤ c) × (c ≤ 30)) ⊎ (c ≡ 133) ⊎ ((8232 ≤ c) × (c ≤ 8233))
    ranges h = ground arith

IsBreak-is_break : (c : ℕ) → IsBreak c → is_break c ≡ true
unfolding is_break
IsBreak-is_break c (control a b) = ground arith
IsBreak-is_break c (separator a b) = ground arith
IsBreak-is_break c (next_line e) = ground arith
IsBreak-is_break c (unicode a b) = ground arith

is_break-is_space : (c : ℕ) → is_break c ≡ true → is_space c ≡ true
unfolding is_break is_space
is_break-is_space c e = ground arith

-- A text behind which a line begins, but for its indentation.
pub data Begins : Text → Type 0 where
  start : Begins []
  broken : (before : Text) (c : ℕ) → IsBreak c → Begins (before ++ c ∷ [])
  indented : (before : Text) (c : ℕ) → Begins before → is_space c ≡ true → Begins (before ++ c ∷ [])

-- The last line with text, stripped; the empty text, if there is none.
pub data LastLine (text : Text) : Text → Type 0 where
  blank : IsBlank text → LastLine text []
  filled :
      (before content after stripped : Text)
      → text ≡ before ++ content ++ after
      → Begins before
      → All (λ c. IsBreak c → ⊥) content
      → IsBlank after
      → strip content ≡ stripped
      → stripped ≢ []
      → LastLine text stripped

indentation : (x a : Text) → Begins x → IsBlank a → Begins (x ++ a)
indentation x [] b h = subst Begins (sym (append-nil x)) b
indentation x (c ∷ a) b h =
    subst Begins (append_assoc x (c ∷ []) a) (indentation (x ++ c ∷ []) a (indented x c b h.0) h.1)

begun : (x y : Text) → Begins x → Begins y → Begins (x ++ y)
begun x _ b start = subst Begins (sym (append-nil x)) b
begun x _ b (broken before c e) =
    subst Begins (append_assoc x before (c ∷ [])) (broken (x ++ before) c e)
begun x _ b (indented before c first e) =
    subst Begins (append_assoc x before (c ∷ []))
      (indented (x ++ before) c (begun x before b first) e)

-- The last of the lines that has text, by recursion from the first.
later : Text → Text → Text
later first [] = strip first
later first (c ∷ s) = c ∷ s

last_text : List Text → Text
unfolding later
last_text [] = []
last_text (l ∷ ls) = later l (last_text ls)

first_text-snoc : (ls : List Text) (l : Text) → first_text (ls ++ l ∷ []) ≡ later l (first_text ls)
unfolding first_text later
first_text-snoc [] l = go (strip l)
  where
    go : (s : Text) → elim s [ [] ↦ [] | c ∷ t ↦ c ∷ t ] ≡ s
    go [] = refl
    go (c ∷ t) = refl
first_text-snoc (k ∷ ls) l = go (first_text-snoc ls l) (strip k)
  where
    go :
        first_text (ls ++ l ∷ []) ≡ later l (first_text ls)
        → (s : Text)
        → elim s [ [] ↦ first_text (ls ++ l ∷ []) | c ∷ t ↦ c ∷ t ]
          ≡ later l (elim s [ [] ↦ first_text ls | c ∷ t ↦ c ∷ t ])
    go h [] = h
    go h (c ∷ t) = refl

first_text-reverse : (ls : List Text) → first_text (reverse ls) ≡ last_text ls
unfolding first_text last_text
first_text-reverse [] = refl
first_text-reverse (l ∷ ls) =
    ap first_text (reverse-cons l ls)
    ∙ first_text-snoc (reverse ls) l
    ∙ ap (later l) (first_text-reverse ls)

-- The lines of a text that stands behind the beginning of its first line.
with_first : Text → List Text → List Text
with_first p [] = p ∷ []
with_first p (l ∷ ls) = (p ++ l) ∷ ls

last_text-with_first : (ls : List Text) → last_text (with_first [] ls) ≡ last_text ls
unfolding with_first last_text later strip
last_text-with_first [] = refl
last_text-with_first (l ∷ ls) = refl

strip-cases :
    (p after : Text) → All (λ c. IsBreak c → ⊥) p → IsBlank after → LastLine (p ++ after) (strip p)
strip-cases p after h k = go (strip p) refl
  where
    go : (s : Text) → strip p ≡ s → LastLine (p ++ after) s
    go [] e = blank (IsBlank-append p after (strip-IsBlank p e) k)
    go (c ∷ s) e = filled [] p after (c ∷ s) refl Begins.start h k e (λ q. cc)

-- A line break behind the beginning of a line: the last line is one of those that follow, or else
-- the beginning itself.
later-LastLine :
    (p : Text) (c : ℕ) (s line : Text)
    → All (λ c. IsBreak c → ⊥) p
    → IsBreak c
    → is_space c ≡ true
    → LastLine s line
    → LastLine (p ++ c ∷ s) (later p line)
unfolding later
later-LastLine p c s line h b space (blank k) = strip-cases p (c ∷ s) h (space, k)
later-LastLine p c s _ h b space (filled before content after [] q first n k e ne) =
    absurd (ne refl)
later-LastLine p c s _ h b space (filled before content after (d ∷ t) q first n k e ne) =
    filled (p ++ c ∷ before) content after (d ∷ t)
      (ap (λ x. p ++ c ∷ x) q
        ∙ sym (append_assoc p (c ∷ before ++ content) after)
        ∙ ap (λ x. x ++ after) (sym (append_assoc p (c ∷ before) content)))
      (subst Begins (append_assoc p (c ∷ []) before)
        (begun (p ++ c ∷ []) before (broken p c b) first))
      n k e ne

carried :
    (p : Text) (c : ℕ) (ls : List Text)
    → with_first p (elim ls [ [] ↦ (c ∷ []) ∷ [] | l ∷ rest ↦ (c ∷ l) ∷ rest ])
      ≡ with_first (p ++ c ∷ []) ls
unfolding with_first
carried p c [] = refl
carried p c (l ∷ rest) = ap (λ x. x ∷ rest) (sym (append_assoc p (c ∷ []) l))

split_lines-LastLine :
    (s p : Text)
    → All (λ c. IsBreak c → ⊥) p
    → LastLine (p ++ s) (last_text (with_first p (split_lines s)))
unfolding split_lines last_text with_first later
split_lines-LastLine [] p h = strip-cases p [] h tt
split_lines-LastLine (c ∷ s) p h = elim (Bool-cases (is_break c)) [
  | inl e ↦
      rw (e, append-nil p)
        (later-LastLine p c s (last_text (split_lines s)) h (is_break-IsBreak c e)
          (is_break-is_space c e)
          (subst (LastLine s) (last_text-with_first (split_lines s))
            (split_lines-LastLine s [] tt)))
  | inr e ↦ rw e (
      subst (LastLine (p ++ c ∷ s)) (ap last_text (sym (carried p c (split_lines s)))) (
        subst (λ x. LastLine x (last_text (with_first (p ++ c ∷ []) (split_lines s))))
          (append_assoc p (c ∷ []) s)
          (split_lines-LastLine s (p ++ c ∷ []) (
            All-append (λ d. IsBreak d → ⊥) p (c ∷ []) h (λ b. cc (e, IsBreak-is_break c b), tt)))))
]

-- The whole error output begins and ends with white space that is stripped off first.
widened :
    (a b text line : Text)
    → IsBlank a
    → IsBlank b
    → LastLine text line
    → LastLine (a ++ text ++ b) line
widened a b text _ h k (blank m) =
    blank (IsBlank-append (a ++ text) b (IsBlank-append a text h m) k)
widened a b text line h k (filled before content after _ q first n m e ne) =
    filled (a ++ before) content (after ++ b) line (ap (λ x. a ++ x ++ b) q ∙ simp append_assoc)
      (begun a before (indentation [] a start h) first) n (IsBlank-append after b m k) e ne

-- The line that the critic reads is the last one that has text.
pub last_meaningful_line-LastLine : (stderr : Text) → LastLine stderr (last_meaningful_line stderr)
unfolding last_meaningful_line
last_meaningful_line-LastLine stderr =
    let (a, b, q, h, k) = strip-parts stderr in
    let ls = split_lines (strip stderr) in
    subst (λ x. LastLine x (first_text (reverse ls))) (sym q)
      (widened a b (strip stderr) (first_text (reverse ls)) h k (
        subst (LastLine (strip stderr)) (last_text-with_first ls ∙ sym (first_text-reverse ls))
          (split_lines-LastLine (strip stderr) [] tt)))
