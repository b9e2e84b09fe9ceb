-- ===== src/Llm/Parsing/Slices.antt =====
-- What `extract_json_object` finds.
use cognitive_tree_ai.Prelude.{
  ℕ, zero, suc, ◌-◌, ◌⊎◌, ◌≢◌, arith, ◌==◌, ==_iff, ◌≡◌, ◌∙◌, inl, inr, refl, sym, ap, subst, Text,
  Bool, true, false, Option, none, some, [], ◌∷◌, ◌++◌, if◌then◌else◌, Bool-cases,
}
use cognitive_tree_ai.Llm.Parsing.{
  Scanner, within_string, between_strings, outside, scan_char, closes, prefix, balanced, Parsed,
  object, other, dict_of, decode, attempt, extract_json_object,
}

-- `slice` is scanned from the state `s`, and its last character is the one that closes.
data Closed : Scanner → Text → Type 0 where
  last : (s : Scanner) (c : ℕ) → closes c s ≡ true → Closed s (c ∷ [])
  more :
      (s : Scanner) (c : ℕ) {slice : Text}
      → closes c s ≡ false
      → Closed (scan_char c s) slice
      → Closed s (c ∷ slice)

-- What a scan finds is a beginning of the text that closes at its end and not before.
abbrev Slice : Scanner → Text → Option Text → Type 0
Slice s text none = Unit
Slice s text (some slice) = Closed s slice × ((post : Text) × (text ≡ slice ++ post))

balanced-Slice : (s : Scanner) (text : Text) → Slice s text (balanced s text)
unfolding balanced
balanced-Slice s [] = tt
balanced-Slice s (c ∷ text) = elim (Bool-cases (closes c s)) [
  | inl e ↦ rw e (last s c e, (text, refl))
  | inr e ↦ rw e (longer e (balanced (scan_char c s) text) (balanced-Slice (scan_char c s) text))
]
  where
    longer :
        closes c s ≡ false
        → (o : Option Text) → Slice (scan_char c s) text o
        → Slice s (c ∷ text) (prefix c o)
    longer e none h = unfold prefix in tt
    longer e (some slice) h = unfold prefix in (more s c e h.0, (h.1.0, ap (λ t. c ∷ t) h.1.1))

-- The rest of an object, up to the brace that closes it, by the number of braces that are open: a
-- brace outside a string opens or closes, and a quote begins a string.
mutual
  pub data Rest : ℕ → Text → Type 0 where
    close_last : (c : ℕ) → c ≡ 125 → Rest 1 (c ∷ [])
    close : {n : ℕ} {s : Text} (c : ℕ) → c ≡ 125 → Rest (suc n) s → Rest (suc (suc n)) (c ∷ s)
    deeper : {n : ℕ} {s : Text} (c : ℕ) → c ≡ 123 → Rest (suc n) s → Rest n (c ∷ s)
    quote : {n : ℕ} {s : Text} (c : ℕ) → c ≡ 34 → Quoted n s → Rest n (c ∷ s)
    plain : {n : ℕ} {s : Text} (c : ℕ) → c ≢ 34 → c ≢ 123 → c ≢ 125 → Rest n s → Rest n (c ∷ s)

  -- Within a string: a backslash takes the next character with it, and a quote ends the string.
  pub data Quoted : ℕ → Text → Type 0 where
    escape : {n : ℕ} {s : Text} (c d : ℕ) → c ≡ 92 → Quoted n s → Quoted n (c ∷ d ∷ s)
    unquote : {n : ℕ} {s : Text} (c : ℕ) → c ≡ 34 → Rest n s → Quoted n (c ∷ s)
    inner : {n : ℕ} {s : Text} (c : ℕ) → c ≢ 92 → c ≢ 34 → Quoted n s → Quoted n (c ∷ s)

abbrev quoted : ℕ → Bool → Scanner
quoted n escaped = record { depth = n; in_string = true; escaped = escaped }

-- One more character of a slice.
Closed-cases :
    (s : Scanner) (c : ℕ) (text : Text)
    → Closed s (c ∷ text)
    → ((closes c s ≡ true) × (text ≡ [])) ⊎ ((closes c s ≡ false) × Closed (scan_char c s) text)
Closed-cases s c _ (Closed.last _ _ e) = inl (e, refl)
Closed-cases s c text (Closed.more _ _ e h) = inr (e, h)

differs : (c d : ℕ) → (c == d) ≡ false → c ≢ d
differs c d e q = cc (e, (==_iff c d).1 q)

-- What a slice says of its first character, once that is known to be `d`.
at_char :
    (s : Scanner) (c d : ℕ) (text : Text)
    → c ≡ d
    → Closed s (c ∷ text)
    → ((closes d s ≡ true) × (text ≡ [])) ⊎ ((closes d s ≡ false) × Closed (scan_char d s) text)
at_char s c d text e h = Closed-cases s d text (subst (λ x. Closed s (x ∷ text)) e h)

-- A closing brace.
closing-Rest :
    (c : ℕ) (text : Text) (n : ℕ)
    → c ≡ 125
    → ((m : ℕ) → Closed (outside (suc m)) text → Rest (suc m) text)
    → Closed (outside (suc n)) (c ∷ text)
    → Rest (suc n) (c ∷ text)
unfolding closes scan_char between_strings
closing-Rest c text zero e go h = elim (at_char _ c 125 text e h) [
  | inl (_, nil) ↦ subst (λ t. Rest 1 (c ∷ t)) (sym nil) (Rest.close_last c e)
  | inr (k, _) ↦ absurd (cc)
]
closing-Rest c text (suc n) e go h = elim (at_char _ c 125 text e h) [
  | inl (k, _) ↦ absurd (omega (arith, (==_iff (suc (suc n) - 1) 0).0 k))
  | inr (_, k) ↦ Rest.close c e (go n (subst (λ d. Closed (outside d) text) (omega arith) k))
]

mutual
  unfolding closes scan_char within_string between_strings

  outside-Rest : (text : Text) (n : ℕ) → Closed (outside (suc n)) text → Rest (suc n) text
  outside-Rest [] n h = elim h [ ]
  outside-Rest (c ∷ text) n h = elim (Bool-cases (c == 34)) [
    | inl q ↦ elim (at_char _ c 34 text ((==_iff c 34).0 q) h) [
      | inl (e, _) ↦ absurd (cc)
      | inr (_, k) ↦ Rest.quote c ((==_iff c 34).0 q) (within-Quoted text n k)
    ]
    | inr q ↦ elim (Bool-cases (c == 123)) [
      | inl o ↦ elim (at_char _ c 123 text ((==_iff c 123).0 o) h) [
        | inl (e, _) ↦ absurd (cc)
        | inr (_, k) ↦
            Rest.deeper c ((==_iff c 123).0 o)
              (outside-Rest text (suc n) (subst (λ d. Closed (outside d) text) (omega arith) k))
      ]
      | inr o ↦ elim (Bool-cases (c == 125)) [
        | inl e ↦ closing-Rest c text n ((==_iff c 125).0 e) (λ m k. outside-Rest text m k) h
        | inr e ↦ elim (Closed-cases _ c text h) [
          | inl (k, _) ↦ absurd (cc (rw e at k))
          | inr (_, k) ↦
              Rest.plain c (differs c 34 q) (differs c 123 o) (differs c 125 e)
                (outside-Rest text n (rw (q, o, e) at k))
        ]
      ]
    ]
  ]

  within-Quoted : (text : Text) (n : ℕ) → Closed (quoted (suc n) false) text → Quoted (suc n) text
  within-Quoted [] n h = elim h [ ]
  within-Quoted (c ∷ text) n h = elim (Closed-cases _ c text h) [
    | inl (k, _) ↦ absurd (cc)
    | inr (_, k) ↦ elim (Bool-cases (c == 92)) [
      | inl e ↦ escaped-Quoted c text n ((==_iff c 92).0 e) (rw e at k)
      | inr e ↦ elim (Bool-cases (c == 34)) [
        | inl q ↦ Quoted.unquote c ((==_iff c 34).0 q) (outside-Rest text n (rw (e, q) at k))
        | inr q ↦
            Quoted.inner c (differs c 92 e) (differs c 34 q) (within-Quoted text n (rw (e, q) at k))
      ]
    ]
  ]

  escaped-Quoted :
      (c : ℕ) (text : Text) (n : ℕ)
      → c ≡ 92
      → Closed (quoted (suc n) true) text
      → Quoted (suc n) (c ∷ text)
  escaped-Quoted c [] n e h = elim h [ ]
  escaped-Quoted c (d ∷ text) n e h = elim (Closed-cases _ d text h) [
    | inl (k, _) ↦ absurd (cc)
    | inr (_, k) ↦ Quoted.escape c d e (within-Quoted text n k)
  ]

-- A slice that begins with a brace.
object-Rest : (tail : Text) → Closed (outside 0) (123 ∷ tail) → Rest 1 tail
unfolding closes scan_char within_string between_strings
object-Rest tail h = elim (Closed-cases _ 123 tail h) [
  | inl (k, _) ↦ absurd (cc)
  | inr (_, k) ↦ outside-Rest tail 0 (subst (λ d. Closed (outside d) tail) (omega arith) k)
]

-- Where an object was found: a slice of the text that begins with a brace.
pub record Found {D : Type 0} (loads : Text → Option (Parsed D)) (text : Text) (d : D)
    : Type 0 where
  pub before : Text
  pub tail : Text
  pub after : Text
  pub splits : text ≡ before ++ (123 ∷ tail) ++ after
  pub closed : Rest 1 tail
  pub parsed : loads (123 ∷ tail) ≡ some (object d)

module _ {D : Type 0} (loads : Text → Option (Parsed D)) where
  later : (c : ℕ) (text : Text) (d : D) → Found loads text d → Found loads (c ∷ text) d
  later c text d f = record {
    before = c ∷ f.before;
    tail = f.tail;
    after = f.after;
    splits = ap (λ t. c ∷ t) f.splits;
    closed = f.closed;
    parsed = f.parsed;
  }

  some_of : {x y : D} → ◌≡◌ {A = Option D} (some x) (some y) → x ≡ y
  some_of q = cc

  if_true : (b : Bool) (x y : Option D) → b ≡ true → (if b then x else y) ≡ x
  if_true b x y e = rw e refl

  no_slice : {X : Type 0} {s : Scanner} → Closed s [] → X
  no_slice h = elim h [ ]

  first_of : {c x : ℕ} {s t : Text} → ◌≡◌ {A = Text} (c ∷ s) (x ∷ t) → c ≡ x
  first_of q = cc

  -- What the parser makes of a slice that begins with a brace.
  parse :
      (c : ℕ) (text : Text) (d : D) (next : Option D) (x : ℕ) (tail post : Text)
      → x ≡ 123
      → (next ≡ some d → Found loads (c ∷ text) d)
      → Closed (outside 0) (x ∷ tail)
      → ◌≡◌ {A = Text} (c ∷ text) ((x ∷ tail) ++ post)
      → (p : Option (Parsed D)) → loads (x ∷ tail) ≡ p
      → decode loads next p ≡ some d
      → Found loads (c ∷ text) d
  unfolding decode dict_of
  parse c text d next x tail post brace rest closed splits none e q = rest q
  parse c text d next x tail post brace rest closed splits (some other) e q = absurd (cc)
  parse c text d next x tail post brace rest closed splits (some (object y)) e q = record {
    before = [];
    tail = tail;
    after = post;
    splits = splits ∙ ap (λ k. (k ∷ tail) ++ post) brace;
    closed = object-Rest tail (subst (λ k. Closed (outside 0) (k ∷ tail)) brace closed);
    parsed = ap (λ k. loads (k ∷ tail)) (sym brace) ∙ e ∙ ap (λ z. some (object z)) (some_of q);
  }

  -- An object that `extract_json_object` returns is what the parser makes of a contiguous slice of
  -- the text. The slice begins with a brace and ends with the brace that closes it: the first one
  -- outside a string by which as many braces are closed as were opened.
  pub extract_json_object-Found :
      (text : Text) (d : D) → extract_json_object loads text ≡ some d → Found loads text d
  unfolding extract_json_object attempt decode dict_of
  extract_json_object-Found [] d q = absurd (cc)
  extract_json_object-Found (c ∷ text) d q = elim (Bool-cases (c == 123)) [
    | inr other_char ↦ later c text d (extract_json_object-Found text d (rw other_char at q))
    | inl brace ↦
        start c text d (extract_json_object loads text) ((==_iff c 123).0 brace)
          (λ e. later c text d (extract_json_object-Found text d e))
          (balanced (outside 0) (c ∷ text)) (balanced-Slice (outside 0) (c ∷ text))
          (sym (if_true (c == 123) _ _ brace) ∙ q)
  ]
    where
      start :
          (c : ℕ) (text : Text) (d : D) (next : Option D)
          → c ≡ 123
          → (next ≡ some d → Found loads (c ∷ text) d)
          → (o : Option Text) → Slice (outside 0) (c ∷ text) o
          → attempt loads next o ≡ some d
          → Found loads (c ∷ text) d
      start c text d next brace rest none h q = rest (unfold attempt in q)
      start c text d next brace rest (some []) h q = no_slice h.0
      start c text d next brace rest (some (x ∷ tail)) h q =
          parse c text d next x tail h.1.0 (sym (first_of h.1.1) ∙ brace) rest h.0 h.1.1
            (loads (x ∷ tail)) refl (unfold attempt in q)
