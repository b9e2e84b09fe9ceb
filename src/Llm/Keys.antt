-- ===== src/Llm/Keys.antt =====
-- The entries of the store by their keys.
use cognitive_tree_ai.Prelude.{
  suc, ◌≡◌, ◌∙◌, refl, sym, ap, FloatOps, true, false, Option, some, List, [], ◌∷◌, ◌++◌, not,
  length, All, All-append, All-map, Bool-cases, inl, inr, keep,
}
use cognitive_tree_ai.Llm.{
  CompletionRequest, CompletionResponse, Entry, same_request, find, assign, move_to_end,
}

-- The laws of `==` between requests: floats other than NaN compare like numbers.
pub record IsKeyTest (ops : FloatOps) : Type 0 where
  pub symmetric :
      (a b : CompletionRequest) → same_request ops a b ≡ true → same_request ops b a ≡ true
  pub transitive :
      (a b c : CompletionRequest)
      → same_request ops a b ≡ true
      → same_request ops b c ≡ true
      → same_request ops a c ≡ true

some_of : {a b : CompletionResponse} → ◌≡◌ {A = Option CompletionResponse} (some a) (some b) → a ≡ b
some_of q = cc

module _ (ops : FloatOps) where
  -- No entry has the key `r`.
  abbrev pub NoKey : CompletionRequest → List Entry → Type 0
  NoKey r es = All (λ (e : Entry). same_request ops e.0 r ≡ false) es

  -- No two entries have the same key.
  abbrev pub DistinctKeys : List Entry → Type 0
  DistinctKeys [] = Unit
  DistinctKeys (e ∷ es) = NoKey e.0 es × DistinctKeys es

  -- The entries with other keys.
  abbrev pub others : CompletionRequest → List Entry → List Entry
  others r es = keep (λ (e : Entry). not (same_request ops e.0 r)) es

  others-NoKey : (r : CompletionRequest) (es : List Entry) → NoKey r es → others r es ≡ es
  unfolding keep
  others-NoKey r [] h = refl
  others-NoKey r (e ∷ es) (n, h) = rw n (ap (λ rest. e ∷ rest) (others-NoKey r es h))

  pub NoKey-others : (r : CompletionRequest) (es : List Entry) → NoKey r (others r es)
  unfolding keep
  NoKey-others r [] = tt
  NoKey-others r (e ∷ es) = elim (Bool-cases (same_request ops e.0 r)) [
    | inl same ↦ rw same (NoKey-others r es)
    | inr other ↦ rw other (other, NoKey-others r es)
  ]

  -- A key that is looked up is found in the last place if it stands nowhere before.
  pub find-last :
      (r k : CompletionRequest) (v : CompletionResponse) (es : List Entry)
      → NoKey r es
      → same_request ops k r ≡ true
      → find ops r (es ++ (k, v) ∷ []) ≡ some v
  unfolding find
  find-last r k v [] h s = rw s refl
  find-last r k v (e ∷ es) (n, h) s = rw n (find-last r k v es h s)

  module _ (laws : IsKeyTest ops) where
    clash :
        (a b c : CompletionRequest)
        → same_request ops a b ≡ true
        → same_request ops c b ≡ false
        → same_request ops c a ≡ false
    clash a b c s n = elim (Bool-cases (same_request ops c a)) [
      | inl e ↦ absurd (cc (laws.transitive c a b e s, n))
      | inr e ↦ e
    ]

    pub NoKey-same :
        (a b : CompletionRequest) (es : List Entry)
        → same_request ops a b ≡ true
        → NoKey b es
        → NoKey a es
    NoKey-same a b es s h = All-map _ _ es (λ e n. clash a b e.0 s n) h

    -- What an assignment and the move to the end amount to.
    pub assign-last :
        (r : CompletionRequest) (v : CompletionResponse) (es : List Entry)
        → same_request ops r r ≡ true
        → DistinctKeys es
        → (k : CompletionRequest) × (same_request ops k r ≡ true)
          × (move_to_end ops r (assign ops r v es) ≡ others r es ++ (k, v) ∷ [])
    unfolding move_to_end assign keep
    assign-last r v [] s d = (r, s, rw s refl)
    assign-last r v ((k, x) ∷ es) s (n, d) = elim (Bool-cases (same_request ops k r)) [
      | inl e ↦ (
        k,
        e,
        rw e (
            rw e (
              ap (λ rest. rest ++ (k, v) ∷ [])
                (sym (others-NoKey r es (NoKey-same r k es (laws.symmetric k r e) n))))),
      )
      | inr o ↦ let (key, same, eq) = assign-last r v es s d in (key, same, rw o (rw (o, eq) refl))
    ]

    -- What a lookup that succeeds and the move to the end amount to.
    pub find-moved :
        (r : CompletionRequest) (v : CompletionResponse) (es : List Entry)
        → DistinctKeys es
        → find ops r es ≡ some v
        → (k : CompletionRequest) × (same_request ops k r ≡ true)
          × (move_to_end ops r es ≡ others r es ++ (k, v) ∷ [])
          × (length es ≡ suc (length (others r es)))
    unfolding move_to_end find keep
    find-moved r v [] d q = absurd (cc)
    find-moved r v ((k, x) ∷ es) (n, d) q = elim (Bool-cases (same_request ops k r)) [
      | inl e ↦
          let rest = others-NoKey r es (NoKey-same r k es (laws.symmetric k r e) n) in
          let is : x ≡ v = some_of (rw (e, find) at q) in
          (
            k,
            e,
            rw e (ap (λ y. es ++ (k, y) ∷ []) is ∙ ap (λ ys. ys ++ (k, v) ∷ []) (sym rest)),
            rw e (ap (λ ys. suc (length ys)) (sym rest)),
          )
      | inr o ↦
          let (key, same, eq, l) = find-moved r v es d (rw (o, find) at q) in
          (key, same, rw o (ap (λ rest. (k, x) ∷ rest) eq), rw o (ap suc l))
    ]

    pub DistinctKeys-snoc :
        (es : List Entry) (k : CompletionRequest) (v : CompletionResponse)
        → DistinctKeys es
        → NoKey k es
        → DistinctKeys (es ++ (k, v) ∷ [])
    DistinctKeys-snoc [] k v d n = (tt, tt)
    DistinctKeys-snoc (e ∷ es) k v (h, d) (m, n) =
        (All-append _ es ((k, v) ∷ []) h (flip e.0 m, tt), DistinctKeys-snoc es k v d n)
      where
        flip : (a : CompletionRequest) → same_request ops a k ≡ false → same_request ops k a ≡ false
        flip a q = elim (Bool-cases (same_request ops k a)) [
          | inl s ↦ absurd (cc (laws.symmetric k a s, q))
          | inr s ↦ s
        ]
