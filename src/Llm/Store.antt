-- ===== src/Llm/Store.antt =====
-- The store keeps its bound and its keys apart, and it evicts the least recently used entry.
use cognitive_tree_ai.Prelude.{
  ℕ, suc, ◌+◌, ◌-◌, ◌≤◌, ◌<◌, ◌≡◌, ◌∙◌, refl, sym, ap, subst, FloatOps, Bool, true, false, some,
  List, [], ◌∷◌, ◌++◌, length, All, All-keep, arith, Bool-cases, Option-cases, inl, inr, keep, ltb,
  length-append,
}
use cognitive_tree_ai.Llm.{
  CompletionRequest, CompletionResponse, Entry, Cache, same_request, find, evict, get, put,
  looked_up,
}
use cognitive_tree_ai.Llm.Keys.{
  IsKeyTest, NoKey, DistinctKeys, others, NoKey-others, find-last, assign-last, find-moved,
  NoKey-same, DistinctKeys-snoc,
}

module _ (ops : FloatOps) where
  pub record IsCache (c : Cache) : Type 0 where
    pub bound : length c.entries ≤ c.max_entries
    pub capacity : 0 < c.max_entries
    pub keys : DistinctKeys ops c.entries

  evict-length : (n : ℕ) (es : List Entry) → length (evict ops n es) ≤ n
  unfolding evict
  evict-length n [] = omega arith
  evict-length n (e ∷ es) = elim (Bool-cases (ltb n (length (e ∷ es)))) [
    | inl more ↦ rw more (evict-length n es)
    | inr fits ↦ rw fits (ground arith)
  ]

  evict-All {κ} : (P : Entry → Type κ) (n : ℕ) (es : List Entry) → All P es → All P (evict ops n es)
  unfolding evict
  evict-All P n [] h = tt
  evict-All P n (e ∷ es) (q, h) = elim (Bool-cases (ltb n (length (e ∷ es)))) [
    | inl more ↦ rw more (evict-All P n es h)
    | inr fits ↦ rw fits (q, h)
  ]

  evict-DistinctKeys :
      (n : ℕ) (es : List Entry) → DistinctKeys ops es → DistinctKeys ops (evict ops n es)
  unfolding evict
  evict-DistinctKeys n [] h = tt
  evict-DistinctKeys n (e ∷ es) (q, h) = elim (Bool-cases (ltb n (length (e ∷ es)))) [
    | inl more ↦ rw more (evict-DistinctKeys n es h)
    | inr fits ↦ rw fits (q, h)
  ]

  -- The newest entry stays.
  evict-last :
      (n : ℕ) (es : List Entry) (e : Entry)
      → evict ops (suc n) (es ++ e ∷ []) ≡ evict ops n es ++ e ∷ []
  unfolding evict
  evict-last n [] e = ground arith
  evict-last n (x ∷ es) e =
      let len : length (es ++ e ∷ []) ≡ suc (length es) =
        length-append es (e ∷ []) ∙ (omega arith) in
      elim (Bool-cases (ltb n (suc (length es)))) [
        | inl more ↦ rw (len, more) (rw (longer n (suc (length es)) true more) (evict-last n es e))
        | inr fits ↦ rw (len, fits) (rw (longer n (suc (length es)) false fits) refl)
      ]
    where
      longer : (a b : ℕ) (t : Bool) → ltb a b ≡ t → ltb (suc a) (suc b) ≡ t
      longer a b t h = ground arith

  -- Where nothing is too many, nothing goes.
  pub evict-fits : (n : ℕ) (es : List Entry) → length es ≤ n → evict ops n es ≡ es
  unfolding evict
  evict-fits n [] h = refl
  evict-fits n (e ∷ es) h = elim (Bool-cases (ltb n (length (e ∷ es)))) [
    | inl more ↦ absurd (ground arith)
    | inr fits ↦ rw fits refl
  ]

  keep-DistinctKeys :
      (p : Entry → Bool) (es : List Entry) → DistinctKeys ops es → DistinctKeys ops (keep p es)
  unfolding keep
  keep-DistinctKeys p [] h = tt
  keep-DistinctKeys p (e ∷ es) (n, h) = elim (Bool-cases (p e)) [
    | inl y ↦ rw y (All-keep _ p es n, keep-DistinctKeys p es h)
    | inr o ↦ rw o (keep-DistinctKeys p es h)
  ]

  module _ (laws : IsKeyTest ops) where
    -- `put` makes the request's entry the newest, with the response, and drops the oldest of the
    -- other entries until the rest fits.
    pub put-newest :
        (r : CompletionRequest) (v : CompletionResponse) (c : Cache)
        → IsCache c
        → same_request ops r r ≡ true
        → (k : CompletionRequest) × (same_request ops k r ≡ true)
          × ((put ops r v c).entries
              ≡ evict ops (c.max_entries - 1) (others ops r c.entries) ++ (k, v) ∷ [])
    unfolding put
    put-newest r v c h s =
        let (k, same, eq) = assign-last ops laws r v c.entries s h.keys in
        (
          k,
          same,
          ap (evict ops c.max_entries) eq
              ∙ ap (λ n. evict ops n (others ops r c.entries ++ (k, v) ∷ []))
                  (the_suc c.max_entries h.capacity)
              ∙ evict-last (c.max_entries - 1) (others ops r c.entries) (k, v),
        )
      where
        the_suc : (n : ℕ) → 0 < n → n ≡ suc (n - 1)
        the_suc n lt = omega arith

    last-IsCache :
        (c : Cache) (es : List Entry) (r k : CompletionRequest) (v : CompletionResponse) (hits : ℕ)
        → IsCache c
        → same_request ops k r ≡ true
        → NoKey ops r es
        → DistinctKeys ops es
        → suc (length es) ≤ c.max_entries
        → IsCache (record c { entries = es ++ (k, v) ∷ []; hits = hits })
    last-IsCache c es r k v hits h same n d le = record {
      bound = omega (arith, length-append es ((k, v) ∷ []), le);
      capacity = h.capacity;
      keys = DistinctKeys-snoc ops laws es k v d (NoKey-same ops laws k r es same n);
    }

    -- `put` keeps the store within its capacity and its keys apart.
    pub put-IsCache :
        (r : CompletionRequest) (v : CompletionResponse) (c : Cache)
        → IsCache c
        → same_request ops r r ≡ true
        → IsCache (put ops r v c)
    unfolding put
    put-IsCache r v c h s =
        let (k, same, eq) = put-newest r v c h s in
        let older = evict ops (c.max_entries - 1) (others ops r c.entries) in
        subst (λ es. IsCache (record c { entries = es })) (sym eq)
          (last-IsCache c older r k v c.hits h same (evict-All _ _ _ (NoKey-others ops r c.entries))
            (evict-DistinctKeys _ _ (keep-DistinctKeys _ c.entries h.keys))
            (omega (arith, evict-length (c.max_entries - 1) (others ops r c.entries), h.capacity)))

    -- `get` counts a hit or a miss, and on a hit makes the entry the newest; it keeps the store
    -- within its capacity and its keys apart.
    pub get-IsCache : (r : CompletionRequest) (c : Cache) → IsCache c → IsCache (get ops r c).1
    unfolding get looked_up
    get-IsCache r c h = elim (Option-cases (find ops r c.entries)) [
      | inl e ↦ rw (e, get) (record { bound = h.bound; capacity = h.capacity; keys = h.keys })
      | inr (v, e) ↦
          let (k, same, eq, l) = find-moved ops laws r v c.entries h.keys e in
          rw (e, get)
            (subst (λ es. IsCache (record c { entries = es; hits = c.hits + 1 })) (sym eq)
              (last-IsCache c (others ops r c.entries) r k v (c.hits + 1) h same
                (NoKey-others ops r c.entries) (keep-DistinctKeys _ c.entries h.keys)
                (omega (arith, l, h.bound))))
    ]

    -- In a store with a capacity of at least one and with distinct keys, `get` right after `put`
    -- returns the stored response.
    pub get-put :
        (r : CompletionRequest) (v : CompletionResponse) (c : Cache)
        → IsCache c
        → same_request ops r r ≡ true
        → (get ops r (put ops r v c)).0 ≡ some v
    unfolding get looked_up
    get-put r v c h s =
        let (k, same, eq) = put-newest r v c h s in
        let found : find ops r (put ops r v c).entries ≡ some v =
          ap (find ops r) eq
          ∙ find-last ops r k v (evict ops (c.max_entries - 1) (others ops r c.entries))
              (evict-All _ _ _ (NoKey-others ops r c.entries)) same in
        rw (found, get) refl
