-- ===== src/Llm/Replay.antt =====
-- The caching client replays what it stored.
use cognitive_tree_ai.Prelude.{
  ◌+◌, ◌≡◌, ◌∙◌, refl, sym, ap, subst, FloatOps, zero_f, Bool, true, some, ◌||◌, Option-cases, inl,
  inr,
}
use cognitive_tree_ai.Faults.{Result, ok, raise}
use cognitive_tree_ai.Llm.{
  CompletionRequest, CompletionResponse, Cache, Client, same_request, find, move_to_end, get, put,
  looked_up, replayed, store_answer, answer, complete,
}
use cognitive_tree_ai.Llm.Keys.{IsKeyTest, NoKey-others, find-last, find-moved, others}
use cognitive_tree_ai.Llm.Store.{IsCache, get-put}

module _ (ops : FloatOps) {W : Type 0} (inner : Client W) (cache_sampled : Bool) where
  -- How a call of the client ends. After a success the next call with the same request is answered
  -- from the store: with the same text and model, no token, and without the client inside. A failure
  -- comes from the client inside, and nothing is stored.
  abbrev pub Completes :
      CompletionRequest → Cache → W → Result CompletionResponse × Cache × W → Type 0
  Completes r c w (ok v, c', w') = complete ops inner cache_sampled r (c', w') ≡ (
    ok (record { text = v.text; model = v.model; prompt_tokens = 0; completion_tokens = 0 }),
    (get ops r c').1,
    w',
  )
  Completes r c w (raise e, c', w') = (inner r w ≡ (raise e, w')) × (c'.entries ≡ c.entries)

  module _ (r : CompletionRequest)
      (kept : (cache_sampled || ops.eq r.temperature zero_f) ≡ true) where
    complete-get :
        (c : Cache) (w : W)
        → complete ops inner cache_sampled r (c, w) ≡ answer ops inner r (get ops r c) w
    unfolding complete
    complete-get c w = rw kept refl

    answered :
        (c : Cache) (v : CompletionResponse) (w : W)
        → (get ops r c).0 ≡ some v
        → complete ops inner cache_sampled r (c, w) ≡ (ok (replayed v), (get ops r c).1, w)
    unfolding answer
    answered c v w e = complete-get c w ∙ ap (λ o. answer ops inner r (o, (get ops r c).1) w) e

    get-hit :
        (c : Cache) (v : CompletionResponse)
        → find ops r c.entries ≡ some v
        → (get ops r c).0 ≡ some v
    unfolding get looked_up
    get-hit c v e = rw (e, get) refl

    module _ (laws : IsKeyTest ops) (self : same_request ops r r ≡ true) where
      stored :
          (c d : Cache) (w : W) (x : Result CompletionResponse × W)
          → inner r w ≡ x
          → IsCache ops d
          → d.entries ≡ c.entries
          → Completes r c w (store_answer ops inner r d x)
      unfolding store_answer
      stored c d w (ok v, w') q h same =
          answered (put ops r v d) v w' (get-put ops laws r v d h self)
      stored c d w (raise e, w') q h same = (q, same)

      -- With a cacheable request, a call that succeeds makes the store answer the next one, and a
      -- failure is that of the client inside and leaves the entries as they were.
      pub complete-Completes :
          (c : Cache) (w : W)
          → IsCache ops c
          → Completes r c w (complete ops inner cache_sampled r (c, w))
      unfolding get looked_up answer
      complete-Completes c w h = elim (Option-cases (find ops r c.entries)) [
        | inl e ↦
            subst (Completes r c w)
              (sym (complete-get c w ∙ ap (λ o. answer ops inner r (looked_up ops r c o) w) e))
              (stored c (record c { misses = c.misses + 1 }) w (inner r w) refl
                (record { bound = h.bound; capacity = h.capacity; keys = h.keys }) refl)
        | inr (v, e) ↦
            let (k, same, eq, l) = find-moved ops laws r v c.entries h.keys e in
            let d : Cache = record c { entries = move_to_end ops r c.entries; hits = c.hits + 1 } in
            subst (Completes r c w)
              (sym (complete-get c w ∙ ap (λ o. answer ops inner r (looked_up ops r c o) w) e))
              (answered d v w (
                get-hit d v (
                  ap (find ops r) eq
                  ∙ find-last ops r k v (others ops r c.entries) (NoKey-others ops r c.entries)
                      same)))
      ]
