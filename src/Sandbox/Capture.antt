-- ===== src/Sandbox/Capture.antt =====
-- A bounded reader keeps exactly the first bytes of its pipe.
use cognitive_tree_ai.Prelude.{
  ℕ, zero, suc, ◌+◌, ◌-◌, ◌≤◌, ◌<◌, ◌≡◌, ◌∙◌, ◌↔◌, ◌⊎◌, refl, sym, ap, subst, ltb→lt, true, List,
  [], ◌∷◌, ◌++◌, ltb, length, take, length-append, arith, Bool-cases, inl, inr,
}
use mathlib.Core.List.{append_assoc, append-nil}
use cognitive_tree_ai.Sandbox.{Reader, new_reader, keep_chunk, read_chunk, drain, join, data_of}

take-all : {A : Type 0} (n : ℕ) (xs : List A) → length xs ≤ n → take n xs ≡ xs
take-all zero [] h = refl
take-all zero (x ∷ xs) h = absurd (omega arith)
take-all (suc n) [] h = refl
take-all (suc n) (x ∷ xs) h = ap (λ ys. x ∷ ys) (take-all n xs (omega arith))

take-same : {A : Type 0} (m n : ℕ) (xs : List A) → m ≡ n → take m xs ≡ take n xs
take-same m n xs e = ap (λ k. take k xs) e

take-append :
    {A : Type 0} (n : ℕ) (xs ys : List A) → take n (xs ++ ys) ≡ take n xs ++ take (n - length xs) ys
take-append zero [] ys = take-same 0 (0 - 0) ys (omega arith)
take-append (suc n) [] ys = take-same (suc n) (suc n - 0) ys (omega arith)
take-append zero (x ∷ xs) ys = take-same 0 (0 - suc (length xs)) ys (omega arith)
take-append (suc n) (x ∷ xs) ys =
    ap (λ zs. x ∷ zs)
      (take-append n xs ys
        ∙ ap (λ zs. take n xs ++ zs)
            (take-same (n - length xs) (suc n - suc (length xs)) ys (omega arith)))

join-snoc :
    (chunks : List (List ℕ)) (chunk : List ℕ) → join (chunks ++ chunk ∷ []) ≡ join chunks ++ chunk
unfolding join
join-snoc [] chunk = append-nil chunk
join-snoc (c ∷ cs) chunk =
    ap (λ bs. c ++ bs) (join-snoc cs chunk) ∙ sym (append_assoc c (join cs) chunk)

-- Either the list is no longer than `n`, or exactly `n` of it are taken.
length-take_cases :
    {A : Type 0} (n : ℕ) (xs : List A)
    → (length xs ≤ n) ⊎ ((n ≤ length xs) × (length (take n xs) ≡ n))
length-take_cases zero xs = inr (omega arith, refl)
length-take_cases (suc n) [] = inl (omega arith)
length-take_cases (suc n) (x ∷ xs) = elim (length-take_cases n xs) [
  | inl le ↦ inl (omega arith)
  | inr (le, e) ↦ inr (omega arith, ap suc e)
]

-- What the reader holds after it has read the bytes `bs`.
record Holding (s : Reader) (cap : ℕ) (bs : List ℕ) : Type 0 where
  same_cap : s.cap ≡ cap
  bytes : join s.chunks ≡ take cap bs
  count : s.kept ≡ length (take cap bs)
  flag : (s.truncated ≡ true) ↔ (cap < length bs)

-- How many bytes are kept: all of them, or the cap.
count_cases :
    (s : Reader) (cap : ℕ) (bs : List ℕ)
    → Holding s cap bs
    → ((length bs ≤ cap) × (s.kept ≡ length bs)) ⊎ ((cap ≤ length bs) × (s.kept ≡ cap))
count_cases s cap bs h = elim (length-take_cases cap bs) [
  | inl le ↦ inl (le, h.count ∙ ap length (take-all cap bs le))
  | inr (le, e) ↦ inr (le, h.count ∙ e)
]

room-left :
    (s : Reader) (cap : ℕ) (bs : List ℕ) → Holding s cap bs → s.cap - s.kept ≡ cap - length bs
room-left s cap bs h = elim (count_cases s cap bs h) [
  | inl (le, e) ↦ omega (arith, h.same_cap)
  | inr (le, e) ↦ omega (arith, h.same_cap)
]

keep_chunk-cap :
    (chunk : List ℕ) (room : ℕ) (s : Reader)
    → ((keep_chunk chunk room s).cap ≡ s.cap) × ((keep_chunk chunk room s).truncated ≡ s.truncated)
unfolding keep_chunk
keep_chunk-cap chunk room s = elim (Bool-cases (ltb 0 room)) [
  | inl more ↦ rw more (refl, refl)
  | inr full ↦ rw full (refl, refl)
]

keep_chunk-bytes :
    (chunk : List ℕ) (room : ℕ) (s : Reader)
    → (join (keep_chunk chunk room s).chunks ≡ join s.chunks ++ take room chunk)
      × ((keep_chunk chunk room s).kept ≡ s.kept + length (take room chunk))
unfolding keep_chunk
keep_chunk-bytes chunk room s = elim (Bool-cases (ltb 0 room)) [
  | inl more ↦ rw more (join-snoc s.chunks (take room chunk), refl)
  | inr full ↦
      let none_left : take room chunk ≡ [] = take-same room 0 chunk (ground arith) in
      rw full (
        sym (ap (λ bs. join s.chunks ++ bs) none_left ∙ append-nil (join s.chunks)),
        omega (arith, ap length none_left),
      )
]

read_chunk-flag :
    (s : Reader) (cap : ℕ) (bs chunk : List ℕ)
    → Holding s cap bs
    → ((read_chunk chunk s).truncated ≡ true) ↔ (cap < length bs + length chunk)
unfolding read_chunk
read_chunk-flag s cap bs chunk h =
    let room = room-left s cap bs h in
    let same = (keep_chunk-cap chunk (s.cap - s.kept) s).1 in
    elim (Bool-cases (ltb (s.cap - s.kept) (length chunk))) [
      | inl over ↦ rw over (
        λ q. over_lt (s.cap - s.kept) (length bs) (length chunk) (ltb→lt _ _ over) room,
        λ lt. refl,
      )
      | inr fits ↦
          let within : length chunk ≤ cap - length bs = ground (arith, room) in
          rw (fits, same)
            (
              λ q. omega (arith, h.flag.0 q),
              λ lt. h.flag.1 (elim (count_cases s cap bs h) [
                | inl (le, e) ↦ absurd (omega arith)
                | inr (le, e) ↦ omega arith
              ]),
            )
    ]
  where
    over_lt : (room b c : ℕ) → room < c → room ≡ cap - b → cap < b + c
    over_lt room b c lt e = omega arith

read_chunk-Holding :
    (s : Reader) (cap : ℕ) (bs chunk : List ℕ)
    → Holding s cap bs
    → Holding (read_chunk chunk s) cap (bs ++ chunk)
unfolding read_chunk
read_chunk-Holding s cap bs chunk h =
    let room = room-left s cap bs h in
    let kept = keep_chunk-bytes chunk (s.cap - s.kept) s in
    let newly = take-same (s.cap - s.kept) (cap - length bs) chunk room in
    record {
      same_cap = (keep_chunk-cap chunk (s.cap - s.kept) s).0 ∙ h.same_cap;
      bytes =
          kept.0
          ∙ ap (λ xs. xs ++ take (s.cap - s.kept) chunk) h.bytes
          ∙ ap (λ xs. take cap bs ++ xs) newly
          ∙ sym (take-append cap bs chunk);
      count = omega (
        arith,
        kept.1,
        h.count,
        ap length newly,
        ap length (take-append cap bs chunk),
        length-append (take cap bs) (take (cap - length bs) chunk),
      );
      flag =
          subst (λ n. ((read_chunk chunk s).truncated ≡ true) ↔ (cap < n))
            (sym (length-append bs chunk)) (read_chunk-flag s cap bs chunk h);
    }

drain-Holding :
    (chunks : List (List ℕ)) (s : Reader) (cap : ℕ) (bs : List ℕ)
    → Holding s cap bs
    → Holding (drain chunks s) cap (bs ++ join chunks)
unfolding drain join
drain-Holding [] s cap bs h = subst (Holding s cap) (sym (append-nil bs)) h
drain-Holding (chunk ∷ rest) s cap bs h =
    subst (Holding (drain rest (read_chunk chunk s)) cap) (append_assoc bs chunk (join rest)) (
      drain-Holding rest (read_chunk chunk s) cap (bs ++ chunk)
        (read_chunk-Holding s cap bs chunk h))

new_reader-Holding : (cap : ℕ) → Holding (new_reader cap) cap []
unfolding new_reader join
new_reader-Holding zero = record {
  same_cap = refl;
  bytes = refl;
  count = refl;
  flag = (λ q. absurd (cc), λ lt. absurd (omega arith));
}
new_reader-Holding (suc n) = record {
  same_cap = refl;
  bytes = refl;
  count = refl;
  flag = (λ q. absurd (cc), λ lt. absurd (omega arith));
}

-- However the pipe cuts its bytes into chunks, a bounded reader holds exactly the first `cap` bytes
-- at its end, and it is marked as truncated exactly if there were more.
pub drain-take :
    (cap : ℕ) (chunks : List (List ℕ))
    → (data_of (drain chunks (new_reader cap)) ≡ take cap (join chunks))
      × (((drain chunks (new_reader cap)).truncated ≡ true) ↔ (cap < length (join chunks)))
unfolding data_of
drain-take cap chunks =
    let h = drain-Holding chunks (new_reader cap) cap [] (new_reader-Holding cap) in
    (h.bytes, h.flag)
