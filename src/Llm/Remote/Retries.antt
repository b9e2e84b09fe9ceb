-- ===== src/Llm/Remote/Retries.antt =====
-- The retries of `complete`: which answer it returns, and how often it posts and waits.
use cognitive_tree_ai.Prelude.{
  ℕ, zero, suc, ◌+◌, ◌-◌, ◌≤◌, ◌<◌, ◌^◌, ◌≡◌, refl, Text, Float, FloatOps, zero_f, true, false,
  Option, none, some, List, [], ◌∷◌, All, length, if◌then◌else◌, arith, Bool-cases, inl, inr,
}
use cognitive_tree_ai.Llm.{CompletionRequest}
use cognitive_tree_ai.Llm.Remote.{
  Json, Loaded, LlmError, Completed, Posted, Post, Remote, post_of, is_transient, transient_error,
  delay_of, settle, back_off, give_up, attempts, complete_remote,
}

-- The first post that is not transient.
pub first_final : List Posted → Option Posted
first_final [] = none
first_final (x ∷ xs) = let rest = first_final xs in if is_transient x then rest else some x

-- The error of the last post, or the one at hand where there is none.
pub last_error : Option LlmError → List Posted → Option LlmError
last_error last [] = last
last_error last (x ∷ xs) = last_error (some (transient_error x)) xs

module _ {W : Type 0} (ops : FloatOps) (cap : Float) (loads : List ℕ → Loaded)
    (to_str : Json → Text) (post : Post → W → Posted × W) (sleep : Float → W → W) where
  -- What the transport answers to so many attempts in a row, with the waits between them.
  pub answers : Remote → CompletionRequest → ℕ → ℕ → W → List Posted
  answers client r zero attempt w = []
  answers client r (suc left) attempt w =
      let sent =
        post (post_of client r) (back_off ops cap loads to_str post sleep client attempt w) in
      sent.0 ∷ answers client r left (attempt + 1) sent.1

  -- What the client makes of the answers, with the error at hand.
  pub verdict_on : Option LlmError → List Posted → Completed
  verdict_on last xs = elim (first_final xs) [
    | some x ↦ settle ops cap loads to_str post sleep x
    | none ↦ give_up ops cap loads to_str post sleep (last_error last xs)
  ]

  verdict_on-transient :
      (last : Option LlmError) (x : Posted) (xs : List Posted)
      → is_transient x ≡ true
      → verdict_on last (x ∷ xs) ≡ verdict_on (some (transient_error x)) xs
  unfolding verdict_on first_final last_error
  verdict_on-transient last x xs e = rw (e, verdict_on, first_final) refl

  verdict_on-final :
      (last : Option LlmError) (x : Posted) (xs : List Posted)
      → is_transient x ≡ false
      → verdict_on last (x ∷ xs) ≡ settle ops cap loads to_str post sleep x
  unfolding verdict_on first_final
  verdict_on-final last x xs e = rw (e, verdict_on, first_final) refl

  attempts-verdict :
      (client : Remote) (r : CompletionRequest) (left attempt : ℕ) (last : Option LlmError) (w : W)
      → (attempts ops cap loads to_str post sleep client r left attempt last w).0
        ≡ verdict_on last (answers client r left attempt w)
  unfolding attempts answers verdict_on last_error first_final
  attempts-verdict client r zero attempt last w = refl
  attempts-verdict client r (suc left) attempt last w =
      let sent =
        post (post_of client r) (back_off ops cap loads to_str post sleep client attempt w) in
      elim (Bool-cases (is_transient sent.0)) [
        | inl e ↦ rw (verdict_on-transient last sent.0 _ e) (
            rw (e, attempts)
              (attempts-verdict client r left (attempt + 1) (some (transient_error sent.0)) sent.1))
        | inr e ↦ rw (verdict_on-final last sent.0 _ e) (rw (e, attempts) refl)
      ]

  -- The answer of the client is made of the first post that is not transient, among as many as the
  -- retries allow; if all are transient, the call raises the error of the last one.
  pub complete_remote-verdict :
      (client : Remote) (r : CompletionRequest) (w : W)
      → (complete_remote ops cap loads to_str post sleep client r w).0
        ≡ verdict_on none (answers client r (client.max_retries + 1) 0 w)
  unfolding complete_remote
  complete_remote-verdict client r w = attempts-verdict client r (client.max_retries + 1) 0 none w

-- What a transport and a clock have been asked for.
pub record Traffic : Type 0 where
  pub posts : ℕ
  pub waits : List Float

module _ {W : Type 0} (post : Post → W → Posted × W) (sleep : Float → W → W) where
  -- The transport and the clock, with their calls counted.
  abbrev pub counted_post : Post → W × Traffic → Posted × (W × Traffic)
  counted_post x (w, t) = let (y, w') = post x w in (y, (w', record t { posts = t.posts + 1 }))

  abbrev pub counted_sleep : Float → W × Traffic → W × Traffic
  counted_sleep d (w, t) = (sleep d w, record t { waits = d ∷ t.waits })

-- `n` posts, a wait before each but the first at most, and no wait above the cap.
pub record Measured (ops : FloatOps) (cap : Float) (n : ℕ) (t : Traffic) : Type 0 where
  pub posts : t.posts ≡ n
  pub waits : length t.waits ≤ n - 1
  pub capped : All (λ d. ops.lt cap d ≡ false) t.waits

module _ {W : Type 0} (ops : FloatOps) (cap : Float) (loads : List ℕ → Loaded)
    (to_str : Json → Text) (post : Post → W → Posted × W) (sleep : Float → W → W)
    (irreflexive : ops.lt cap cap ≡ false) where
  abbrev post' : Post → W × Traffic → Posted × (W × Traffic)
  post' = counted_post post sleep

  abbrev sleep' : Float → W × Traffic → W × Traffic
  sleep' = counted_sleep post sleep

  delay_of-capped : (client : Remote) (n : ℕ) → ops.lt cap (delay_of ops cap client n) ≡ false
  unfolding delay_of
  delay_of-capped client n =
      let delay = ops.mul client.retry_backoff (ops.of_nat (2 ^ (n - 1))) in
      elim (Bool-cases (ops.lt cap delay)) [ inl e ↦ rw e irreflexive | inr e ↦ rw e e ]

  back_off-Measured :
      (client : Remote) (n : ℕ) (w : W) (t : Traffic)
      → Measured ops cap n t
      → ((back_off ops cap loads to_str post' sleep' client n (w, t)).1.posts ≡ n)
        × (length (back_off ops cap loads to_str post' sleep' client n (w, t)).1.waits ≤ n)
        × All
            (λ d. ops.lt cap d ≡ false)
            (back_off ops cap loads to_str post' sleep' client n (w, t)).1.waits
  unfolding back_off
  back_off-Measured client zero w t m = (m.posts, omega (arith, m.waits), m.capped)
  back_off-Measured client (suc n) w t m =
      elim (Bool-cases (ops.lt zero_f (delay_of ops cap client (suc n)))) [
        | inl e ↦ rw e (m.posts, omega (arith, m.waits), (delay_of-capped client (suc n), m.capped))
        | inr e ↦ rw e (m.posts, omega (arith, m.waits), m.capped)
      ]

  -- How the loop may leave its traffic: with at least as many posts as before, and with more if an
  -- attempt was left.
  record Ends (n left : ℕ) (t : Traffic) : Type 0 where
    measured : Measured ops cap t.posts t
    least : n ≤ t.posts
    most : t.posts ≤ n + left
    some_more : 0 < left → n < t.posts

  attempts-Ends :
      (client : Remote) (r : CompletionRequest) (left n : ℕ) (last : Option LlmError) (w : W)
      (t : Traffic)
      → Measured ops cap n t
      → Ends n left (attempts ops cap loads to_str post' sleep' client r left n last (w, t)).1.1
  unfolding attempts
  attempts-Ends client r zero n last w t m = record {
    measured = record { posts = refl; waits = omega (arith, m.waits, m.posts); capped = m.capped };
    least = omega (arith, m.posts);
    most = omega (arith, m.posts);
    some_more = λ h. absurd (omega arith);
  }
  attempts-Ends client r (suc left) n last w t m =
      let rested = back_off ops cap loads to_str post' sleep' client n (w, t) in
      let sent = post (post_of client r) rested.0 in
      let (posts, waits, capped) = back_off-Measured client n w t m in
      let t' : Traffic = record rested.1 { posts = rested.1.posts + 1 } in
      let m' : Measured ops cap (n + 1) t' = record {
        posts = omega (arith, posts);
        waits = omega (arith, waits);
        capped = capped;
      } in
      elim (Bool-cases (is_transient sent.0)) [
        | inl e ↦
            let rest =
              attempts-Ends client r left (n + 1) (some (transient_error sent.0)) sent.1 t' m' in
            rw (e, attempts)
              (record {
                measured = rest.measured;
                least = omega (arith, rest.least);
                most = omega (arith, rest.most);
                some_more = λ h. omega (arith, rest.least);
              })
        | inr e ↦
            rw (e, attempts)
              (record {
                measured = record {
                  posts = refl;
                  waits = omega (arith, waits, posts);
                  capped = capped;
                };
                least = omega (arith, posts);
                most = omega (arith, posts);
                some_more = λ h. omega (arith, posts);
              })
      ]

  -- Let the cap not be less than itself. A call posts at least once and at most once more than the
  -- retries allow. It waits before each post but the first at most, and never for longer than the
  -- cap.
  pub complete_remote_bounds :
      (client : Remote) (r : CompletionRequest) (w : W)
      → let t =
          (complete_remote ops cap loads to_str post' sleep' client r
            (w, record { posts = 0; waits = [] })).1.1 in
        (0 < t.posts)
        × (t.posts ≤ client.max_retries + 1)
        × (length t.waits < t.posts)
        × All (λ d. ops.lt cap d ≡ false) t.waits
  unfolding complete_remote
  complete_remote_bounds client r w =
      let ends =
        attempts-Ends client r (client.max_retries + 1) 0 none w (record { posts = 0; waits = [] })
          (record { posts = refl; waits = omega arith; capped = tt }) in
      let more = ends.some_more (omega arith) in
      (
        more,
        omega (arith, ends.most),
        omega (arith, ends.measured.waits, more),
        ends.measured.capped,
      )
