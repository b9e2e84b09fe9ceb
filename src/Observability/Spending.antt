-- ===== src/Observability/Spending.antt =====
-- A budget stops a run by what was spent since it was made.
use cognitive_tree_ai.Prelude.{
  ℕ, ◌+◌, ◌≤◌, ◌≡◌, ◌≢◌, ◌⊎◌, ◌↔◌, inl, inr, refl, ap, true, Option, none, some, List, [], ◌∷◌,
  arith, Bool-cases, leb,
}
use cognitive_tree_ai.Faults.{Result, ok, raise}
use cognitive_tree_ai.Llm.{CompletionRequest, CompletionResponse, Client}
use cognitive_tree_ai.Observability.{
  TokenUsage, total_tokens, minus, record_usage, tally, complete_counted, TokenBudget, reached,
  check,
}

module _ {W : Type 0} (inner : Client W) where
  -- The client inside, on a list of requests: the answers and its world.
  pub answers : List CompletionRequest → W → List (Result CompletionResponse) × W
  answers [] w = ([], w)
  answers (r ∷ rs) w = let (v, w') = inner r w in let (vs, w'') = answers rs w' in (v ∷ vs, w'')

  -- The same through the accounting client.
  pub counted :
      List CompletionRequest → TokenUsage × W → List (Result CompletionResponse) × TokenUsage × W
  counted [] (u, w) = ([], u, w)
  counted (r ∷ rs) (u, w) =
      let (v, u', w') = complete_counted inner r (u, w) in
      let (vs, u'', w'') = counted rs (u', w') in (v ∷ vs, u'', w'')

-- The sums of what successful answers report.
pub spent_calls : List (Result CompletionResponse) → ℕ
spent_calls [] = 0
spent_calls (ok v ∷ vs) = spent_calls vs + 1
spent_calls (raise e ∷ vs) = spent_calls vs

pub spent_tokens : List (Result CompletionResponse) → ℕ
spent_tokens [] = 0
spent_tokens (ok v ∷ vs) = spent_tokens vs + (v.prompt_tokens + v.completion_tokens)
spent_tokens (raise e ∷ vs) = spent_tokens vs

-- What a tally gained over an earlier one.
record Gained (earlier later : TokenUsage) (calls tokens : ℕ) : Type 0 where
  calls_gained : later.calls ≡ earlier.calls + calls
  prompt_grows : earlier.prompt_tokens ≤ later.prompt_tokens
  completion_grows : earlier.completion_tokens ≤ later.completion_tokens
  tokens_gained : total_tokens later ≡ total_tokens earlier + tokens

module _ {W : Type 0} (inner : Client W) where
  counted-Gained :
      (rs : List CompletionRequest) (u : TokenUsage) (w : W)
      → Gained u
          (counted inner rs (u, w)).1
          (spent_calls (answers inner rs w).0)
          (spent_tokens (answers inner rs w).0)
  unfolding counted answers spent_calls spent_tokens total_tokens complete_counted tally
      record_usage
  counted-Gained [] u w = record {
    calls_gained = omega arith;
    prompt_grows = omega arith;
    completion_grows = omega arith;
    tokens_gained = omega arith;
  }
  counted-Gained (r ∷ rs) u w = step (counted-Gained rs) (inner r w)
    where
      step :
          ((u' : TokenUsage) (w' : W)
            → Gained u'
                (counted inner rs (u', w')).1
                (spent_calls (answers inner rs w').0)
                (spent_tokens (answers inner rs w').0))
          → (x : Result CompletionResponse × W)
          → Gained u
              (counted inner rs ((tally inner u x).1, (tally inner u x).2)).1
              (spent_calls (x.0 ∷ (answers inner rs x.1).0))
              (spent_tokens (x.0 ∷ (answers inner rs x.1).0))
      step rest (ok v, w') =
          let g = rest (record_usage v u) w' in
          record {
            calls_gained = omega (arith, g.calls_gained);
            prompt_grows = omega (arith, g.prompt_grows);
            completion_grows = omega (arith, g.completion_grows);
            tokens_gained = omega (arith, g.tokens_gained);
          }
      step rest (raise e, w') = rest u w'

  -- The accounting client hands on what the client inside answers.
  pub counted-transparent :
      (rs : List CompletionRequest) (u : TokenUsage) (w : W)
      → ((counted inner rs (u, w)).0 ≡ (answers inner rs w).0)
        × ((counted inner rs (u, w)).2 ≡ (answers inner rs w).1)
  unfolding counted answers complete_counted tally
  counted-transparent [] u w = (refl, refl)
  counted-transparent (r ∷ rs) u w = step (counted-transparent rs) (inner r w)
    where
      step :
          ((u' : TokenUsage) (w' : W)
            → ((counted inner rs (u', w')).0 ≡ (answers inner rs w').0)
              × ((counted inner rs (u', w')).2 ≡ (answers inner rs w').1))
          → (x : Result CompletionResponse × W)
          → (((tally inner u x).0 ∷ (counted inner rs ((tally inner u x).1, (tally inner u x).2)).0)
              ≡ (x.0 ∷ (answers inner rs x.1).0))
            × ((counted inner rs ((tally inner u x).1, (tally inner u x).2)).2
                ≡ (answers inner rs x.1).1)
      step rest (ok v, w') = let (a, b) = rest (record_usage v u) w' in (ap (λ vs. ok v ∷ vs) a, b)
      step rest (raise e, w') = let (a, b) = rest u w' in (ap (λ vs. raise e ∷ vs) a, b)

-- A limit is reached: it is set, and `n` is not below it.
pub data Reached : Option ℕ → ℕ → Type 0 where
  at_least : (limit n : ℕ) → limit ≤ n → Reached (some limit) n

reached_iff : (o : Option ℕ) (n : ℕ) → (reached o n ≡ true) ↔ Reached o n
unfolding reached
reached_iff none n = (λ q. absurd (cc), λ r. elim r [ ])
reached_iff (some limit) n = (λ q. at_least limit n (ground arith), at_most)
  where
    at_most : Reached (some limit) n → leb limit n ≡ true
    at_most (at_least _ _ le) = ground arith

check_iff :
    (b : TokenBudget) (u : TokenUsage) (calls tokens : ℕ)
    → total_tokens (minus u b.baseline) ≡ tokens
    → (minus u b.baseline).calls ≡ calls
    → (check b u ≢ none) ↔ (Reached b.max_total_tokens tokens ⊎ Reached b.max_calls calls)
unfolding check
check_iff b u calls tokens t c = elim (Bool-cases (reached b.max_total_tokens tokens)) [
  | inl hit ↦ rw (t, hit) (λ q. inl ((reached_iff _ tokens).0 hit), λ r q. cc)
  | inr miss ↦ elim (Bool-cases (reached b.max_calls calls)) [
    | inl hit ↦ rw (t, c, miss, hit) (λ q. inr ((reached_iff _ calls).0 hit), λ r q. cc)
    | inr neither ↦
        rw (t, c, miss, neither)
          (
            λ q. absurd (q refl),
            λ r q. elim r [
              | inl x ↦ cc (miss, (reached_iff b.max_total_tokens tokens).1 x)
              | inr x ↦ cc (neither, (reached_iff b.max_calls calls).1 x)
            ],
          )
  ]
]

tokens_since :
    {earlier later : TokenUsage} {calls tokens : ℕ}
    → Gained earlier later calls tokens
    → total_tokens (minus later earlier) ≡ tokens
unfolding total_tokens minus
tokens_since g = omega (arith, g.prompt_grows, g.completion_grows, g.tokens_gained)

calls_since :
    {earlier later : TokenUsage} {calls tokens : ℕ}
    → Gained earlier later calls tokens
    → (minus later earlier).calls ≡ calls
unfolding minus
calls_since g = omega (arith, g.calls_gained)

-- Let a client have the tally of the budget's baseline when it answers a list of requests. Then the
-- budget stops the run exactly if the tokens or the calls of the successful answers reach its
-- limit; and the answers are those of the client inside.
pub check-spent :
    {W : Type 0} (inner : Client W) (b : TokenBudget) (rs : List CompletionRequest) (w : W)
    → ((check b (counted inner rs (b.baseline, w)).1 ≢ none) ↔ (
        Reached b.max_total_tokens (spent_tokens (answers inner rs w).0)
        ⊎ Reached b.max_calls (spent_calls (answers inner rs w).0)))
      × ((counted inner rs (b.baseline, w)).0 ≡ (answers inner rs w).0)
check-spent inner b rs w =
    let g = counted-Gained inner rs b.baseline w in
    (
      check_iff b (counted inner rs (b.baseline, w)).1 _ _ (tokens_since g) (calls_since g),
      (counted-transparent inner rs b.baseline w).0,
    )
