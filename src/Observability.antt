-- ===== src/Observability.antt =====
-- cognitivetree/observability: the tally of tokens (accounting.py, metrics.py) and the budget that
-- stops a run (budget.py).
pub mod Spending
pub mod Metrics
pub mod Summary
use cognitive_tree_ai.Prelude.{
  ℕ, ◌+◌, ◌-◌, Bool, true, false, Option, none, some, List, [], ◌∷◌, ◌||◌, leb, ltb, if◌then◌else◌,
}
use cognitive_tree_ai.Faults.{Fault, Result, ok, raise}
use cognitive_tree_ai.Llm.{CompletionRequest, CompletionResponse, Client}

pub record TokenUsage : Type 0 where
  pub calls : ℕ
  pub prompt_tokens : ℕ
  pub completion_tokens : ℕ

unfoldable pub total_tokens : TokenUsage → ℕ
total_tokens u = u.prompt_tokens + u.completion_tokens

abbrev pub no_usage : TokenUsage
no_usage = record { calls = 0; prompt_tokens = 0; completion_tokens = 0 }

-- `usage - earlier`. A tally only grows, so none of the differences is negative in the program; on
-- natural numbers they stop at zero.
unfoldable pub minus : TokenUsage → TokenUsage → TokenUsage
minus u earlier = record {
  calls = u.calls - earlier.calls;
  prompt_tokens = u.prompt_tokens - earlier.prompt_tokens;
  completion_tokens = u.completion_tokens - earlier.completion_tokens;
}

-- The tally of one completion.
unfoldable pub record_usage : CompletionResponse → TokenUsage → TokenUsage
record_usage v u = record {
  calls = u.calls + 1;
  prompt_tokens = u.prompt_tokens + v.prompt_tokens;
  completion_tokens = u.completion_tokens + v.completion_tokens;
}

-- `AccountingLlmClient`: its world is the tally and the world of the client inside.
module _ {W : Type 0} (inner : Client W) where
  unfoldable pub tally :
      TokenUsage → Result CompletionResponse × W → Result CompletionResponse × TokenUsage × W
  unfolding record_usage
  tally u (ok v, w) = (ok v, record_usage v u, w)
  tally u (raise e, w) = (raise e, u, w)

  -- `client.complete(request)`
  unfoldable pub complete_counted :
      CompletionRequest → TokenUsage × W → Result CompletionResponse × TokenUsage × W
  unfolding tally
  complete_counted r (u, w) = tally u (inner r w)

-- The reason that a budget gives, as the template of its text.
pub data Exhausted : Type 0 where
  tokens_spent : (limit tokens calls : ℕ) → Exhausted
  calls_spent : (limit calls tokens : ℕ) → Exhausted

pub record TokenBudget : Type 0 where
  pub max_total_tokens : Option ℕ
  pub max_calls : Option ℕ
  pub baseline : TokenUsage

below_one : Option ℕ → Bool
below_one none = false
below_one (some n) = ltb n 1

-- `TokenBudget(client, ...)`, where `usage` is the client's tally at that moment.
unfoldable pub make_budget : Option ℕ → Option ℕ → TokenUsage → Result TokenBudget
unfolding below_one
make_budget max_total_tokens max_calls usage =
    if below_one max_total_tokens
    then raise Fault.value_error
    else if below_one max_calls
    then raise Fault.value_error
    else ok
        (record { max_total_tokens = max_total_tokens; max_calls = max_calls; baseline = usage })

is_set : Option ℕ → Bool
is_set none = false
is_set (some n) = true

unfoldable pub is_bounded : TokenBudget → Bool
unfolding is_set
is_bounded b = is_set b.max_total_tokens || is_set b.max_calls

-- `limit is not None and n >= limit`
unfoldable pub reached : Option ℕ → ℕ → Bool
reached none n = false
reached (some limit) n = leb limit n

limit_of : Option ℕ → ℕ
limit_of none = 0
limit_of (some n) = n

-- `budget.check()`, where `usage` is the client's tally.
unfoldable pub check : TokenBudget → TokenUsage → Option Exhausted
unfolding minus total_tokens reached limit_of
check b usage =
    let spent = minus usage b.baseline in
    let tokens = total_tokens spent in
    if reached b.max_total_tokens tokens
    then some (tokens_spent (limit_of b.max_total_tokens) tokens spent.calls)
    else if reached b.max_calls spent.calls
    then some (calls_spent (limit_of b.max_calls) spent.calls tokens)
    else none
