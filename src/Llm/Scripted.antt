-- ===== src/Llm/Scripted.antt =====
-- cognitivetree/llm/scripted.py: a client that replays prepared completions, and keeps the requests
-- that it got.
use cognitive_tree_ai.Prelude.{
  ℕ, suc, ◌+◌, ◌≡◌, ◌∙◌, refl, sym, ap, Text, is_space, Bool, true, false, List, [], ◌∷◌, ◌++◌,
  if◌then◌else◌,
}
use mathlib.Core.List.{append_assoc, append-nil}
use cognitive_tree_ai.Faults.{Fault, Result, ok, raise}
use cognitive_tree_ai.Llm.{ChatMessage, CompletionRequest, CompletionResponse}

-- The words of a text; the flag says whether the scan stands within a word.
words : Bool → Text → ℕ
words within [] = 0
words within (c ∷ s) =
    let after = words false s in
    let more = words true s in if is_space c then after else if within then more else suc more

-- `_estimate_tokens(text)`
unfoldable pub estimate_tokens : Text → ℕ
unfolding words is_space
estimate_tokens text = words false text

prompt_estimate : List ChatMessage → ℕ
unfolding estimate_tokens
prompt_estimate [] = 0
prompt_estimate (m ∷ ms) = estimate_tokens m.content + prompt_estimate ms

-- What a responder produces.
pub data Produced : Type 0 where
  text : Text → Produced
  response : CompletionResponse → Produced

abbrev pub Responder : Type 0 → Type 0
Responder W = CompletionRequest → W → Result Produced × W

pub record Scripted (W : Type 0) : Type 0 where
  pub requests : List CompletionRequest
  pub world : W

unfoldable pub response_of : Text → CompletionRequest → Produced → CompletionResponse
unfolding estimate_tokens prompt_estimate
response_of model r (response v) = v
response_of model r (text t) = record {
  text = t;
  model = model;
  prompt_tokens = prompt_estimate r.messages;
  completion_tokens = estimate_tokens t;
}

answer_of : Text → CompletionRequest → Result Produced → Result CompletionResponse
unfolding response_of
answer_of model r (ok p) = ok (response_of model r p)
answer_of model r (raise e) = raise e

-- `client.complete(request)`
unfoldable pub complete_scripted :
    {W : Type 0}
    → Responder W
    → Text
    → CompletionRequest
    → Scripted W
    → Result CompletionResponse × Scripted W
unfolding answer_of
complete_scripted responder model r s =
    let (produced, w) = responder r s.world in
    (answer_of model r produced, record { requests = s.requests ++ r ∷ []; world = w })

-- scripted completion sequence exhausted
abbrev pub exhausted_text : Text
exhausted_text =
    115 ∷ 99 ∷ 114 ∷ 105 ∷ 112 ∷ 116 ∷ 101 ∷ 100 ∷ 32 ∷ 99 ∷ 111 ∷ 109 ∷ 112 ∷ 108 ∷ 101 ∷ 116 ∷ 105
    ∷ 111 ∷ 110 ∷ 32 ∷ 115 ∷ 101 ∷ 113 ∷ 117 ∷ 101 ∷ 110 ∷ 99 ∷ 101 ∷ 32 ∷ 101 ∷ 120 ∷ 104 ∷ 97
    ∷ 117 ∷ 115 ∷ 116 ∷ 101 ∷ 100 ∷ []

-- The responder of `from_sequence`: its world is the list of pending completions.
unfoldable pub next_pending : Responder (List Text)
next_pending r [] = (raise (Fault.raised exhausted_text), [])
next_pending r (t ∷ pending) = (ok (text t), pending)

-- A list of requests to the client, in order.
pub complete_each :
    Text
    → List CompletionRequest
    → Scripted (List Text)
    → List (Result CompletionResponse) × Scripted (List Text)
complete_each model [] s = ([], s)
complete_each model (r ∷ rs) s =
    let (v, s') = complete_scripted next_pending model r s in
    let (vs, s'') = complete_each model rs s' in (v ∷ vs, s'')

-- The prepared answers to the requests: the completions in order, and then failures.
pub prepared : Text → List CompletionRequest → List Text → List (Result CompletionResponse)
prepared model [] pending = []
prepared model (r ∷ rs) [] = raise (Fault.raised exhausted_text) ∷ prepared model rs []
prepared model (r ∷ rs) (t ∷ pending) =
    ok (response_of model r (text t)) ∷ prepared model rs pending

-- A client made from a sequence answers a list of requests with its completions in order, and with
-- failures after the last one; it keeps every request, also those that failed.
pub complete_each-prepared :
    (model : Text) (rs seen : List CompletionRequest) (pending : List Text)
    → ((complete_each model rs (record { requests = seen; world = pending })).0
        ≡ prepared model rs pending)
      × ((complete_each model rs (record { requests = seen; world = pending })).1.requests
          ≡ seen ++ rs)
unfolding complete_each prepared complete_scripted next_pending answer_of
complete_each-prepared model [] seen pending = (refl, sym (append-nil seen))
complete_each-prepared model (r ∷ rs) seen [] =
    let (a, b) = complete_each-prepared model rs (seen ++ r ∷ []) [] in
    (ap (λ vs. raise (Fault.raised exhausted_text) ∷ vs) a, b ∙ append_assoc seen (r ∷ []) rs)
complete_each-prepared model (r ∷ rs) seen (t ∷ pending) =
    let (a, b) = complete_each-prepared model rs (seen ++ r ∷ []) pending in
    (ap (λ vs. ok (response_of model r (text t)) ∷ vs) a, b ∙ append_assoc seen (r ∷ []) rs)
