-- ===== src/Llm.antt =====
-- cognitivetree/llm/client.py and cognitivetree/llm/caching.py: requests and completions, the
-- bounded store of completions and the client that replays them. A client is a function on its
-- world. The lock of the store makes each operation one step.
pub mod Keys
pub mod Store
pub mod Replay
pub mod Equality
pub mod Parsing
pub mod Scripted
pub mod Remote
use cognitive_tree_ai.Prelude.{
  ℕ, ◌+◌, Text, text_eq, Float, FloatOps, zero_f, Bool, true, false, Option, none, some, List, [],
  ◌∷◌, ◌++◌, ◌&&◌, ◌||◌, not, ◌==◌, ltb, length, if◌then◌else◌,
}
use cognitive_tree_ai.Faults.{Fault, Result, ok, raise}

pub data Role : Type 0 where
  system user assistant : Role

pub record ChatMessage : Type 0 where
  pub role : Role
  pub content : Text

pub record CompletionRequest : Type 0 where
  pub messages : List ChatMessage
  pub temperature : Float
  pub max_tokens : ℕ

pub record CompletionResponse : Type 0 where
  pub text : Text
  pub model : Text
  pub prompt_tokens : ℕ
  pub completion_tokens : ℕ

no_messages : List ChatMessage → Bool
no_messages [] = true
no_messages (m ∷ ms) = false

-- `CompletionRequest(...)`, with the test of `__post_init__`; `two` is `2.0`.
unfoldable pub make_request : FloatOps → Float → CompletionRequest → Result CompletionRequest
unfolding no_messages
make_request ops two r =
    if no_messages r.messages
    then raise Fault.value_error
    else if not (ops.le zero_f r.temperature && ops.le r.temperature two)
    then raise Fault.value_error
    else if ltb r.max_tokens 1
    then raise Fault.value_error
    else ok r

unfoldable pub same_role : Role → Role → Bool
same_role Role.system Role.system = true
same_role Role.user Role.user = true
same_role Role.assistant Role.assistant = true
same_role _ _ = false

unfoldable pub same_messages : List ChatMessage → List ChatMessage → Bool
unfolding same_role
same_messages [] [] = true
same_messages (a ∷ rest) (b ∷ others) =
    same_role a.role b.role && text_eq a.content b.content && same_messages rest others
same_messages _ _ = false

-- `==` of two requests, by which the store finds its entries.
unfoldable pub same_request : FloatOps → CompletionRequest → CompletionRequest → Bool
unfolding same_messages
same_request ops a b =
    same_messages a.messages b.messages
    && ops.eq a.temperature b.temperature
    && (a.max_tokens == b.max_tokens)

abbrev pub Entry : Type 0
Entry = CompletionRequest × CompletionResponse

-- `CompletionCache`; the entries are an ordered dictionary, the least recently used one first.
pub record Cache : Type 0 where
  pub max_entries : ℕ
  pub entries : List Entry
  pub hits : ℕ
  pub misses : ℕ

pub record CacheStats : Type 0 where
  pub hits : ℕ
  pub misses : ℕ
  pub entries : ℕ

unfoldable pub new_cache : ℕ → Result Cache
new_cache max_entries =
    if ltb max_entries 1
    then raise Fault.value_error
    else ok (record { max_entries = max_entries; entries = []; hits = 0; misses = 0 })

-- `dataclasses.replace(cached, prompt_tokens=0, completion_tokens=0)`
abbrev pub replayed : CompletionResponse → CompletionResponse
replayed v = record v { prompt_tokens = 0; completion_tokens = 0 }

-- A client: the world of the caching client is its store and the world of the client inside.
abbrev pub Client : Type 0 → Type 0
Client W = CompletionRequest → W → Result CompletionResponse × W

module _ (ops : FloatOps) where
  -- `self._entries.get(request)`
  pub find : CompletionRequest → List Entry → Option CompletionResponse
  find r [] = none
  find r ((k, v) ∷ es) = if same_request ops k r then some v else find r es

  -- `self._entries[request] = response` keeps the place and the key of an entry that exists.
  pub assign : CompletionRequest → CompletionResponse → List Entry → List Entry
  assign r v [] = (r, v) ∷ []
  assign r v ((k, old) ∷ es) =
      if same_request ops k r then (k, v) ∷ es else (k, old) ∷ assign r v es

  pub move_to_end : CompletionRequest → List Entry → List Entry
  move_to_end r [] = []
  move_to_end r ((k, v) ∷ es) =
      if same_request ops k r then es ++ (k, v) ∷ [] else (k, v) ∷ move_to_end r es

  -- The loop that pops the first entry while there are too many.
  pub evict : ℕ → List Entry → List Entry
  evict n [] = []
  evict n (e ∷ es) = if ltb n (length (e ∷ es)) then evict n es else e ∷ es

  looked_up :
      CompletionRequest → Cache → Option CompletionResponse → Option CompletionResponse × Cache
  looked_up r c none = (none, record c { misses = c.misses + 1 })
  looked_up r c (some v) =
      (some v, record c { entries = move_to_end r c.entries; hits = c.hits + 1 })

  -- `cache.get(request)`
  pub get : CompletionRequest → Cache → Option CompletionResponse × Cache
  get r c = looked_up r c (find r c.entries)

  -- `cache.put(request, response)`
  pub put : CompletionRequest → CompletionResponse → Cache → Cache
  put r v c = record c { entries = evict c.max_entries (move_to_end r (assign r v c.entries)) }

  pub clear : Cache → Cache
  clear c = record c { entries = [] }

  pub stats : Cache → CacheStats
  stats c = record { hits = c.hits; misses = c.misses; entries = length c.entries }

  module _ {W : Type 0} (inner : Client W) where
    store_answer :
        CompletionRequest
        → Cache
        → Result CompletionResponse × W
        → Result CompletionResponse × Cache × W
    store_answer r c (ok v, w) = (ok v, put r v c, w)
    store_answer r c (raise e, w) = (raise e, c, w)

    answer :
        CompletionRequest
        → Option CompletionResponse × Cache
        → W
        → Result CompletionResponse × Cache × W
    answer r (some v, c) w = (ok (replayed v), c, w)
    answer r (none, c) w = store_answer r c (inner r w)

    bypass : Cache → Result CompletionResponse × W → Result CompletionResponse × Cache × W
    bypass c (v, w) = (v, c, w)

    -- `client.complete(request)`
    pub complete : Bool → CompletionRequest → Cache × W → Result CompletionResponse × Cache × W
    complete cache_sampled r (c, w) =
        if cache_sampled || ops.eq r.temperature zero_f
        then answer r (get r c) w
        else bypass c (inner r w)
