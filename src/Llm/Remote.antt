-- ===== src/Llm/Remote.antt =====
-- cognitivetree/llm/openai_compatible.py: the client of a chat-completion endpoint. The transport,
-- the JSON parser of the standard library, `time.sleep` and the conversion to float of a number
-- of the response are parameters. Texts that the program formats are constructors of `LlmError`.
pub mod Retries
use cognitive_tree_ai.Prelude.{
  ℕ, zero, suc, ◌+◌, ◌-◌, ◌^◌, ◌==◌, Text, codes, text_eq, strip, Float, FloatOps, zero_f, Bool,
  true, false, Option, none, some, List, [], ◌∷◌, ◌++◌, reverse, ◌||◌, leb, if◌then◌else◌,
}
use cognitive_tree_ai.Faults.{Fault, Result, ok, raise}
use cognitive_tree_ai.Llm.{ChatMessage, CompletionRequest, CompletionResponse}

-- What `json.loads` yields; `negative n` is the integer -(n + 1).
mutual
  pub data Json : Type 0 where
    null : Json
    truth : Bool → Json
    natural : ℕ → Json
    negative : ℕ → Json
    float : Float → Json
    str : Text → Json
    array : Items → Json
    object : Fields → Json

  pub data Items : Type 0 where
    nil : Items
    item : Json → Items → Items

  pub data Fields : Type 0 where
    end : Fields
    field : Text → Json → Fields → Fields

unfoldable pub field_of : Text → Fields → Option Json
field_of key end = none
field_of key (field k v rest) = if text_eq k key then some v else field_of key rest

-- `document[key]` and `document[0]`, where `none` stands for the KeyError, IndexError or TypeError.
unfoldable pub at_key : Text → Json → Option Json
unfolding field_of
at_key key (object fields) = field_of key fields
at_key key _ = none

unfoldable pub at_first : Json → Option Json
at_first (array (item v rest)) = some v
at_first (str (c ∷ s)) = some (str (c ∷ []))
at_first _ = none

-- A body is a list of bytes. The parser may refuse it with a JSONDecodeError, or fail to decode its
-- bytes with a UnicodeDecodeError, which is no JSONDecodeError.
pub data Loaded : Type 0 where
  loaded : Json → Loaded
  malformed_json : Loaded
  undecodable : Loaded

pub data LlmError : Type 0 where
  unreachable : Text → LlmError
  backend_error : ℕ → List ℕ → LlmError
  rejected : ℕ → List ℕ → LlmError
  malformed : List ℕ → LlmError
  not_text : LlmError

-- What a call of the client raises: an LlmError, the error of a body that does not decode, or that
-- of the assertion behind the loop.
pub data Failure : Type 0 where
  llm_error : LlmError → Failure
  unicode_error : Failure
  assertion_error : Failure

pub data Completed : Type 0 where
  completed : CompletionResponse → Completed
  failed : Failure → Completed

-- What a post comes to.
pub data Posted : Type 0 where
  answered : ℕ → List ℕ → Posted
  lost : Text → Posted

-- What the transport is given.
pub record Post : Type 0 where
  pub url : Text
  pub model : Text
  pub messages : List ChatMessage
  pub temperature : Float
  pub max_tokens : ℕ
  pub authorization : Option Text
  pub timeout : Float

pub record Remote : Type 0 where
  pub endpoint : Text
  pub model : Text
  pub api_key : Option Text
  pub timeout : Float
  pub max_retries : ℕ
  pub retry_backoff : Float

drop_slashes : Text → Text
drop_slashes [] = []
drop_slashes (c ∷ s) = if c == 47 then drop_slashes s else c ∷ s

-- `f"{base_url.rstrip('/')}/chat/completions"`
unfoldable pub endpoint_of : Text → Text
unfolding drop_slashes
endpoint_of base_url = reverse (drop_slashes (reverse base_url)) ++ codes "/chat/completions"

no_text : Text → Bool
no_text [] = true
no_text (c ∷ s) = false

-- `OpenAICompatibleClient(...)`. A negative number of retries, which is refused too, is no natural
-- number.
unfoldable pub make_remote :
    FloatOps → Text → Text → Option Text → Float → ℕ → Float → Result Remote
unfolding no_text endpoint_of
make_remote ops base_url model api_key timeout max_retries retry_backoff =
    if no_text (strip base_url)
    then raise Fault.value_error
    else if no_text (strip model)
    then raise Fault.value_error
    else if ops.le timeout zero_f
    then raise Fault.value_error
    else if ops.lt retry_backoff zero_f
    then raise Fault.value_error
    else ok (record {
      endpoint = endpoint_of base_url;
      model = model;
      api_key = api_key;
      timeout = timeout;
      max_retries = max_retries;
      retry_backoff = retry_backoff;
    })

-- `if self._api_key:`
unfoldable pub bearer : Option Text → Option Text
bearer none = none
bearer (some []) = none
bearer (some (c ∷ key)) = some (codes "Bearer " ++ c ∷ key)

unfoldable pub post_of : Remote → CompletionRequest → Post
unfolding bearer
post_of client r = record {
  url = client.endpoint;
  model = client.model;
  messages = r.messages;
  temperature = r.temperature;
  max_tokens = r.max_tokens;
  authorization = bearer client.api_key;
  timeout = client.timeout;
}

-- `_token_count(value)`; Python counts `True` and `False` among the integers.
unfoldable pub token_count : Option Json → ℕ
token_count (some (natural n)) = n
token_count (some (truth true)) = 1
token_count _ = 0

-- `usage = document.get("usage")`, with an empty dictionary in place of anything else.
unfoldable pub usage_of : Json → Fields
unfolding at_key
usage_of document = elim (at_key (codes "usage") document) [ none ↦ end | some v ↦ fields_of v ]
  where
    fields_of : Json → Fields
    fields_of (object fields) = fields
    fields_of _ = end

unfoldable pub content_of : Json → Option Json
unfolding at_key at_first
content_of document =
    step (at_key (codes "content"))
      (step (at_key (codes "message")) (step at_first (at_key (codes "choices") document)))
  where
    step : (Json → Option Json) → Option Json → Option Json
    step f none = none
    step f (some v) = f v

module _ (loads : List ℕ → Loaded) (to_str : Json → Text) where
  -- `str(document.get("model", ""))`
  pub model_of : Json → Text
  unfolding at_key
  model_of document = elim (at_key (codes "model") document) [ none ↦ [] | some v ↦ to_str v ]

  pub read_text : List ℕ → Json → Option Json → Completed
  unfolding model_of usage_of token_count field_of
  read_text body document none = failed (llm_error (malformed body))
  read_text body document (some (str text)) =
      let usage = usage_of document in
      completed (record {
        text = text;
        model = model_of document;
        prompt_tokens = token_count (field_of (codes "prompt_tokens") usage);
        completion_tokens = token_count (field_of (codes "completion_tokens") usage);
      })
  read_text body document (some _) = failed (llm_error not_text)

  pub read_document : List ℕ → Loaded → Completed
  unfolding read_text content_of
  read_document body (loaded document) = read_text body document (content_of document)
  read_document body malformed_json = failed (llm_error (malformed body))
  read_document body undecodable = failed unicode_error

  -- `_parse_response(body)`
  unfoldable pub parse_response : List ℕ → Completed
  unfolding read_document
  parse_response body = read_document body (loads body)

-- `status >= 500 or status == 429`
unfoldable pub is_retryable : ℕ → Bool
is_retryable status = leb 500 status || (status == 429)

unfoldable pub is_transient : Posted → Bool
unfolding is_retryable
is_transient (lost text) = true
is_transient (answered status body) = is_retryable status

-- The error that a transient post leaves in `last_error`.
unfoldable pub transient_error : Posted → LlmError
transient_error (lost text) = unreachable text
transient_error (answered status body) = backend_error status body

-- The delay before retry number `attempt`, at most `cap`, which is `30.0`. The power of two fits a
-- float up to attempt 1024.
unfoldable pub delay_of : FloatOps → Float → Remote → ℕ → Float
delay_of ops cap client attempt =
    let delay = ops.mul client.retry_backoff (ops.of_nat (2 ^ (attempt - 1))) in
    if ops.lt cap delay then cap else delay

module _ {W : Type 0} (ops : FloatOps) (cap : Float) (loads : List ℕ → Loaded)
    (to_str : Json → Text) (post : Post → W → Posted × W) (sleep : Float → W → W) where
  -- A post that is not transient ends the call.
  unfoldable pub settle : Posted → Completed
  unfolding parse_response
  settle (lost text) = failed (llm_error (unreachable text))
  settle (answered status body) =
      if status == 200
      then parse_response loads to_str body
      else failed (llm_error (rejected status body))

  -- `if attempt: self._back_off(attempt)`
  unfoldable pub back_off : Remote → ℕ → W → W
  unfolding delay_of
  back_off client zero w = w
  back_off client (suc n) w =
      let delay = delay_of ops cap client (suc n) in
      if ops.lt zero_f delay then sleep delay w else w

  unfoldable pub give_up : Option LlmError → Completed
  give_up none = failed assertion_error
  give_up (some e) = failed (llm_error e)

  -- The loop over the attempts, with the number of those that are left.
  unfoldable pub attempts : Remote → CompletionRequest → ℕ → ℕ → Option LlmError → W → Completed × W
  unfolding settle back_off give_up is_transient transient_error post_of
  attempts client r zero attempt last w = (give_up last, w)
  attempts client r (suc left) attempt last w =
      let (posted, w1) = post (post_of client r) (back_off client attempt w) in
      let again = attempts client r left (attempt + 1) (some (transient_error posted)) w1 in
      if is_transient posted then again else (settle posted, w1)

  -- `client.complete(request)`
  unfoldable pub complete_remote : Remote → CompletionRequest → W → Completed × W
  unfolding attempts
  complete_remote client r w = attempts client r (client.max_retries + 1) 0 none w
