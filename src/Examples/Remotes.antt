-- ===== src/Examples/Remotes.antt =====
-- The theorems on the remote client at concrete inputs: a server that is busy once and then answers.
use cognitive_tree_ai.Prelude.{
  ℕ, ◌+◌, ◌≤◌, ◌<◌, ◌≡◌, refl, Text, codes, Float, false, none, List, [], All, length, ◌==◌,
  if◌then◌else◌,
}
use cognitive_tree_ai.Llm.Remote.{
  Json, Loaded, loaded, Posted, answered, Post, Remote, complete_remote,
}
use cognitive_tree_ai.Llm.Remote.Retries.{
  answers, verdict_on, Traffic, counted_post, counted_sleep, complete_remote-verdict,
  complete_remote_bounds,
}
use cognitive_tree_ai.Scenarios.{number, numbers, request}

abbrev remote : Remote
remote = record {
  endpoint = codes "http://localhost/v1/chat/completions";
  model = codes "llama";
  api_key = none;
  timeout = number 120;
  max_retries = 2;
  retry_backoff = number 1;
}

abbrev busy_once : Post → ℕ → Posted × ℕ
busy_once p w = (answered (if w == 0 then 503 else 200) [], w + 1)

abbrev loads : List ℕ → Loaded
loads body = loaded Json.null

abbrev to_str : Json → Text
to_str v = []

abbrev waits : Float → ℕ → ℕ
waits d w = w

complete_remote-verdict_example :
    (complete_remote numbers (number 30) loads to_str busy_once waits remote request 0).0
    ≡ verdict_on numbers
        (number 30)
        loads
        to_str
        busy_once
        waits
        none
        (answers numbers (number 30) loads to_str busy_once waits remote request 3 0 0)
complete_remote-verdict_example =
    complete_remote-verdict numbers (number 30) loads to_str busy_once waits remote request 0

abbrev traffic : Traffic
traffic =
    (complete_remote numbers (number 30) loads to_str (counted_post busy_once waits)
      (counted_sleep busy_once waits) remote request (0, record { posts = 0; waits = [] })).1.1

complete_remote_bounds_example :
    (0 < traffic.posts)
    × (traffic.posts ≤ 3)
    × (length traffic.waits < traffic.posts)
    × All (λ d. numbers.lt (number 30) d ≡ false) traffic.waits
complete_remote_bounds_example =
    complete_remote_bounds numbers (number 30) loads to_str busy_once waits refl remote request 0
