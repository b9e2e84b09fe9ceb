-- ===== src/Examples/Sessions.antt =====
-- The theorems on sessions at concrete inputs.
use cognitive_tree_ai.Prelude.{ℕ, zero, suc, ◌+◌, ◌≡◌, some, [], ◌∷◌, false}
use cognitive_tree_ai.Observability.{no_usage}
use cognitive_tree_ai.Search.{run}
use cognitive_tree_ai.Session.{
  ReasoningSession, Written, written, os_error, run_session, read_usage, unstreamed,
}
use cognitive_tree_ai.Session.Streamed.{OnlyOsErrors, run_session-run}
use cognitive_tree_ai.Scenarios.{number, policies, config}

disk : ℕ → Written
disk zero = written
disk (suc w) = os_error

-- A session whose archive can be written at the first try only.
abbrev session : ReasoningSession ℕ
session = record {
  task = 80 ∷ [];
  p = policies;
  config = config;
  clock = λ w. (number w, w + 1);
  usage = some (λ w. (no_usage, w));
  name = λ o w. (w ∷ [], w + 1);
  saved_at = λ w. (w ∷ [], w + 1);
  write = some (λ name d w. (disk w, w + 1));
  mentions = λ text. false;
  describe = λ e. [];
}

session_safe : OnlyOsErrors session.write
unfolding disk
session_safe name d zero e q = cc
session_safe name d (suc w) e q = cc

run_session-run_example :
    (run_session session 0).0
    ≡ (run (unstreamed session) session.config session.task (read_usage session 0).1).0
run_session-run_example = run_session-run session 0 session_safe
