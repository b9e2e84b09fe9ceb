-- ===== src/Session/Streamed.antt =====
-- The stream and the run of a session (cognitivetree/session.py), read to their end.
use cognitive_tree_ai.Prelude.{
  ◌≡◌, ◌≢◌, Float, true, refl, Text, Option, none, some, List, [], ◌∷◌, ◌++◌,
}
use cognitive_tree_ai.Faults.{Fault, Result, ok, raise}
use cognitive_tree_ai.Exec.{Run}
use cognitive_tree_ai.Search.{SearchResult, run}
use cognitive_tree_ai.Observability.{TokenUsage}
use cognitive_tree_ai.Observability.Summary.{metrics_to_dict}
use cognitive_tree_ai.Envelopes.{Envelope, metrics_envelope, result_envelope}
use cognitive_tree_ai.Session.{
  ReasoningSession, Stage, read_usage, metrics_of, settle, drain, streamed, unstreamed, run_session,
  settled, Written, written, os_error, write_fault, swallow, archive, save_run,
}
use cognitive_tree_ai.Tree.WellFormed.{IsWellFormed}
use cognitive_tree_ai.Tree.Payload.Written.{tree_to_dict-Describes}
use cognitive_tree_ai.Search.Recorded.{Recorded, run-IsWellFormed}
use cognitive_tree_ai.Observability.Metrics.{RunMetrics}
use cognitive_tree_ai.Persistence.{ArchiveDocument, result_to_archive_document, entries_of}
use cognitive_tree_ai.Session.Mirrored.{FormOf, Mirrors}

-- Writing a file raises nothing but OSErrors.
abbrev pub OnlyOsErrors : {W : Type 0} → Option (Text → ArchiveDocument → W → Written × W) → Type 0
OnlyOsErrors none = Unit
OnlyOsErrors {W} (some write) =
    (name : Text) (d : ArchiveDocument) (w : W) (e : Fault) → (write name d w).0 ≢ write_fault e

-- What a stream yields, by the tally before the run, the last state of the run and its result: the
-- envelopes of the history; and behind them, if the run returned, the result and its metrics, with
-- the tokens spent since.
pub data Closes {W : Type 0} (session : ReasoningSession W) (baseline : Option TokenUsage)
    (final : Run (Stage W)) : Result SearchResult → List Envelope → Type 0 where
  complete :
      (es : List Envelope) (r : SearchResult) (ts later : Float)
      → Mirrors session.p.ops (FormOf final.tree) es final.machine.history
      → r.phase_history ≡ final.machine.history
      → Closes session baseline final (ok r) (
          es
          ++ metrics_envelope
              (metrics_to_dict session.p.ops (metrics_of session r baseline final.world.world).0)
              ts
            ∷ result_envelope r later
            ∷ [])
  escaped :
      (es : List Envelope) (e : Fault)
      → Mirrors session.p.ops (FormOf final.tree) es final.machine.history
      → Closes session baseline final (raise e) es

module _ {W : Type 0} (session : ReasoningSession W) where
  swallow-ok :
      (answer : Written) → ((e : Fault) → answer ≢ write_fault e) → swallow session answer ≡ ok tt
  unfolding swallow
  swallow-ok written h = refl
  swallow-ok os_error h = refl
  swallow-ok (write_fault e) h = absurd (h e refl)

  archive-ok :
      (o : Option (Text → ArchiveDocument → W → Written × W)) (r : SearchResult) (m : RunMetrics)
      (w : W)
      → OnlyOsErrors o
      → IsWellFormed r.tree
      → (archive session o r m w).0 ≡ ok tt
  unfolding archive save_run result_to_archive_document entries_of
  archive-ok none r m w h k = refl
  archive-ok (some write) r m w h k =
      let (p, e, d) = tree_to_dict-Describes session.p.ops true r.tree k in
      rw (e, archive, save_run) (swallow-ok _ (h _ _ _))

  settle-ok :
      (r : SearchResult) (m : RunMetrics) (w : W)
      → OnlyOsErrors session.write
      → IsWellFormed r.tree
      → (settle session r m w).0 ≡ ok tt
  unfolding settle
  settle-ok r m w = archive-ok session.write r m w

  -- What the consumer reads of a queue that the worker leaves.
  abbrev Read :
      Option TokenUsage → Run (Stage W) → Result SearchResult → List (Option Envelope) → Type 0
  Read baseline final result q =
      (es : List Envelope) × (drain (q ++ none ∷ []) ≡ some es)
      × Closes session baseline final result es

-- The run behind a stream: its result and its last state.
unfoldable pub streamed_run :
    {W : Type 0} → ReasoningSession W → W → Result SearchResult × Run (Stage W)
unfolding read_usage
streamed_run session w =
    run (streamed session) session.config session.task
      (record { queue = []; world = (read_usage session w).1 })

-- Let writing a file raise nothing but OSErrors. `session.run` returns what the controller's run
-- returns, or raises what escapes it: a run that cannot be archived is not lost.
pub run_session-run :
    {W : Type 0} (session : ReasoningSession W) (w : W)
    → OnlyOsErrors session.write
    → (run_session session w).0
      ≡ (run (unstreamed session) session.config session.task (read_usage session w).1).0
unfolding run_session settled
run_session-run session w safe = go _ refl
  where
    result : Result SearchResult
    result = (run (unstreamed session) session.config session.task (read_usage session w).1).0

    go : (x : Result SearchResult) → result ≡ x → (run_session session w).0 ≡ result
    go (raise e) q = rw (q, run_session, settled) refl
    go (ok r) q =
        rw
          (
            q,
            run_session,
            settled,
            settle-ok session r _ _ safe
                (run-IsWellFormed (unstreamed session) session.config session.task _ r q),
          )
          refl
