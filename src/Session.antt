-- ===== src/Session.antt =====
-- `ReasoningSession` of cognitivetree/session.py: one task run end to end, and its stream of
-- envelopes. The queue between the worker and the consumer is part of the world of the run.
pub mod Mirrored
pub mod Untouched
pub mod Followed
pub mod Streamed
use cognitive_tree_ai.Prelude.{
  Float, Text, Bool, true, false, Option, none, some, List, [], ◌∷◌, ◌++◌, if◌then◌else◌, strip,
}
use cognitive_tree_ai.Phases.{Phase, Outcome, contains, terminal_phases}
use cognitive_tree_ai.Faults.{Fault, Result, ok, raise}
use cognitive_tree_ai.Node.{Ref, Metadata, Critique}
use cognitive_tree_ai.Tree.{Tree}
use cognitive_tree_ai.Tree.Payload.{Snapshot, tree_to_dict}
use cognitive_tree_ai.Config.{SearchConfig}
use cognitive_tree_ai.Policies.{Policies, SearchEvent}
use cognitive_tree_ai.Expansion.{is_empty}
use cognitive_tree_ai.Search.{SearchResult, run}
use cognitive_tree_ai.Observability.{TokenUsage, minus}
use cognitive_tree_ai.Observability.Metrics.{RunMetrics, from_result}
use cognitive_tree_ai.Observability.Summary.{metrics_to_dict}
use cognitive_tree_ai.Envelopes.{
  Envelope, phase_envelope, snapshot_envelope, metrics_envelope, result_envelope,
}
use cognitive_tree_ai.Persistence.{ArchiveDocument, result_to_archive_document}

-- What writing a file comes to.
pub data Written : Type 0 where
  written os_error : Written
  write_fault : Fault → Written

-- What a session calls, and its arguments. `p` and `config` are those of the controller that the
-- factory builds.
pub record ReasoningSession (W : Type 0) : Type 0 where
  pub task : Text
  pub p : Policies W
  pub config : SearchConfig
  -- `time.time()`
  pub clock : W → Float × W
  pub usage : Option (W → TokenUsage × W)
  -- With an archive directory: the file's name from the time, the outcome and a random suffix, the
  -- time of the document, and the file system.
  pub name : Outcome → W → Text × W
  pub saved_at : W → Text × W
  pub write : Option (Text → ArchiveDocument → W → Written × W)
  -- The reading of a note for the metrics.
  pub mentions : Text → Bool
  pub describe : Fault → Text

-- The check of the constructor.
unfoldable pub make_session : {W : Type 0} → ReasoningSession W → Result (ReasoningSession W)
unfolding is_empty
make_session s = if is_empty (strip s.task) then raise Fault.value_error else ok s

-- The queue, in which `none` is the sentinel, and the world.
pub record Stage (W : Type 0) : Type 0 where
  pub queue : List (Option Envelope)
  pub world : W

-- `_SNAPSHOT_PHASES`
unfoldable pub is_snapshot_phase : Phase → Bool
unfolding contains
is_snapshot_phase q = contains (Phase.backpropagation ∷ terminal_phases) q

module _ {W : Type 0} where
  unfoldable pub put : Option Envelope → Stage W → Stage W
  put e s = record s { queue = s.queue ++ e ∷ [] }

  -- A call that does not touch the queue.
  unfoldable pub beside : {A : Type 0} → (W → A × W) → Stage W → A × Stage W
  beside f s = let (a, w) = f s.world in (a, record s { world = w })

  unfoldable pub beside_node : {A M : Type 0} → (W → A × M × W) → Stage W → A × M × Stage W
  beside_node f s = let (a, m, w) = f s.world in (a, m, record s { world = w })

module _ {W : Type 0} (session : ReasoningSession W) where
  -- `envelopes.put(snapshot_envelope(tree))`
  unfoldable pub put_snapshot : Result Snapshot → Stage W → Result (Unit {0}) × Stage W
  unfolding put snapshot_envelope
  put_snapshot (raise e) s = (raise e, s)
  put_snapshot (ok snapshot) s =
      let (now, w) = session.clock s.world in
      (ok tt, put (some (snapshot_envelope snapshot now)) (record s { world = w }))

  -- `sink(event)`
  unfoldable pub sink : SearchEvent → Tree → Stage W → Result (Unit {0}) × Stage W
  unfolding put phase_envelope is_snapshot_phase put_snapshot
  sink event t s =
      let (now, w) = session.clock s.world in
      let s' = put (some (phase_envelope event now)) (record s { world = w }) in
      if is_snapshot_phase event.phase
      then put_snapshot (tree_to_dict session.p.ops false t) s'
      else (ok tt, s')

  critic_beside :
      Option (Tree → Ref → W → Result (Option Critique) × W)
      → Option (Tree → Ref → Stage W → Result (Option Critique) × Stage W)
  unfolding beside
  critic_beside none = none
  critic_beside (some f) = some (λ t r. beside (f t r))

  revision_beside :
      Option (Tree → Ref → W → Result Bool × Metadata × W)
      → Option (Tree → Ref → Stage W → Result Bool × Metadata × Stage W)
  unfolding beside_node
  revision_beside none = none
  revision_beside (some f) = some (λ t r. beside_node (f t r))

  reward_beside :
      Option (Tree → Ref → Float → Option Critique → W → Result Float × Metadata × W)
      → Option (Tree → Ref → Float → Option Critique → Stage W → Result Float × Metadata × Stage W)
  unfolding beside_node
  reward_beside none = none
  reward_beside (some f) = some (λ t r x k. beside_node (f t r x k))

  pub call_beside : {A : Type 0} → Option (W → A × W) → Option (Stage W → A × Stage W)
  unfolding beside
  call_beside none = none
  call_beside (some f) = some (beside f)

  -- The policies of the controller that `self._factory(sink)` builds, beside the queue. Its cancel
  -- event is set once the consumer has closed the stream, which `p.cancelled` asks the world.
  unfoldable pub streamed : Policies (Stage W)
  unfolding sink beside beside_node critic_beside revision_beside reward_beside call_beside
  streamed = record {
    ops = session.p.ops;
    ids = session.p.ids;
    generate = λ t r k. beside (session.p.generate t r k);
    evaluate = λ t r. beside_node (session.p.evaluate t r);
    critique = critic_beside session.p.critique;
    revise = revision_beside session.p.revise;
    shape = reward_beside session.p.shape;
    check = call_beside session.p.check;
    cancelled = call_beside session.p.cancelled;
    on_event = some sink;
    monotonic = beside session.p.monotonic;
    random = beside session.p.random;
    pool_order = λ rs. beside (session.p.pool_order rs);
  }

  -- `self._usage() if self._usage is not None else None`
  unfoldable pub read_usage : W → Option TokenUsage × W
  read_usage w = elim session.usage [
    | none ↦ (none, w)
    | some f ↦ let (u, w') = f w in (some u, w')
  ]

  -- `self._usage() - baseline`
  unfoldable pub spent_since : Option TokenUsage → Option TokenUsage → Option TokenUsage
  unfolding minus
  spent_since none usage = none
  spent_since (some baseline) none = none
  spent_since (some baseline) (some usage) = some (minus usage baseline)

  -- `_metrics`
  unfoldable pub metrics_of : SearchResult → Option TokenUsage → W → RunMetrics × W
  unfolding spent_since read_usage
  metrics_of r baseline w =
      let (usage, w') = read_usage w in
      (
        from_result session.p.ops session.mentions session.describe r (spent_since baseline usage),
        w',
      )

  -- `except OSError`: the run that could not be archived is no error.
  unfoldable pub swallow : Written → Result (Unit {0})
  swallow written = ok tt
  swallow os_error = ok tt
  swallow (write_fault e) = raise e

  unfoldable pub save_run :
      (Text → ArchiveDocument → W → Written × W)
      → Text
      → Result ArchiveDocument
      → W
      → Result (Unit {0}) × W
  unfolding swallow
  save_run write name (raise e) w = (raise e, w)
  save_run write name (ok document) w =
      let (answer, w') = write name document w in (swallow answer, w')

  -- `_archive`
  unfoldable pub archive :
      Option (Text → ArchiveDocument → W → Written × W)
      → SearchResult
      → RunMetrics
      → W
      → Result (Unit {0}) × W
  unfolding save_run result_to_archive_document metrics_to_dict
  archive none r m w = (ok tt, w)
  archive (some write) r m w =
      let (name, w') = session.name r.outcome w in
      let (now, w'') = session.saved_at w' in
      save_run write name
        (result_to_archive_document session.p.ops r (some (metrics_to_dict session.p.ops m)) now)
        w''

  -- `_settle`, without its log event.
  unfoldable pub settle : SearchResult → RunMetrics → W → Result (Unit {0}) × W
  unfolding archive
  settle r m w = archive session.write r m w

  -- `self._factory(None)`, called without a cancel event.
  unfoldable pub unstreamed : Policies W
  unstreamed = record session.p { on_event = none; cancelled = none }

  -- The result that `run` returns once it is settled.
  unfoldable pub settled : Option TokenUsage → Result SearchResult → W → Result SearchResult × W
  unfolding metrics_of settle
  settled baseline (raise e) w = (raise e, w)
  settled baseline (ok r) w =
      let (m, w') = metrics_of r baseline w in
      let (answer, w'') = settle r m w' in
      elim answer [ raise e ↦ (raise e, w'') | ok _ ↦ (ok r, w'') ]

  -- `session.run()`
  unfoldable pub run_session : W → Result SearchResult × W
  unfolding read_usage settled unstreamed
  run_session w =
      let (baseline, w') = read_usage w in
      let (result, s) = run unstreamed session.config session.task w' in
      settled baseline result s.world

  -- The two envelopes that close a stream.
  unfoldable pub put_closing : SearchResult → RunMetrics → Stage W → Stage W
  unfolding put metrics_envelope metrics_to_dict result_envelope
  put_closing r m s =
      let (now, w) = session.clock s.world in
      let s' =
        put (some (metrics_envelope (metrics_to_dict session.p.ops m) now))
          (record s { world = w }) in
      let (now', w') = session.clock s'.world in
      put (some (result_envelope r now')) (record s' { world = w' })

  unfoldable pub closing : SearchResult → RunMetrics → Result (Unit {0}) → Stage W → Stage W
  unfolding put_closing
  closing r m (raise e) s = s
  closing r m (ok _) s = put_closing r m s

  -- The body of the worker's `try`, after the run.
  unfoldable pub conclude : Option TokenUsage → Result SearchResult → Stage W → Stage W
  unfolding metrics_of settle closing
  conclude baseline (raise e) s = s
  conclude baseline (ok r) s =
      let (m, w) = metrics_of r baseline s.world in
      let (answer, w') = settle r m w in closing r m answer (record s { world = w' })

  -- `work()`: the sentinel is put whatever happened; a fault ends the thread.
  unfoldable pub work : W → Stage W
  unfolding read_usage streamed put conclude
  work w =
      let (baseline, w') = read_usage w in
      let (result, s) =
        run streamed session.config session.task (record { queue = []; world = w' }) in
      put none (conclude baseline result s.world)

-- What the consumer's loop yields from the queue; without a sentinel it would wait for ever.
unfoldable pub drain : List (Option Envelope) → Option (List Envelope)
drain [] = none
drain (none ∷ queue) = some []
drain (some e ∷ queue) = elim (drain queue) [ none ↦ none | some es ↦ some (e ∷ es) ]

-- `session.stream()`, read to its end.
unfoldable pub stream : {W : Type 0} → ReasoningSession W → W → Option (List Envelope)
unfolding work drain
stream session w = drain (work session w).queue
