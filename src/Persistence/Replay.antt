-- ===== src/Persistence/Replay.antt =====
-- `ReplaySession` of cognitivetree/persistence/replay.py: an archived run as the stream of a live
-- one. The clock and the pauses are calls of a world; `_SNAPSHOT_PHASES` is the same set as that of
-- a live session.
pub mod Retold
use cognitive_tree_ai.Prelude.{
  ℕ, suc, Float, FloatOps, zero_f, Text, Bool, true, false, Option, none, some, List, [], ◌∷◌,
  if◌then◌else◌,
}
use cognitive_tree_ai.Phases.{Phase}
use cognitive_tree_ai.Faults.{Fault, Result, ok, raise}
use cognitive_tree_ai.State.{PhaseTransition}
use cognitive_tree_ai.Policies.{SearchEvent}
use cognitive_tree_ai.Tree.Payload.{Snapshot, tree_to_dict, tree_from_dict}
use cognitive_tree_ai.Search.{SearchResult}
use cognitive_tree_ai.Observability.Metrics.{from_result}
use cognitive_tree_ai.Observability.Summary.{MetricsEntries, metrics_to_dict}
use cognitive_tree_ai.Envelopes.{
  Envelope, phase_envelope, snapshot_envelope, metrics_envelope, result_envelope,
}
use cognitive_tree_ai.Persistence.{RunArchive}
use cognitive_tree_ai.Session.{is_snapshot_phase}

pub record ReplaySession : Type 0 where
  pub archive : RunArchive
  pub speed : Option Float

is_positive : FloatOps → Option Float → Bool
is_positive ops none = true
is_positive ops (some speed) = if ops.le speed zero_f then false else true

-- The check of the constructor.
unfoldable pub make_replay : FloatOps → RunArchive → Option Float → Result ReplaySession
unfolding is_positive
make_replay ops archive speed =
    if is_positive ops speed
    then ok (record { archive = archive; speed = speed })
    else raise Fault.value_error

-- `_iteration_for`
unfoldable pub iteration_for : PhaseTransition → ℕ → ℕ
iteration_for r current = elim r.target [ Phase.expansion ↦ suc current | _ ↦ current ]

-- What the generator yields, and how it ends.
abbrev pub Yields : Type 0 → Type 0
Yields W = List Envelope × Result (Unit {0}) × W

module _ {W : Type 0} where
  abbrev pub first : Envelope → Yields W → Yields W
  first e (es, result, w) = (e ∷ es, result, w)

module _ {W : Type 0} (ops : FloatOps) (clock : W → Float × W) (sleep : Float → W → W) where
  -- `_wait`; the first transition has no previous one.
  unfoldable pub wait : Option Float → Option Float → Float → W → W
  wait none previous current w = w
  wait (some speed) none current w = w
  wait (some speed) (some previous) current w =
      let delay = ops.div (ops.sub current previous) speed in
      if ops.lt zero_f delay then sleep delay w else w

  -- `yield snapshot_envelope(ThoughtTree.from_dict(tree_payload))`
  unfoldable pub yield_snapshot : Result Snapshot → (W → Yields W) → W → Yields W
  unfolding snapshot_envelope
  yield_snapshot (raise e) rest w = ([], raise e, w)
  yield_snapshot (ok snapshot) rest w =
      let (now, w') = clock w in first (snapshot_envelope snapshot now) (rest w')

  unfoldable pub yield_picture : Bool → Snapshot → (W → Yields W) → W → Yields W
  unfolding yield_snapshot
  yield_picture true payload rest w =
      yield_snapshot (tree_to_dict ops false (tree_from_dict payload)) rest w
  yield_picture false payload rest w = rest w

  module _ (speed : Option Float) (payload : Snapshot) where
    -- The loop over the history.
    unfoldable pub retell : Option Float → ℕ → List PhaseTransition → (W → Yields W) → W → Yields W
    unfolding phase_envelope wait iteration_for yield_picture is_snapshot_phase
    retell previous iteration [] rest w = rest w
    retell previous iteration (r ∷ history) rest w =
        let now_at = iteration_for r iteration in
        let (now, w') = clock (wait speed previous r.timestamp w) in
        let event : SearchEvent = record {
          iteration = now_at;
          phase = r.target;
          node_id = none;
          detail = r.note;
        } in
        first (phase_envelope event now) (
          yield_picture (is_snapshot_phase r.target) payload
            (retell (some r.timestamp) now_at history rest) w')

  module _ (mentions : Text → Bool) (describe : Fault → Text) where
    -- `self._archive.metrics or ...`
    unfoldable pub archived_metrics : Option MetricsEntries → SearchResult → MetricsEntries
    unfolding metrics_to_dict
    archived_metrics (some metrics) r = metrics
    archived_metrics none r = metrics_to_dict ops (from_result ops mentions describe r none)

    unfoldable pub yield_closing : RunArchive → W → Yields W
    unfolding archived_metrics metrics_envelope result_envelope
    yield_closing a w =
        let (now, w') = clock w in
        let (later, w'') = clock w' in
        (
          metrics_envelope (archived_metrics a.metrics a.result) now
              ∷ result_envelope a.result later
              ∷ [],
          ok tt,
          w'',
        )

    unfoldable pub retell_all : ReplaySession → Result Snapshot → W → Yields W
    unfolding retell yield_closing
    retell_all session (raise e) w = ([], raise e, w)
    retell_all session (ok payload) w =
        retell session.speed payload none 0 session.archive.result.phase_history
          (yield_closing session.archive) w

    -- `session.stream()`
    unfoldable pub replay : ReplaySession → W → Yields W
    unfolding retell_all
    replay session w = retell_all session (tree_to_dict ops true session.archive.result.tree) w
