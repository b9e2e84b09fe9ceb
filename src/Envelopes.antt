-- ===== src/Envelopes.antt =====
-- cognitivetree/ui/events.py: the envelopes that a streamed run is made of. The type of an envelope
-- is its constructor; a time stamp is the reading of `time.time()` that the caller takes.
use cognitive_tree_ai.Prelude.{ℕ, Float, Text, Option, List, map}
use cognitive_tree_ai.Phases.{Outcome}
use cognitive_tree_ai.Faults.{Fault}
use cognitive_tree_ai.Policies.{SearchEvent}
use cognitive_tree_ai.Tree.Payload.{Snapshot}
use cognitive_tree_ai.Search.{SearchResult, solution}
use cognitive_tree_ai.Observability.Summary.{MetricsEntries}

pub record ResultEntries : Type 0 where
  pub outcome : Outcome
  pub iterations : ℕ
  pub node_count : ℕ
  pub solution : Option Text
  pub error : Option Fault
  pub best_path : List Text

pub data Envelope : Type 0 where
  of_phase : SearchEvent → (ts : Float) → Envelope
  of_snapshot : Snapshot → (ts : Float) → Envelope
  of_metrics : MetricsEntries → (ts : Float) → Envelope
  of_result : ResultEntries → (ts : Float) → Envelope

unfoldable pub phase_envelope : SearchEvent → Float → Envelope
phase_envelope event ts = of_phase event ts

-- The snapshot is `tree.to_dict()`, which is taken before the time is read.
unfoldable pub snapshot_envelope : Snapshot → Float → Envelope
snapshot_envelope snapshot ts = of_snapshot snapshot ts

unfoldable pub result_envelope : SearchResult → Float → Envelope
unfolding solution
result_envelope r ts =
    of_result
      (record {
        outcome = r.outcome;
        iterations = r.iterations;
        node_count = r.node_count;
        solution = solution r;
        error = r.error;
        best_path = map (λ x. (r.tree.cell x).id) r.best_path;
      })
      ts

unfoldable pub metrics_envelope : MetricsEntries → Float → Envelope
metrics_envelope metrics ts = of_metrics metrics ts
