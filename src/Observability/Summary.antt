-- ===== src/Observability/Summary.antt =====
-- `to_dict` of cognitivetree/observability/metrics.py: a tally and the metrics of a run as the
-- dictionaries that are sent and archived.
use cognitive_tree_ai.Prelude.{ℕ, Float, FloatOps, Option, none, some}
use cognitive_tree_ai.Phases.{Phase, Outcome}
use cognitive_tree_ai.Observability.{TokenUsage, total_tokens}
use cognitive_tree_ai.Observability.Metrics.{StatusCounts, RunMetrics}

pub record UsageEntries : Type 0 where
  pub calls : ℕ
  pub prompt_tokens : ℕ
  pub completion_tokens : ℕ
  pub total_tokens : ℕ

-- `usage.to_dict()`
unfoldable pub usage_to_dict : TokenUsage → UsageEntries
unfolding total_tokens
usage_to_dict u = record {
  calls = u.calls;
  prompt_tokens = u.prompt_tokens;
  completion_tokens = u.completion_tokens;
  total_tokens = total_tokens u;
}

optional_usage : Option TokenUsage → Option UsageEntries
unfolding usage_to_dict
optional_usage none = none
optional_usage (some u) = some (usage_to_dict u)

pub record MetricsEntries : Type 0 where
  pub outcome : Outcome
  pub iterations : ℕ
  pub nodes : ℕ
  pub wall_time_seconds : Float
  pub solution_depth : Option ℕ
  pub best_path_length : ℕ
  pub structural_backtracks : ℕ
  pub revision_backtracks : ℕ
  pub revisions_granted : ℕ
  pub status_counts : StatusCounts
  pub phase_counts : Phase → ℕ
  pub phase_seconds : Phase → Float
  pub token_usage : Option UsageEntries

-- `metrics.to_dict()`
unfoldable pub metrics_to_dict : FloatOps → RunMetrics → MetricsEntries
unfolding optional_usage
metrics_to_dict ops m = record {
  outcome = m.outcome;
  iterations = m.iterations;
  nodes = m.nodes;
  wall_time_seconds = ops.round 6 m.wall_time_seconds;
  solution_depth = m.solution_depth;
  best_path_length = m.best_path_length;
  structural_backtracks = m.structural_backtracks;
  revision_backtracks = m.revision_backtracks;
  revisions_granted = m.revisions_granted;
  status_counts = m.status_counts;
  phase_counts = m.phase_counts;
  phase_seconds = λ q. ops.round 6 (m.phase_seconds q);
  token_usage = optional_usage m.token_usage;
}
