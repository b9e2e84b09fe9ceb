-- ===== src/Persistence.antt =====
-- cognitivetree/persistence/archive.py: a finished run as one document, and the run that is read
-- back from it. What JSON makes of a document, and the file system, are parameters.
pub mod Reopened
pub mod Replay
use cognitive_tree_ai.Prelude.{
  ℕ, ◌==◌, FloatOps, Text, text_eq, codes, true, Option, List, [], ◌∷◌, map, if◌then◌else◌,
}
use cognitive_tree_ai.Phases.{Outcome}
use cognitive_tree_ai.Faults.{Fault, Result, ok, raise}
use cognitive_tree_ai.State.{PhaseTransition}
use cognitive_tree_ai.Node.{Ref}
use cognitive_tree_ai.Tree.{Tree, get}
use cognitive_tree_ai.Tree.Payload.{Snapshot, tree_to_dict, tree_from_dict}
use cognitive_tree_ai.Search.{SearchResult}
use cognitive_tree_ai.Observability.Summary.{MetricsEntries}

abbrev pub archive_format : Text
archive_format = codes "cognitivetree-run"

abbrev pub archive_version : ℕ
archive_version = 1

-- The entries of a document of the right form.
pub record ArchiveDocument : Type 0 where
  pub format : Text
  pub version : ℕ
  pub saved_at : Text
  pub task : Text
  pub outcome : Outcome
  pub iterations : ℕ
  pub node_count : ℕ
  pub error : Option Fault
  pub best_path : List Text
  pub tree : Snapshot
  pub phase_history : List PhaseTransition
  pub metrics : Option MetricsEntries

pub record RunArchive : Type 0 where
  pub result : SearchResult
  pub metrics : Option MetricsEntries
  pub saved_at : Text
  pub version : ℕ

-- `archive.task`
unfoldable pub archive_task : RunArchive → Text
archive_task a = (a.result.tree.cell a.result.tree.root).content

abbrev pub entries : SearchResult → Option MetricsEntries → Text → Snapshot → ArchiveDocument
entries r metrics now tree = record {
  format = archive_format;
  version = archive_version;
  saved_at = now;
  task = (r.tree.cell r.tree.root).content;
  outcome = r.outcome;
  iterations = r.iterations;
  node_count = r.node_count;
  error = r.error;
  best_path = map (λ x. (r.tree.cell x).id) r.best_path;
  tree = tree;
  phase_history = r.phase_history;
  metrics = metrics;
}

unfoldable pub entries_of :
    SearchResult → Option MetricsEntries → Text → Result Snapshot → Result ArchiveDocument
entries_of r metrics now (raise e) = raise e
entries_of r metrics now (ok tree) = ok (entries r metrics now tree)

-- `now` is the time as `datetime.now(timezone.utc).isoformat()` writes it.
unfoldable pub result_to_archive_document :
    FloatOps → SearchResult → Option MetricsEntries → Text → Result ArchiveDocument
unfolding entries_of
result_to_archive_document ops r metrics now =
    entries_of r metrics now (tree_to_dict ops true r.tree)

-- `tuple(tree.get(node_id) for node_id in ...)`
unfoldable pub get_all : Tree → List Text → Result (List Ref)
get_all t [] = ok []
get_all t (id ∷ ids) = elim (get t id) [
  | raise e ↦ raise e
  | ok r ↦ elim (get_all t ids) [ raise e ↦ raise e | ok rs ↦ ok (r ∷ rs) ]
]

abbrev pub run_of : ArchiveDocument → Tree → List Ref → RunArchive
run_of d t best_path = record {
  result = record {
    outcome = d.outcome;
    best_path = best_path;
    iterations = d.iterations;
    node_count = d.node_count;
    phase_history = d.phase_history;
    tree = t;
    error = d.error;
  };
  metrics = d.metrics;
  saved_at = d.saved_at;
  version = d.version;
}

-- An unknown identifier in the path is a KeyError, which the reader turns into its own error, an
-- ArchiveFormatError, which is a ValueError.
unfoldable pub rehydrated : ArchiveDocument → Tree → Result (List Ref) → Result RunArchive
rehydrated d t (raise e) = raise Fault.value_error
rehydrated d t (ok best_path) = ok (run_of d t best_path)

unfoldable pub archive_from_document : ArchiveDocument → Result RunArchive
unfolding get_all rehydrated
archive_from_document d =
    let t = tree_from_dict d.tree in
    if text_eq d.format archive_format
    then if d.version == archive_version
      then rehydrated d t (get_all t d.best_path)
      else raise Fault.value_error
    else raise Fault.value_error
