-- ===== src/Examples/Archives.antt =====
-- The theorems on archives at concrete inputs.
use cognitive_tree_ai.Prelude.{
  ℕ, ◌<◌, arith, ◌+◌, ◌≡◌, refl, zero_f, Float, text_eq, false, none, some, List, [], ◌∷◌, ◌++◌,
  All, true,
}
use mathlib.Core.List.{Memᴰ}
use cognitive_tree_ai.Phases.{Outcome}
use cognitive_tree_ai.Faults.{Fault, ok}
use cognitive_tree_ai.Node.{NodeStatus}
use cognitive_tree_ai.Tree.{walk, len, add_child, new_tree, attach_child, index_lookup}
use cognitive_tree_ai.Tree.Payload.{Snapshot, payload, empty, tree_to_dict, tree_from_dict}
use cognitive_tree_ai.Tree.Walks.{Below, walk-Below}
use cognitive_tree_ai.Envelopes.{Envelope, metrics_envelope, result_envelope}
use cognitive_tree_ai.Persistence.{
  ArchiveDocument, RunArchive, archive_format, run_of, get_all, rehydrated, archive_from_document,
  result_to_archive_document,
}
use cognitive_tree_ai.Persistence.Reopened.{archive_from_document-result_to_archive_document}
use cognitive_tree_ai.Session.Mirrored.{Mirrors}
use cognitive_tree_ai.Persistence.Replay.{replay, archived_metrics}
use cognitive_tree_ai.Persistence.Replay.Retold.{replay-Retells}
use cognitive_tree_ai.Scenarios.{number, numbers, pair, pair-IsWellFormed, finished, started}

path_known : All (λ x. Memᴰ x (walk pair pair.root)) finished.best_path
unfolding add_child new_tree text_eq attach_child index_lookup
path_known =
    let inside : 0 < pair.size = omega arith in
    let below = (walk-Below pair pair-IsWellFormed 0 inside).1 in
    (
      (below 0).1 (Below.self 0),
      ((below 1).1 (Below.child 0 1 (Memᴰ.head refl) (Below.self 1)), tt),
    )

archive_from_document-result_to_archive_document_example :
    (d : ArchiveDocument) × (a : RunArchive) × (result_to_archive_document numbers finished none
        (50 ∷ [])
      ≡ ok d)
    × (archive_from_document d ≡ ok a)
    × (result_to_archive_document numbers a.result a.metrics a.saved_at
        ≡ ok (record d { tree = record d.tree { size = len a.result.tree } }))
archive_from_document-result_to_archive_document_example =
    archive_from_document-result_to_archive_document numbers finished none (50 ∷ []) (λ x. refl)
      pair-IsWellFormed path_known

-- The document of a run that began and did nothing more.
abbrev document : ArchiveDocument
document = record {
  format = archive_format;
  version = 1;
  saved_at = [];
  task = 80 ∷ [];
  outcome = Outcome.failed;
  iterations = 0;
  node_count = 1;
  error = some (Fault.raised []);
  best_path = [];
  tree = record {
    size = 1;
    root =
        payload
          (record {
            id = 1 ∷ [];
            content = 80 ∷ [];
            status = NodeStatus.pending;
            depth = 0;
            visits = 0;
            value_sum = zero_f;
            score = zero_f;
            rationale = [];
            metadata = none;
          })
          empty;
  };
  phase_history = started.history;
  metrics = none;
}

abbrev reopened : RunArchive
reopened = run_of document (tree_from_dict document.tree) []

document_reads : archive_from_document document ≡ ok reopened
unfolding archive_from_document rehydrated get_all text_eq
document_reads = refl

abbrev clock : ℕ → Float × ℕ
clock w = (number w, w + 1)

replay-Retells_example :
    (payload : Snapshot) × (es : List Envelope) × (now : Float) × (later : Float) × (after : ℕ)
    × (replay numbers clock
          (λ delay w. w + 1)
          (λ text. false)
          (λ e. [])
          (record { archive = reopened; speed = some (number 1) })
          0
        ≡ (
          es
              ++ metrics_envelope
                  (archived_metrics numbers clock
                    (λ delay w. w + 1)
                    (λ text. false)
                    (λ e. [])
                    none
                    reopened.result)
                  now
                ∷ result_envelope reopened.result later
                ∷ [],
          ok tt,
          after,
        ))
    × (tree_to_dict numbers true reopened.result.tree ≡ ok payload)
    × Mirrors numbers (λ t. t ≡ tree_from_dict payload) es started.history
replay-Retells_example =
    replay-Retells numbers clock (λ delay w. w + 1) (λ text. false) (λ e. []) document reopened
      (some (number 1)) 0 document_reads
