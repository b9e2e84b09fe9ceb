-- ===== src/Persistence/Reopened.antt =====
-- A run that is read back from its archive.
use cognitive_tree_ai.Prelude.{
  ◌≡◌, ◌<◌, ◌∙◌, refl, sym, ap, subst, FloatOps, Text, text_eq, true, Option, List, [], ◌∷◌, map,
  All,
}
use mathlib.Core.List.{Memᴰ}
use cognitive_tree_ai.Faults.{ok}
use cognitive_tree_ai.Node.{Ref}
use cognitive_tree_ai.Tree.{Tree, walk, len, get}
use cognitive_tree_ai.Tree.WellFormed.{IsWellFormed}
use cognitive_tree_ai.Tree.Walks.{IsWellFormed→IsAscending}
use cognitive_tree_ai.Tree.Payload.{
  Snapshot, Payload, payload, bare_of, tree_to_dict, tree_from_dict, node_from_dict, index_of,
}
use cognitive_tree_ai.Tree.Payload.Written.{Describes}
use cognitive_tree_ai.Tree.Payload.RoundTrip.{
  RoundsOnce, Document, tree_to_dict-Document, tree_from_dict-Describes, reread,
}
use cognitive_tree_ai.Tree.Payload.Ids.{id_at, Memᴰ-map, map-walk, Leads, index_of-Leads}
use cognitive_tree_ai.Search.{SearchResult}
use cognitive_tree_ai.Observability.Summary.{MetricsEntries}
use cognitive_tree_ai.Persistence.{
  ArchiveDocument, RunArchive, entries, run_of, entries_of, result_to_archive_document, get_all,
  rehydrated, archive_from_document,
}

-- What `tuple(tree.get(id) for id in ids)` finds: nodes with these identifiers.
record Got (t : Tree) (ids : List Text) : Type 0 where
  nodes : List Ref
  found : get_all t ids ≡ ok nodes
  named : map (id_at t) nodes ≡ ids

found_path : (t : Tree) (ids : List Text) → All (Leads t t.index) ids → Got t ids
unfolding get_all get
found_path t [] leads = record { nodes = []; found = refl; named = refl }
found_path t (id ∷ ids) (l, leads) =
    let rest = found_path t ids leads in
    record {
      nodes = l.node ∷ rest.nodes;
      found = rw (get_all, l.found, rest.found) refl;
      named = ap (λ x. x ∷ map (id_at t) rest.nodes) l.named ∙ ap (◌∷◌ id) rest.named;
    }

same_content :
    (ops : FloatOps) (t u : Tree) (r x : Ref) (p : Payload)
    → Describes ops true t.cell r p
    → Describes ops true u.cell x p
    → (u.cell x).content ≡ (t.cell r).content
unfolding Describes bare_of
same_content ops t u r x (payload b ps) (e, d) (g, f) =
    sym (ap (λ y. y.content) g) ∙ ap (λ y. y.content) e

module _ (ops : FloatOps) (once : RoundsOnce ops) (t : Tree) (s : Snapshot) (h : IsWellFormed t)
    (doc : Document ops true once t s) where
  -- The identifier of a node leads to a node of the tree that is read back.
  id-Leads :
      (x : Ref)
      → Memᴰ x (walk t t.root)
      → Leads (tree_from_dict s) (tree_from_dict s).index (id_at t x)
  unfolding tree_from_dict
  id-Leads x m =
      let v = node_from_dict s.root in
      let (at_root, inhabited, ascending, d) = tree_from_dict-Describes ops true once t s doc in
      let same : map (id_at t) (walk t t.root) ≡ map (id_at v) (walk v 0) =
        map-walk ops true t (IsWellFormed→IsAscending h) t.root s.root
          (subst (λ r. r < t.size) (sym h.root_zero) h.inhabited) doc.describes
        ∙ sym (map-walk ops true v ascending 0 s.root inhabited d) in
      let l : Leads v (index_of v (walk v 0) []) (id_at t x) =
        index_of-Leads v (walk v 0) (id_at t x) []
          (subst (Memᴰ (id_at t x)) same (Memᴰ-map (id_at t) m)) in
      record { node = l.node; found = l.found; named = l.named }

  path-Leads :
      (path : List Ref)
      → All (λ x. Memᴰ x (walk t t.root)) path
      → All (Leads (tree_from_dict s) (tree_from_dict s).index) (map (id_at t) path)
  path-Leads [] known = tt
  path-Leads (x ∷ path) (m, known) = (id-Leads x m, path-Leads path known)

-- Let rounding a rounded number change nothing. The archive of a run whose tree is well-formed and
-- whose path consists of nodes of the tree can be written and read back; and the archive of the run
-- that is read back is the same document, but for the size of the tree, which counts the distinct
-- identifiers.
pub archive_from_document-result_to_archive_document :
    (ops : FloatOps) (r : SearchResult) (metrics : Option MetricsEntries) (now : Text)
    → RoundsOnce ops
    → IsWellFormed r.tree
    → All (λ x. Memᴰ x (walk r.tree r.tree.root)) r.best_path
    → (d : ArchiveDocument) × (a : RunArchive) × (result_to_archive_document ops r metrics now
        ≡ ok d)
      × (archive_from_document d ≡ ok a)
      × (result_to_archive_document ops a.result a.metrics a.saved_at
          ≡ ok (record d { tree = record d.tree { size = len a.result.tree } }))
unfolding result_to_archive_document entries_of archive_from_document rehydrated text_eq
archive_from_document-result_to_archive_document ops r metrics now once h known =
    let (s, doc) = tree_to_dict-Document ops true once r.tree h in
    let u = tree_from_dict s in
    let got =
      found_path u (map (id_at r.tree) r.best_path)
        (path-Leads ops once r.tree s h doc r.best_path known) in
    let (at_root, inhabited, ascending, described) =
      tree_from_dict-Describes ops true once r.tree s doc in
    let task : (u.cell u.root).content ≡ (r.tree.cell r.tree.root).content =
      same_content ops r.tree u r.tree.root u.root s.root doc.describes
        (subst (λ x. Describes ops true u.cell x s.root) (sym at_root) described) in
    let again : tree_to_dict ops true u ≡ ok (record { size = len u; root = s.root }) =
      unfold tree_to_dict in rw (reread ops true once r.tree s doc) refl in
    (
      entries r metrics now s,
      run_of (entries r metrics now s) u got.nodes,
      rw (doc.written) refl,
      rw (got.found) refl,
      rw (again, task, got.named) refl,
    )
