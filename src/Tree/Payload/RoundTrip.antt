-- ===== src/Tree/Payload/RoundTrip.antt =====
-- A tree survives the way through its document.
use cognitive_tree_ai.Prelude.{
  ◌<◌, ◌≡◌, ◌∙◌, refl, sym, ap, subst, Float, FloatOps, Bool, Option, none, some, List, [], ◌∷◌,
  Bool-cases, inl, inr,
}
use cognitive_tree_ai.Faults.{ok}
use cognitive_tree_ai.Node.{Node, Ref}
use cognitive_tree_ai.Tree.{Tree, len}
use cognitive_tree_ai.Tree.WellFormed.{IsWellFormed}
use cognitive_tree_ai.Tree.Walks.{IsAscending}
use cognitive_tree_ai.Tree.Payload.{
  Bare, Payload, Payloads, payload, empty, also, bare_of, bare_from, node_to_dict, node_from_dict,
  Snapshot, tree_to_dict, tree_from_dict,
}
use cognitive_tree_ai.Tree.Payload.Written.{
  Describes, DescribesAll, node_to_dict-Describes, tree_to_dict-Describes,
}
use cognitive_tree_ai.Tree.Payload.Restored.{Stands, StandsAll, node_from_dict-Stands}

-- Rounding a rounded number changes nothing.
abbrev pub RoundsOnce : FloatOps → Type 0
RoundsOnce ops = (x : Float) → ops.round 6 (ops.round 6 x) ≡ ops.round 6 x

module _ (ops : FloatOps) (include_metadata : Bool) (once : RoundsOnce ops) where
  bare_of-bare_from :
      (n : Node) (parent : Option Ref)
      → bare_of ops include_metadata (bare_from (bare_of ops include_metadata n) parent)
        ≡ bare_of ops include_metadata n
  bare_of-bare_from n parent = elim (Bool-cases include_metadata) [
    | inl e ↦ unfold bare_of bare_from in rw (e, once n.value_sum, once n.score) refl
    | inr e ↦ unfold bare_of bare_from in rw (e, once n.value_sum, once n.score) refl
  ]

  stood :
      (t u : Tree) (parent : Option Ref) (x c : Ref) (b : Bare) (cs : List Ref)
      → b ≡ bare_of ops include_metadata (t.cell x)
      → u.cell c ≡ record (bare_from b parent) { children = cs }
      → b ≡ bare_of ops include_metadata (u.cell c)
  stood t u parent x c b cs d e =
      let again : bare_of ops include_metadata (bare_from b parent) ≡ b =
        subst (λ y. bare_of ops include_metadata (bare_from y parent) ≡ y) (sym d)
          (bare_of-bare_from (t.cell x) parent) in
      let same : bare_of ops include_metadata (bare_from b parent)
          ≡ bare_of ops include_metadata (record (bare_from b parent) { children = cs }) =
        unfold bare_of in refl in
      sym again ∙ same ∙ ap (bare_of ops include_metadata) (sym e)

  -- What stands in a tree is described by the payload it was built from, if that payload describes
  -- some tree.
  mutual
    unfolding Describes DescribesAll Stands StandsAll bare_from

    Stands-Describes :
        (t u : Tree) (parent : Option Ref) (x c : Ref) (p : Payload)
        → Describes ops include_metadata t.cell x p
        → Stands u parent c p
        → Describes ops include_metadata u.cell c p
    Stands-Describes t u parent x c (payload b ps) (d, ds) (cs, e, s) = (
      stood t u parent x c b cs d e,
      subst (λ ys. DescribesAll ops include_metadata u.cell ys ps)
          (ap (λ (n : Node). n.children) (sym e))
          (StandsAll-DescribesAll t u c (t.cell x).children cs ps ds s),
    )

    StandsAll-DescribesAll :
        (t u : Tree) (r : Ref) (xs cs : List Ref) (ps : Payloads)
        → DescribesAll ops include_metadata t.cell xs ps
        → StandsAll u r cs ps
        → DescribesAll ops include_metadata u.cell cs ps
    StandsAll-DescribesAll t u r xs [] empty d s = tt
    StandsAll-DescribesAll t u r xs (c ∷ cs) empty d s = absurd s
    StandsAll-DescribesAll t u r [] cs (also p ps) d s = absurd d
    StandsAll-DescribesAll t u r (x ∷ xs) [] (also p ps) d s = absurd s
    StandsAll-DescribesAll t u r (x ∷ xs) (c ∷ cs) (also p ps) (d, ds) (s, ss) =
        (Stands-Describes t u (some r) x c p d s, StandsAll-DescribesAll t u r xs cs ps ds ss)

  -- Two payloads that describe the same node are equal.
  mutual
    unfolding Describes DescribesAll

    Describes-unique :
        (t : Tree) (x : Ref) (p q : Payload)
        → Describes ops include_metadata t.cell x p
        → Describes ops include_metadata t.cell x q
        → p ≡ q
    Describes-unique t x (payload a ps) (payload b qs) (e, d) (f, g) =
        cc (e, f, DescribesAll-unique t (t.cell x).children ps qs d g)

    DescribesAll-unique :
        (t : Tree) (xs : List Ref) (ps qs : Payloads)
        → DescribesAll ops include_metadata t.cell xs ps
        → DescribesAll ops include_metadata t.cell xs qs
        → ps ≡ qs
    DescribesAll-unique t [] empty empty d g = refl
    DescribesAll-unique t [] empty (also q qs) d g = absurd g
    DescribesAll-unique t [] (also p ps) qs d g = absurd d
    DescribesAll-unique t (x ∷ xs) empty qs d g = absurd d
    DescribesAll-unique t (x ∷ xs) (also p ps) empty d g = absurd g
    DescribesAll-unique t (x ∷ xs) (also p ps) (also q qs) (d, ds) (g, gs) =
        cc (Describes-unique t x p q d g, DescribesAll-unique t xs ps qs ds gs)

  -- A document of a well-formed tree: what `to_dict` returns of it.
  pub record Document (t : Tree) (s : Snapshot) : Type 0 where
    pub written : tree_to_dict ops include_metadata t ≡ ok s
    pub size : s.size ≡ len t
    pub describes : Describes ops include_metadata t.cell t.root s.root

  pub tree_to_dict-Document : (t : Tree) → IsWellFormed t → (s : Snapshot) × Document t s
  tree_to_dict-Document t h =
      let (p, e, d) = tree_to_dict-Describes ops include_metadata t h in
      (record { size = len t; root = p }, record { written = e; size = refl; describes = d })

  -- The tree that `from_dict` builds of the document of a tree: its nodes are numbered from the
  -- root on, and the document describes them too.
  pub tree_from_dict-Describes :
      (t : Tree) (s : Snapshot)
      → Document t s
      → ((tree_from_dict s).root ≡ 0)
        × (0 < (tree_from_dict s).size)
        × IsAscending (tree_from_dict s)
        × Describes ops include_metadata (tree_from_dict s).cell 0 s.root
  unfolding tree_from_dict
  tree_from_dict-Describes t s doc =
      let (stands, root, inhabited, ascending) = node_from_dict-Stands s.root in
      (
        root,
        inhabited,
        ascending,
        Stands-Describes t (node_from_dict s.root) none t.root 0 s.root doc.describes stands,
      )

  pub reread :
      (t : Tree) (s : Snapshot)
      → Document t s
      → node_to_dict ops include_metadata (tree_from_dict s) (tree_from_dict s).root ≡ ok s.root
  reread t s doc =
      let u = tree_from_dict s in
      let (at_root, inhabited, ascending, d) = tree_from_dict-Describes t s doc in
      let (q, e, g) = node_to_dict-Describes ops include_metadata u ascending 0 inhabited in
      ap (node_to_dict ops include_metadata u) at_root
      ∙ e
      ∙ ap ok (
          Describes-unique u u.root q s.root
            (subst (λ r. Describes ops include_metadata u.cell r q) (sym at_root) g)
            (subst (λ r. Describes ops include_metadata u.cell r s.root) (sym at_root) d))

  -- Let rounding a rounded number change nothing. `to_dict` of a well-formed tree returns a
  -- document, and the document of the tree that `from_dict` builds from it holds the same nodes
  -- again, with the same nesting and order.
  pub tree_to_dict-tree_from_dict :
      (t : Tree)
      → IsWellFormed t
      → (s : Snapshot) × (tree_to_dict ops include_metadata t ≡ ok s)
        × (tree_to_dict ops include_metadata (tree_from_dict s)
            ≡ ok (record { size = len (tree_from_dict s); root = s.root }))
  tree_to_dict-tree_from_dict t h =
      let (s, doc) = tree_to_dict-Document t h in
      (s, doc.written, unfold tree_to_dict in rw (reread t s doc) refl)
