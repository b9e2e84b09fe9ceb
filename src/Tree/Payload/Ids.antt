-- ===== src/Tree/Payload/Ids.antt =====
-- The identifiers in a document, in the order of the traversal, and the index of the tree that
-- `from_dict` builds of it.
use cognitive_tree_ai.Prelude.{
  ◌<◌, ◌≡◌, ◌∙◌, refl, sym, ap, subst, FloatOps, Text, text_eq, text_eq_iff, Bool, some, List, [],
  ◌∷◌, ◌++◌, map, All, Bool-cases, inl, inr, false,
}
use mathlib.Core.List.{Memᴰ}
use cognitive_tree_ai.Node.{Ref}
use cognitive_tree_ai.Tree.{Tree, walk, index_lookup, index_insert}
use cognitive_tree_ai.Tree.Walks.{IsAscending, each, subtree, subtree_lem, walk-subtree, younger}
use cognitive_tree_ai.Tree.Payload.{Payload, Payloads, payload, empty, also, bare_of, index_of}
use cognitive_tree_ai.Tree.Payload.Written.{Describes, DescribesAll}

mutual
  pub ids_of : Payload → List Text
  ids_of (payload b ps) = b.id ∷ ids_all ps

  pub ids_all : Payloads → List Text
  ids_all empty = []
  ids_all (also p ps) = ids_of p ++ ids_all ps

abbrev pub id_at : Tree → Ref → Text
id_at t x = (t.cell x).id

map_append : {A B : Type 0} (f : A → B) (xs ys : List A) → map f (xs ++ ys) ≡ map f xs ++ map f ys
map_append f [] ys = refl
map_append f (x ∷ xs) ys = ap (◌∷◌ (f x)) (map_append f xs ys)

pub Memᴰ-map : {A B : Type 0} (f : A → B) {x : A} {xs : List A} → Memᴰ x xs → Memᴰ (f x) (map f xs)
Memᴰ-map f (Memᴰ.head e) = Memᴰ.head (ap f e)
Memᴰ-map f (Memᴰ.tail m) = Memᴰ.tail (Memᴰ-map f m)

module _ (ops : FloatOps) (include_metadata : Bool) (t : Tree) (h : IsAscending t) where
  mutual
    unfolding each Describes DescribesAll bare_of ids_of ids_all

    ids-subtree :
        (r : Ref) (p : Payload)
        → r < t.size
        → Describes ops include_metadata t.cell r p
        → map (id_at t) (subtree t r) ≡ ids_of p
    ids-subtree r (payload b ps) lt (e, ds) =
        ap (map (id_at t)) (subtree_lem t h r lt)
        ∙ ap (λ xs. id_at t r ∷ xs) (ids-each r (t.cell r).children ps (younger t h r lt) ds)
        ∙ ap (λ x. x ∷ ids_all ps) (sym (ap (λ x. x.id) e))

    ids-each :
        (r : Ref) (cs : List Ref) (ps : Payloads)
        → All (λ c. (r < c) × (c < t.size)) cs
        → DescribesAll ops include_metadata t.cell cs ps
        → map (id_at t) (each (subtree t) cs) ≡ ids_all ps
    ids-each r [] empty below ds = refl
    ids-each r [] (also p ps) below ds = absurd ds
    ids-each r (c ∷ cs) empty below ds = absurd ds
    ids-each r (c ∷ cs) (also p ps) (lt, below) (d, ds) =
        map_append (id_at t) (subtree t c) (each (subtree t) cs)
        ∙ ap (λ xs. xs ++ map (id_at t) (each (subtree t) cs)) (ids-subtree c p lt.1 d)
        ∙ ap (λ xs. ids_of p ++ xs) (ids-each r cs ps below ds)

  pub map-walk :
      (r : Ref) (p : Payload)
      → r < t.size
      → Describes ops include_metadata t.cell r p
      → map (id_at t) (walk t r) ≡ ids_of p
  map-walk r p lt d = ap (map (id_at t)) (walk-subtree t h r lt) ∙ ids-subtree r p lt d

module _ (t : Tree) where
  -- The index leads from the identifier to a node that has it.
  pub record Leads (index : List (Text × Ref)) (id : Text) : Type 0 where
    pub node : Ref
    pub found : index_lookup id index ≡ some node
    pub named : id_at t node ≡ id

  lookup-insert_same :
      (id : Text) (r : Ref) (index : List (Text × Ref))
      → index_lookup id (index_insert id r index) ≡ some r
  unfolding index_lookup index_insert
  lookup-insert_same id r [] = rw ((text_eq_iff id id).1 refl) refl
  lookup-insert_same id r ((key, old) ∷ index) = elim (Bool-cases (text_eq key id)) [
    | inl e ↦ rw (e, index_insert, e) refl
    | inr e ↦ rw (e, index_insert, e) (lookup-insert_same id r index)
  ]

  lookup-insert_other :
      (id key : Text) (r : Ref) (index : List (Text × Ref))
      → text_eq key id ≡ false
      → index_lookup id (index_insert key r index) ≡ index_lookup id index
  unfolding index_lookup index_insert
  lookup-insert_other id key r [] ne = rw ne refl
  lookup-insert_other id key r ((k, old) ∷ index) ne = elim (Bool-cases (text_eq k key)) [
    | inl e ↦
        let other : text_eq k id ≡ false =
          subst (λ x. text_eq x id ≡ false) (sym ((text_eq_iff k key).0 e)) ne in
        rw (e, index_insert, other) refl
    | inr e ↦ elim (Bool-cases (text_eq k id)) [
      | inl q ↦ rw (e, index_insert, q) refl
      | inr q ↦ rw (e, index_insert, q) (lookup-insert_other id key r index ne)
    ]
  ]

  Leads-insert :
      (x : Ref) (id : Text) (index : List (Text × Ref))
      → Leads index id
      → Leads (index_insert (id_at t x) x index) id
  Leads-insert x id index l = elim (Bool-cases (text_eq (id_at t x) id)) [
    | inl e ↦
        let same = (text_eq_iff (id_at t x) id).0 e in
        record {
          node = x;
          found =
              subst (λ k. index_lookup k (index_insert (id_at t x) x index) ≡ some x) same
                (lookup-insert_same (id_at t x) x index);
          named = same;
        }
    | inr e ↦ record {
      node = l.node;
      found = lookup-insert_other id (id_at t x) x index e ∙ l.found;
      named = l.named;
    }
  ]

  Leads-index_of :
      (rs : List Ref) (id : Text) (index : List (Text × Ref))
      → Leads index id
      → Leads (index_of t rs index) id
  unfolding index_of
  Leads-index_of [] id index l = l
  Leads-index_of (r ∷ rs) id index l = Leads-index_of rs id _ (Leads-insert r id index l)

  pub index_of-Leads :
      (rs : List Ref) (id : Text) (index : List (Text × Ref))
      → Memᴰ id (map (id_at t) rs)
      → Leads (index_of t rs index) id
  unfolding index_of
  index_of-Leads [] id index m = elim m [ ]
  index_of-Leads (r ∷ rs) id index (Memᴰ.head e) = Leads-index_of rs id _ (record {
    node = r;
    found =
        subst (λ k. index_lookup k (index_insert (id_at t r) r index) ≡ some r) (sym e)
          (lookup-insert_same (id_at t r) r index);
    named = sym e;
  })
  index_of-Leads (r ∷ rs) id index (Memᴰ.tail m) = index_of-Leads rs id _ m
