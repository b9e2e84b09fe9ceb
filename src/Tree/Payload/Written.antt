-- ===== src/Tree/Payload/Written.antt =====
-- `to_dict` meets every child before its parent, so it finds the payload of each child, and what it
-- returns describes the nodes below its start.
use cognitive_tree_ai.Prelude.{
  ℕ, zero, suc, ◌+◌, ◌≤◌, ◌<◌, All-map, All-Memᴰ, ◌≡◌, ◌∙◌, refl, sym, subst, FloatOps, Bool, false,
  List, [], ◌∷◌, ◌++◌, reverse, ◌==◌, ==_iff, Bool-cases, All, ◌⊎◌, inl, inr, Memᴰ-append_left,
  Memᴰ-append_right, arith, ap,
}
use mathlib.Core.List.{Memᴰ, reverse-cons, append_assoc, append-nil}
use cognitive_tree_ai.Faults.{ok}
use cognitive_tree_ai.Node.{Node, Ref}
use cognitive_tree_ai.Tree.{Tree, walk, len}
use cognitive_tree_ai.Tree.WellFormed.{IsWellFormed}
use cognitive_tree_ai.Tree.Walks.{
  self, IsAscending, IsWellFormed→IsAscending, each, Memᴰ-each, walk-visits, younger,
}
use cognitive_tree_ai.Tree.Payload.{
  Payload, Payloads, payload, empty, also, bare_of, found, collect, fill, look_up, node_to_dict,
  tree_to_dict,
}

module _ (ops : FloatOps) (include_metadata : Bool) (cell : Ref → Node) where
  -- The payload says what the node at `r` and those below it are.
  unfoldable mutual
    pub Describes : Ref → Payload → Type 0
    Describes r (payload b ps) =
        (b ≡ bare_of ops include_metadata (cell r)) × DescribesAll (cell r).children ps

    pub DescribesAll : List Ref → Payloads → Type 0
    DescribesAll [] empty = Unit
    DescribesAll [] (also p ps) = ⊥
    DescribesAll (c ∷ cs) empty = ⊥
    DescribesAll (c ∷ cs) (also p ps) = Describes c p × DescribesAll cs ps

module _ (ops : FloatOps) (include_metadata : Bool) (t : Tree) where
  abbrev SaysOf : Ref → Payload → Type 0
  SaysOf r p = Describes ops include_metadata t.cell r p

  abbrev SaysAll : List Ref → Payloads → Type 0
  SaysAll rs ps = DescribesAll ops include_metadata t.cell rs ps

  -- Each node of the list has its children further on.
  abbrev Later : List Ref → Type 0
  Later [] = Unit
  Later (r ∷ rs) = ((c : Ref) → Memᴰ c (t.cell r).children → Memᴰ c rs) × Later rs

  Later-append : (rs ss : List Ref) → Later rs → Later ss → Later (rs ++ ss)
  Later-append [] ss h k = k
  Later-append (r ∷ rs) ss (h, more) k =
      (λ c m. Memᴰ-append_left ss (h c m), Later-append rs ss more k)

  -- Each node of the list has its children among the keys or further back.
  abbrev Ready : List Ref → List Ref → Type 0
  Ready keys [] = Unit
  Ready keys (r ∷ rs) = ((c : Ref) → Memᴰ c (t.cell r).children → Memᴰ c keys) × Ready (r ∷ keys) rs

  Ready-snoc :
      (keys rs : List Ref) (r : Ref)
      → Ready keys rs
      → ((c : Ref) → Memᴰ c (t.cell r).children → Memᴰ c keys ⊎ Memᴰ c rs)
      → Ready keys (rs ++ r ∷ [])
  Ready-snoc keys [] r h k = (λ c m. elim (k c m) [ inl l ↦ l | inr n ↦ elim n [ ] ], tt)
  Ready-snoc keys (x ∷ rs) r (h, more) k = (h, Ready-snoc (x ∷ keys) rs r more moved)
    where
      shift : {c : Ref} → Memᴰ c keys ⊎ Memᴰ c (x ∷ rs) → Memᴰ c (x ∷ keys) ⊎ Memᴰ c rs
      shift (inl l) = inl (Memᴰ.tail l)
      shift (inr (Memᴰ.head e)) = inl (Memᴰ.head e)
      shift (inr (Memᴰ.tail m)) = inr m

      moved : (c : Ref) → Memᴰ c (t.cell r).children → Memᴰ c (x ∷ keys) ⊎ Memᴰ c rs
      moved c m = shift (k c m)

  Memᴰ-reverse : (c : Ref) (rs : List Ref) → Memᴰ c rs → Memᴰ c (reverse rs)
  Memᴰ-reverse c [] m = elim m [ ]
  Memᴰ-reverse c (r ∷ rs) (Memᴰ.head e) =
      rw (reverse-cons r rs) (Memᴰ-append_right (reverse rs) (Memᴰ.head e))
  Memᴰ-reverse c (r ∷ rs) (Memᴰ.tail m) =
      rw (reverse-cons r rs) (Memᴰ-append_left (r ∷ []) (Memᴰ-reverse c rs m))

  Ready-reverse : (rs : List Ref) → Later rs → Ready [] (reverse rs)
  Ready-reverse [] h = tt
  Ready-reverse (r ∷ rs) (h, more) = rw (reverse-cons r rs) (
      Ready-snoc [] (reverse rs) r (Ready-reverse rs more) (λ c m. inr (Memᴰ-reverse c rs (h c m))))

  -- The table has a payload for each of the keys, and each describes its node.
  abbrev Keyed : List Ref → List (Ref × Payload) → Type 0
  Keyed keys table = (r : Ref) → Memᴰ r keys → (p : Payload) × (found r table ≡ ok p) × SaysOf r p

  Keyed-cons :
      (keys : List Ref) (table : List (Ref × Payload)) (r : Ref) (p : Payload)
      → Keyed keys table
      → SaysOf r p
      → Keyed (r ∷ keys) ((r, p) ∷ table)
  unfolding found
  Keyed-cons keys table r p k d x m = elim (Bool-cases (r == x)) [
    | inl e ↦ rw e (p, refl, subst (λ y. SaysOf y p) ((==_iff r x).0 e) d)
    | inr e ↦ rw e (k x (older m e))
  ]
    where
      older : {y : Ref} → Memᴰ y (r ∷ keys) → (r == y) ≡ false → Memᴰ y keys
      older {y} (Memᴰ.head q) e = absurd (cc (e, (==_iff r y).1 (sym q)))
      older (Memᴰ.tail n) e = n

  collect-DescribesAll :
      (keys : List Ref) (table : List (Ref × Payload)) (cs : List Ref)
      → Keyed keys table
      → ((c : Ref) → Memᴰ c cs → Memᴰ c keys)
      → (ps : Payloads) × (collect table cs ≡ ok ps) × SaysAll cs ps
  unfolding collect DescribesAll
  collect-DescribesAll keys table [] k h = (empty, refl, tt)
  collect-DescribesAll keys table (c ∷ cs) k h =
      let (p, e, d) = k c (h c (Memᴰ.head refl)) in
      let (ps, q, ds) = collect-DescribesAll keys table cs k (λ x m. h x (Memᴰ.tail m)) in
      (also p ps, rw (e, q) refl, (d, ds))

  fill-Keyed :
      (keys rs : List Ref) (table : List (Ref × Payload))
      → Keyed keys table
      → Ready keys rs
      → (table' : List (Ref × Payload)) × (fill ops include_metadata t rs table ≡ ok table')
        × Keyed (reverse rs ++ keys) table'
  unfolding fill Describes
  fill-Keyed keys [] table k h = (table, refl, k)
  fill-Keyed keys (r ∷ rs) table k (h, more) =
      let (ps, e, ds) = collect-DescribesAll keys table (t.cell r).children k h in
      let (table', q, k') =
        fill-Keyed (r ∷ keys) rs ((r, payload (bare_of ops include_metadata (t.cell r)) ps) ∷ table)
          (Keyed-cons keys table r (payload _ ps) k (refl, ds)) more in
      (
        table',
        rw (e, fill) q,
        subst (λ xs. Keyed xs table')
            (sym (append_assoc (reverse rs) (r ∷ []) keys)
              ∙ ap (λ xs. xs ++ keys) (sym (reverse-cons r rs)))
            k',
      )

  module _ (h : IsAscending t) where
    Later-each : (cs : List Ref) → All (λ c. Later (walk t c)) cs → Later (each (walk t) cs)
    unfolding each
    Later-each [] a = tt
    Later-each (c ∷ cs) (a, more) =
        Later-append (walk t c) (each (walk t) cs) a (Later-each cs more)

    Later-walk : (k : ℕ) (r : Ref) → r < t.size → t.size ≤ k + r → Later (walk t r)
    Later-walk zero r lt b = absurd (omega arith)
    Later-walk (suc k) r lt b = rw (walk-visits t h r lt).0 (
      (λ c m. Memᴰ-each (walk t) m (started c (All-Memᴰ _ m (younger t h r lt)).1)),
      Later-each (t.cell r).children
          (All-map _ _ _ (λ c q. Later-walk k c q.1 (omega arith)) (younger t h r lt)),
    )
      where
        started : (c : Ref) → c < t.size → Memᴰ c (walk t c)
        started c b = ((walk-visits t h c b).1 c).1 (self c)

    -- Where children are younger than their parents, `to_dict` returns the description of its node.
    pub node_to_dict-Describes :
        (r : Ref)
        → r < t.size
        → (p : Payload) × (node_to_dict ops include_metadata t r ≡ ok p)
          × Describes ops include_metadata t.cell r p
    unfolding node_to_dict look_up
    node_to_dict-Describes r lt =
        let (table, e, k) =
          fill-Keyed [] (reverse (walk t r)) [] (λ x m. elim m [ ])
            (Ready-reverse _ (Later-walk t.size r lt (omega arith))) in
        let (p, q, d) = k r (
          rw (append-nil (reverse (reverse (walk t r))))
            (Memᴰ-reverse r _ (Memᴰ-reverse r _ (((walk-visits t h r lt).1 r).1 (self r))))) in
        (p, rw (e, node_to_dict) q, d)

  -- A well-formed tree is written without a fault.
  pub tree_to_dict-Describes :
      IsWellFormed t
      → (p : Payload) × (tree_to_dict ops include_metadata t
          ≡ ok (record { size = len t; root = p }))
        × Describes ops include_metadata t.cell t.root p
  unfolding tree_to_dict
  tree_to_dict-Describes h =
      let (p, e, d) =
        node_to_dict-Describes (IsWellFormed→IsAscending h) t.root
          (subst (λ r. r < t.size) (sym h.root_zero) h.inhabited) in
      (p, rw e refl, d)
