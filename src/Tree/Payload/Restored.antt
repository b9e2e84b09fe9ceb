-- ===== src/Tree/Payload/Restored.antt =====
-- `from_dict` builds every node of the payload: the loop takes one node off its list in each round,
-- and what it builds stands in the tree at the end.
use cognitive_tree_ai.Prelude.{
  ℕ, zero, suc, ◌+◌, ◌≤◌, ◌<◌, ◌≡◌, ◌≢◌, ◌∙◌, refl, sym, ap, subst, Option, none, some, List, [],
  ◌∷◌, ◌++◌, ◌==◌, ==_iff, Bool-cases, inl, inr, All, All-Memᴰ, All-of_Memᴰ, arith,
}
use mathlib.Core.List.{Memᴰ, append_assoc, append-nil}
use cognitive_tree_ai.Node.{Node, Ref}
use cognitive_tree_ai.Tree.{Tree}
use cognitive_tree_ai.Tree.WellFormed.{Ascending}
use cognitive_tree_ai.Tree.Growth.{Ascending-snoc, Ascending-wider}
use cognitive_tree_ai.Tree.Walks.{IsAscending}
use cognitive_tree_ai.Tree.Payload.{
  Bare, Payload, Payloads, payload, empty, also, bare_from, append_child, attach, rebuild, count,
  count_all, node_from_dict,
}

abbrev Pending : Type 0
Pending = List (Ref × Payloads)

-- No entry is for this node.
abbrev Free : Ref → Pending → Type 0
Free r pending = All (λ e. e.0 ≢ r) pending

-- The nodes that wait are distinct nodes of the tree without children.
abbrev Waiting : Tree → Pending → Type 0
Waiting t [] = Unit
Waiting t ((r, ps) ∷ rest) =
    (r < t.size) × ((t.cell r).children ≡ []) × Free r rest × Waiting t rest

tally : Pending → ℕ
tally [] = 0
tally ((r, ps) ∷ rest) = suc (count_all ps + tally rest)

-- The nodes that a list of payloads became, each with its own payloads still waiting.
abbrev Kids : Tree → Ref → Pending → List Ref → Payloads → Type 0
Kids t r pending [] empty = Unit
Kids t r pending [] (also p ps) = ⊥
Kids t r pending (c ∷ cs) empty = ⊥
Kids t r pending (c ∷ cs) (also (payload b ps) rest) =
    (t.cell c ≡ bare_from b (some r)) × Memᴰ (c, ps) pending × Kids t r pending cs rest

module _ (r : Ref) (b : Bare) (t : Tree) where
  abbrev appended : Tree
  appended = append_child r b t

  appended_new : appended.cell t.size ≡ bare_from b (some r)
  unfolding append_child
  appended_new = ground arith

  appended_parent :
      r < t.size
      → appended.cell r ≡ record (t.cell r) { children = (t.cell r).children ++ t.size ∷ [] }
  unfolding append_child
  appended_parent h = ground arith

  appended_other : (x : Ref) → x < t.size → x ≢ r → appended.cell x ≡ t.cell x
  unfolding append_child
  appended_other x h ne = ground arith

  appended-IsAscending : r < t.size → IsAscending t → IsAscending appended
  unfolding append_child
  appended-IsAscending h a x lt = elim (Bool-cases (x == t.size)) [
    | inl e ↦
        let q : x ≡ t.size = (==_iff x t.size).0 e in
        subst (λ y. Ascending y (suc t.size) (appended.cell y).children) (sym q)
          (rw appended_new (unfold bare_from in tt))
    | inr n ↦
        let older : x < t.size = ground arith in
        elim (Bool-cases (x == r)) [
          | inl e ↦
              let q : x ≡ r = (==_iff x r).0 e in
              subst (λ y. Ascending y (suc t.size) (appended.cell y).children) (sym q)
                (rw (appended_parent h) (Ascending-snoc r t.size _ h (a r h)))
          | inr ne ↦
              rw (appended_other x older (λ q. cc ((==_iff x r).1 q)))
                (Ascending-wider x t.size _ (a x older))
        ]
  ]

  Waiting-appended :
      (pending : Pending) → Waiting t pending → Free r pending → Waiting appended pending
  unfolding append_child
  Waiting-appended [] w f = tt
  Waiting-appended ((x, ps) ∷ rest) (lt, childless, free, w) (ne, f) =
      (omega arith, rw (appended_other x lt ne) childless, free, Waiting-appended rest w f)

Free-size : (t : Tree) (pending : Pending) → Waiting t pending → Free t.size pending
Free-size t [] w = tt
Free-size t ((x, ps) ∷ rest) (lt, childless, free, w) = (λ q. omega arith, Free-size t rest w)

-- What the loop over the children of one payload leaves.
record Attached (r : Ref) (t : Tree) (pending : Pending) (ps : Payloads) (u : Tree) (rest : Pending)
    : Type 0 where
  new : List Ref
  at_parent : u.cell r ≡ record (t.cell r) { children = (t.cell r).children ++ new }
  others : (y : Ref) → y < t.size → y ≢ r → u.cell y ≡ t.cell y
  larger : t.size ≤ u.size
  kids : Kids u r rest new ps
  waiting : Waiting u rest
  free : (y : Ref) → y < t.size → Free y pending → Free y rest
  kept : (e : Ref × Payloads) → Memᴰ e pending → Memᴰ e rest
  root : u.root ≡ t.root
  counted : tally rest ≡ tally pending + count_all ps
  ascending : IsAscending t → IsAscending u

attach-Attached :
    (r : Ref) (ps : Payloads) (t : Tree) (pending : Pending)
    → r < t.size
    → Waiting t pending
    → Free r pending
    → Attached r t pending ps (attach r ps t pending).0 (attach r ps t pending).1
unfolding attach tally count_all count
attach-Attached r empty t pending lt w f = record {
  new = [];
  at_parent = rw (append-nil (t.cell r).children) refl;
  others = λ y h ne. refl;
  larger = omega arith;
  kids = tt;
  waiting = w;
  free = λ y h g. g;
  kept = λ e m. m;
  root = refl;
  counted = omega arith;
  ascending = λ a. a;
}
attach-Attached r (also (payload b ps) more) t pending lt w f =
    let t1 = append_child r b t in
    let waiting' : Waiting t1 ((t.size, ps) ∷ pending) = (
      unfold append_child in omega arith,
      rw (appended_new r b t) (unfold bare_from in refl),
      Free-size t pending w,
      Waiting-appended r b t pending w f,
    ) in
    let ih =
      attach-Attached r more t1 ((t.size, ps) ∷ pending) (unfold append_child in omega arith)
        waiting' (λ q. omega arith, f) in
    record {
      new = t.size ∷ ih.new;
      at_parent =
          ih.at_parent
          ∙ rw (appended_parent r b t lt)
              (rw (append_assoc (t.cell r).children (t.size ∷ []) ih.new) refl);
      others = λ y h ne.
          ih.others y (unfold append_child in omega arith) ne ∙ appended_other r b t y h ne;
      larger = unfold append_child in omega (arith, ih.larger);
      kids = (
        ih.others t.size (unfold append_child in omega arith) (λ q. omega arith)
            ∙ appended_new r b t,
        ih.kept (t.size, ps) (Memᴰ.head refl),
        ih.kids,
      );
      waiting = ih.waiting;
      free = λ y h g. ih.free y (unfold append_child in omega arith) (λ q. omega arith, g);
      kept = λ e m. ih.kept e (Memᴰ.tail m);
      root = ih.root ∙ (unfold append_child in refl);
      counted = omega (arith, ih.counted);
      ascending = λ a. ih.ascending (appended-IsAscending r b t lt a);
    }

-- The payload stands in the tree at the node `c`, under `parent`.
unfoldable mutual
  pub Stands : Tree → Option Ref → Ref → Payload → Type 0
  Stands u parent c (payload b ps) =
      (cs : List Ref) × (u.cell c ≡ record (bare_from b parent) { children = cs })
      × StandsAll u c cs ps

  pub StandsAll : Tree → Ref → List Ref → Payloads → Type 0
  StandsAll u r [] empty = Unit
  StandsAll u r [] (also p ps) = ⊥
  StandsAll u r (c ∷ cs) empty = ⊥
  StandsAll u r (c ∷ cs) (also p ps) = Stands u (some r) c p × StandsAll u r cs ps

-- An entry of the list, done: its node has got its children, and nothing else of it has changed.
abbrev Done : Tree → Tree → Ref × Payloads → Type 0
Done t u e =
    (cs : List Ref) × (u.cell e.0 ≡ record (t.cell e.0) { children = cs }) × StandsAll u e.0 cs e.1

record Rebuilt (t : Tree) (pending : Pending) (u : Tree) : Type 0 where
  larger : t.size ≤ u.size
  others : (y : Ref) → y < t.size → Free y pending → u.cell y ≡ t.cell y
  done : All (Done t u) pending
  root : u.root ≡ t.root
  ascending : IsAscending u

Kids-StandsAll :
    (t u : Tree) (r : Ref) (pending : Pending) (cs : List Ref) (ps : Payloads)
    → Kids t r pending cs ps
    → All (Done t u) pending
    → StandsAll u r cs ps
unfolding StandsAll
Kids-StandsAll t u r pending [] empty k d = tt
Kids-StandsAll t u r pending [] (also p ps) k d = absurd k
Kids-StandsAll t u r pending (c ∷ cs) empty k d = absurd k
Kids-StandsAll t u r pending (c ∷ cs) (also (payload b ps) more) (e, m, k) d =
    let (kids, q, stands) = All-Memᴰ (Done t u) m d in
    (
      (kids, q ∙ ap (λ (n : Node). record n { children = kids }) e, stands),
      Kids-StandsAll t u r pending cs more k d,
    )

Waiting-Memᴰ :
    (t : Tree) (pending : Pending) (e : Ref × Payloads)
    → Waiting t pending
    → Memᴰ e pending
    → e.0 < t.size
Waiting-Memᴰ t [] e w m = elim m [ ]
Waiting-Memᴰ t ((r, ps) ∷ rest) e (lt, c, f, w) (Memᴰ.head q) =
    subst (λ x. x < t.size) (ap (λ x. x.0) (sym q)) lt
Waiting-Memᴰ t ((r, ps) ∷ rest) e (lt, c, f, w) (Memᴰ.tail m) = Waiting-Memᴰ t rest e w m

rebuild-Rebuilt :
    (n : ℕ) (t : Tree) (pending : Pending)
    → Waiting t pending
    → tally pending ≤ n
    → IsAscending t
    → Rebuilt t pending (rebuild n t pending)
unfolding rebuild tally
rebuild-Rebuilt zero t [] w b a = record {
  larger = omega arith;
  others = λ y h f. refl;
  done = tt;
  root = refl;
  ascending = a;
}
rebuild-Rebuilt zero t ((r, ps) ∷ rest) w b a = absurd (omega arith)
rebuild-Rebuilt (suc n) t [] w b a = record {
  larger = omega arith;
  others = λ y h f. refl;
  done = tt;
  root = refl;
  ascending = a;
}
rebuild-Rebuilt (suc n) t ((r, ps) ∷ rest) (lt, childless, free, w) b a =
    let t' = (attach r ps t rest).0 in
    let pending' = (attach r ps t rest).1 in
    let at = attach-Attached r ps t rest lt w free in
    let ih =
      rebuild-Rebuilt n t' pending' at.waiting (omega (arith, at.counted)) (at.ascending a) in
    let u = rebuild n t' pending' in
    record {
      larger = omega (arith, ih.larger, at.larger);
      others = λ y h f.
          ih.others y (omega (arith, at.larger)) (at.free y h f.1)
          ∙ at.others y h (λ q. f.0 (sym q));
      done = (
        (
          at.new,
          ih.others r (omega (arith, at.larger)) (at.free r lt free)
              ∙ at.at_parent
              ∙ ap (λ cs. record (t.cell r) { children = cs ++ at.new }) childless,
          Kids-StandsAll t' u r pending' at.new ps at.kids ih.done,
        ),
        All-of_Memᴰ (Done t u) rest (λ e m.
            let (cs, q, stands) = All-Memᴰ (Done t' u) (at.kept e m) ih.done in
            (
              cs,
              q
                  ∙ ap (λ (k : Node). record k { children = cs })
                      (at.others e.0 (Waiting-Memᴰ t rest e w m) (All-Memᴰ (λ x. x.0 ≢ r) m free)),
              stands,
            )),
      );
      root = ih.root ∙ at.root;
      ascending = ih.ascending;
    }

-- The tree that `from_dict` builds has the payload at its root.
pub node_from_dict-Stands :
    (p : Payload)
    → Stands (node_from_dict p) none 0 p
      × ((node_from_dict p).root ≡ 0)
      × (0 < (node_from_dict p).size)
      × IsAscending (node_from_dict p)
unfolding node_from_dict Stands tally
node_from_dict-Stands (payload b ps) =
    let t : Tree = record { cell = λ _. bare_from b none; size = 1; root = 0; index = [] } in
    let built =
      rebuild-Rebuilt (suc (count_all ps)) t ((0, ps) ∷ [])
        (omega arith, unfold bare_from in refl, tt, tt) (omega arith)
        (λ r lt. unfold bare_from in tt) in
    let (cs, e, stands) = built.done.0 in
    ((cs, e, stands), built.root, omega (arith, built.larger), built.ascending)
