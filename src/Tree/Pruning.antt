-- ===== src/Tree/Pruning.antt =====
-- What `prune_subtree` changes, and what it counts.
use cognitive_tree_ai.Prelude.{
  sym, ◌≤◌, ℕ, ◌+◌, ◌<◌, ◌≡◌, ◌≢◌, ◌∙◌, ◌⊎◌, refl, ap, subst, List, [], ◌∷◌, All, All-of_Memᴰ,
  arith, inl, inr, suc, zero, true, false, Bool-cases, if◌then◌else◌, ◌==◌, ==_iff,
}
use mathlib.Core.List.{Memᴰ}
use cognitive_tree_ai.Node.{Node, NodeStatus, Ref, is_live}
use cognitive_tree_ai.Tree.{Tree, modify, walk, prune_node, prune_one, prune_each, prune_subtree}
use cognitive_tree_ai.Tree.WellFormed.{IsWellFormed}
use cognitive_tree_ai.Tree.Walks.{Below, Below-lt, walk-Below, IsWellFormed→IsAscending}

prune_node-dead : (n : Node) → is_live (prune_node n) ≡ false
unfolding prune_node is_live
prune_node-dead n = refl

prune_one-live :
    (r : Ref) (t : Tree)
    → is_live (t.cell r) ≡ true
    → (prune_one r t).cell r ≡ prune_node (t.cell r)
unfolding prune_one modify
prune_one-live r t e = ground (arith, e)

prune_one-dead :
    (r x : Ref) (t : Tree) → is_live (t.cell x) ≡ false → (prune_one r t).cell x ≡ t.cell x
unfolding prune_one modify
prune_one-dead r x t e = elim (Bool-cases (x == r)) [
  | inl same ↦
      let q : x ≡ r = (==_iff x r).0 same in rw (subst (λ y. is_live (t.cell y) ≡ false) q e) refl
  | inr other ↦ elim (Bool-cases (is_live (t.cell r))) [
    | inl l ↦ rw (l, other) refl
    | inr d ↦ rw d refl
  ]
]

prune_one-other : (r x : Ref) (t : Tree) → x ≢ r → (prune_one r t).cell x ≡ t.cell x
unfolding prune_one modify
prune_one-other r x t ne = ground arith

pub prune_each-dead :
    (rs : List Ref) (x : Ref) (t : Tree)
    → is_live (t.cell x) ≡ false
    → (prune_each rs t).1.cell x ≡ t.cell x
unfolding prune_each
prune_each-dead [] x t e = refl
prune_each-dead (r ∷ rs) x t e =
    let q = prune_one-dead r x t e in prune_each-dead rs x (prune_one r t) (ap is_live q ∙ e) ∙ q

prune_each-first :
    (r : Ref) (rs : List Ref) (x : Ref) (t : Tree)
    → x ≡ r
    → is_live (t.cell x) ≡ true
    → (prune_each (r ∷ rs) t).1.cell x ≡ prune_node (t.cell x)
unfolding prune_each
prune_each-first r rs x t e l =
    let q : (prune_one r t).cell x ≡ prune_node (t.cell x) =
      rw e (prune_one-live r t (rw e at l)) in
    prune_each-dead rs x (prune_one r t) (ap is_live q ∙ prune_node-dead (t.cell x)) ∙ q

pub prune_each-live :
    {x : Ref} {rs : List Ref} (t : Tree)
    → Memᴰ x rs
    → is_live (t.cell x) ≡ true
    → (prune_each rs t).1.cell x ≡ prune_node (t.cell x)
unfolding prune_each
prune_each-live {x = x} t (Memᴰ.head {x = r} {xs = rs} e) l = prune_each-first r rs x t e l
prune_each-live {x = x} t (Memᴰ.tail {x = r} {xs = rs} m) l = elim (Bool-cases (x == r)) [
  | inl same ↦ prune_each-first r rs x t ((==_iff x r).0 same) l
  | inr other ↦
      let q = prune_one-other r x t (λ e. cc ((==_iff x r).1 e)) in
      prune_each-live (prune_one r t) m (ap is_live q ∙ l) ∙ ap prune_node q
]

pub prune_each-other :
    (rs : List Ref) (x : Ref) (t : Tree) → ¬ Memᴰ x rs → (prune_each rs t).1.cell x ≡ t.cell x
unfolding prune_each
prune_each-other [] x t h = refl
prune_each-other (r ∷ rs) x t h =
    prune_each-other rs x (prune_one r t) (λ m. h (Memᴰ.tail m))
    ∙ prune_one-other r x t (λ e. h (Memᴰ.head e))

-- How many of the first `n` addresses hold a live node.
unfoldable pub count_live : Tree → ℕ → ℕ
count_live t zero = 0
count_live t (suc n) = if is_live (t.cell n) then suc (count_live t n) else count_live t n

count_live-same :
    (t u : Tree) (n : ℕ)
    → ((x : Ref) → x < n → u.cell x ≡ t.cell x)
    → count_live u n ≡ count_live t n
unfolding count_live
count_live-same t u zero h = refl
count_live-same t u (suc n) h =
    rw (h n (omega arith)) (rw (count_live-same t u n (λ x lt. h x (omega arith))))

prune_one-id : (r : Ref) (t : Tree) → is_live (t.cell r) ≡ false → prune_one r t ≡ t
unfolding prune_one
prune_one-id r t e = rw e

count_live-one :
    (r n : ℕ) (t : Tree)
    → is_live (t.cell r) ≡ true
    → r < n
    → count_live (prune_one r t) n + 1 ≡ count_live t n
unfolding count_live
count_live-one r zero t l h = absurd (omega arith)
count_live-one r (suc n) t l h = elim (Bool-cases (n == r)) [
  | inl e ↦
      let q = (==_iff n r).0 e in
      let new : is_live ((prune_one r t).cell n) ≡ false =
        rw q (ap is_live (prune_one-live r t l) ∙ prune_node-dead (t.cell r)) in
      let old : is_live (t.cell n) ≡ true = rw q l in
      let same =
        count_live-same t (prune_one r t) n
          (λ x lt. prune_one-other r x t (λ e. omega (arith, q))) in
      rw (new, old) (omega (arith, same))
  | inr e ↦
      let ne : n ≢ r = λ q. cc ((==_iff n r).1 q) in
      let same = prune_one-other r n t ne in
      rw same (ground (arith, count_live-one r n t l (ground arith)))
]

prune_each-count :
    (rs : List Ref) (t : Tree) (n : ℕ)
    → All (λ r. r < n) rs
    → (prune_each rs t).0 + count_live (prune_each rs t).1 n ≡ count_live t n
unfolding prune_each
prune_each-count [] t n b = omega arith
prune_each-count (r ∷ rs) t n (lt, b) = elim (Bool-cases (is_live (t.cell r))) [
  | inl l ↦ rw l (omega (arith, prune_each-count rs (prune_one r t) n b, count_live-one r n t l lt))
  | inr d ↦ rw (d, prune_one-id r t d) (prune_each-count rs t n b)
]

-- `prune_subtree` on a node of a well-formed tree marks the live nodes at and below it as pruned,
-- changes no other node and no other field, and returns how many live nodes it took away.
pub prune_subtree_lem :
    (r : Ref) (t : Tree)
    → IsWellFormed t
    → r < t.size
    → ((x : Ref)
        → Below t r x
        → is_live (t.cell x) ≡ true
        → (prune_subtree r t).1.cell x ≡ record (t.cell x) { status = NodeStatus.pruned })
      × ((x : Ref)
          → ¬ Below t r x ⊎ (is_live (t.cell x) ≡ false)
          → (prune_subtree r t).1.cell x ≡ t.cell x)
      × ((prune_subtree r t).0 + count_live (prune_subtree r t).1 t.size ≡ count_live t t.size)
unfolding prune_subtree prune_node
prune_subtree_lem r t h lt =
    let visits = (walk-Below t h r lt).1 in
    (
      λ x b l. prune_each-live t ((visits x).1 b) l,
      λ x o. elim o [
        | inl out ↦ prune_each-other (walk t r) x t (λ m. out ((visits x).0 m))
        | inr dead ↦ prune_each-dead (walk t r) x t dead
      ],
      prune_each-count (walk t r) t t.size (
          All-of_Memᴰ _ (walk t r)
            (λ x m. Below-lt t (IsWellFormed→IsAscending h) ((visits x).0 m) lt)),
    )

prune_each-pos :
    (r : Ref) (rs : List Ref) (t : Tree) → is_live (t.cell r) ≡ true → 0 < (prune_each (r ∷ rs) t).0
unfolding prune_each
prune_each-pos r rs t l = rw l (omega arith)

-- Pruning at a live node leaves fewer live nodes.
pub count_live-prune_lt :
    (r : Ref) (t : Tree)
    → IsWellFormed t
    → r < t.size
    → is_live (t.cell r) ≡ true
    → count_live (prune_subtree r t).1 t.size < count_live t t.size
count_live-prune_lt r t h lt l =
    let pos =
      subst (λ rs. 0 < (prune_each rs t).0) (sym (walk-Below t h r lt).0)
        (prune_each-pos r _ t l) in
    omega (arith, (prune_subtree_lem r t h lt).2, unfold_pos pos)
  where
    unfold_pos : 0 < (prune_each (walk t r) t).0 → 0 < (prune_subtree r t).0
    unfold_pos q = unfold prune_subtree in q

pub count_live-le : (t : Tree) (n : ℕ) → count_live t n ≤ n
unfolding count_live
count_live-le t zero = omega arith
count_live-le t (suc n) = ground (arith, count_live-le t n)
