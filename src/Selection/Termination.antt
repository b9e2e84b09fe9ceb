-- ===== src/Selection/Termination.antt =====
-- `_select` ends, and what it selects.
use cognitive_tree_ai.Prelude.{
  ℕ, zero, suc, ◌+◌, ◌≤◌, ◌<◌, ◌≡◌, ◌≢◌, ◌∙◌, ◌⊎◌, inl, inr, refl, sym, ap, subst, Bool, true,
  false, Option, none, some, List, [], ◌∷◌, arith, Bool-cases, All, All-keep, All-Memᴰ, keep,
  keep-true, keep-ext, ltb, ltb→lt,
}
use mathlib.Core.List.{Memᴰ}
use cognitive_tree_ai.Faults.{Fault, Result, ok, raise}
use cognitive_tree_ai.Node.{Node, Ref, Metadata, is_live}
use cognitive_tree_ai.Tree.{Tree, prune_subtree}
use cognitive_tree_ai.Tree.Updates.{
  SameShape, SameShape-refl, SameShape-trans, prune_subtree-SameShape, modify-SameShape,
  metadata-SameLinks,
}
use cognitive_tree_ai.Tree.WellFormed.{IsWellFormed, IsWellFormed-shape}
use cognitive_tree_ai.Tree.Growth.{Ascending-below}
use cognitive_tree_ai.Tree.Pruning.{count_live, count_live-prune_lt}
use cognitive_tree_ai.Tree.Life.{SameLife, count_live-SameLife, metadata-SameLife}
use cognitive_tree_ai.Config.{SearchConfig}
use cognitive_tree_ai.Policies.{Policies}
use cognitive_tree_ai.Exec.{Run, Exec, pure, node_call, ◌>>=◌, bind_rule}
use cognitive_tree_ai.Selection.{
  Descent, found, revived, restart, prune, choose, collapse, reopen, saturated, leaf, at_node,
  descend, is_leaf, live_children,
}
use cognitive_tree_ai.Selection.Choice.{Chosen, choose-Chosen}

-- A live node that the search may expand: a leaf above the depth cap, or a node whose children are
-- all dead and which the revision policy has reopened.
pub record IsOpen (cfg : SearchConfig) (t : Tree) (r : Ref) : Type 0 where
  pub inside : r < t.size
  pub live : is_live (t.cell r) ≡ true
  pub kind :
      ((t.cell r).children ≡ []) × ((t.cell r).depth < cfg.max_depth)
      ⊎ ((t.cell r).children ≢ []) × (live_children t r ≡ [])

-- `E` holds of the faults that a revision policy may raise.
abbrev pub Raises :
    {W : Type 0} → (Fault → Type 0) → Option (Tree → Ref → W → Result Bool × Metadata × W) → Type 0
Raises E none = Unit
Raises {W} E (some revise) =
    (t : Tree) (r : Ref) (w : W) (e : Fault) → (revise t r w).0 ≡ raise e → E e

module _ {W : Type 0} (p : Policies W) (cfg : SearchConfig) (E : Fault → Type 0) where
  -- How a descent from a tree `t` may end.
  abbrev pub Descends : Tree → Result Descent × Run W → Type 0
  Descends t (ok (found r), u) = SameShape t u.tree × IsOpen cfg u.tree r
  Descends t (ok (revived r), u) = SameShape t u.tree × IsOpen cfg u.tree r
  Descends t (ok restart, u) =
      SameShape t u.tree × (count_live u.tree u.tree.size < count_live t t.size)
  Descends t (raise e, u) = SameShape t u.tree × E e

  collapse-Descends :
      (t : Tree) (r : Ref) (s : Run W)
      → SameShape t s.tree
      → count_live s.tree s.tree.size ≡ count_live t t.size
      → IsWellFormed s.tree
      → r < s.tree.size
      → is_live (s.tree.cell r) ≡ true
      → Descends t (collapse p cfg r s)
  unfolding collapse prune pure ◌>>=◌
  collapse-Descends t r s shape count h lt l =
      let pruned = prune_subtree-SameShape r s.tree in
      (
        SameShape-trans shape pruned,
        subst (λ n. count_live (prune_subtree r s.tree).1 n < count_live t t.size) pruned.size
            (omega (arith, count, count_live-prune_lt r s.tree h lt l)),
      )

  leaf-Descends :
      (r : Ref) (s : Run W)
      → IsWellFormed s.tree
      → r < s.tree.size
      → is_live (s.tree.cell r) ≡ true
      → (s.tree.cell r).children ≡ []
      → Descends s.tree (leaf p cfg r s)
  unfolding leaf
  leaf-Descends r s h lt l none_below =
      elim (Bool-cases (ltb (s.tree.cell r).depth cfg.max_depth)) [
        | inl e ↦
            rw (e, leaf)
              (
                SameShape-refl s.tree,
                record { inside = lt; live = l; kind = inl (none_below, ltb→lt _ _ e) },
              )
        | inr e ↦ rw (e, leaf) (collapse-Descends s.tree r s (SameShape-refl s.tree) refl h lt l)
      ]

  is_leaf-nil : (cs : List Ref) → is_leaf cs ≡ true → cs ≡ []
  unfolding is_leaf
  is_leaf-nil [] e = refl
  is_leaf-nil (c ∷ cs) e = cc

  is_leaf-cons : (cs : List Ref) → is_leaf cs ≡ false → cs ≢ []
  unfolding is_leaf
  is_leaf-cons [] e q = cc
  is_leaf-cons (c ∷ cs) e q = cc

  -- A node whose children are all dead, as the state has it after the revision policy has written.
  module _ (r : Ref) (s : Run W) (h : IsWellFormed s.tree) (lt : r < s.tree.size)
      (l : is_live (s.tree.cell r) ≡ true) (below : (s.tree.cell r).children ≢ [])
      (dead : live_children s.tree r ≡ []) where
    record Written (u : Run W) : Type 0 where
      shape : SameShape s.tree u.tree
      life : SameLife s.tree u.tree

    reopen-Descends :
        (granted : Bool) (u : Run W) → Written u → Descends s.tree (reopen p cfg r granted u)
    unfolding reopen pure live_children
    reopen-Descends true u w = (
      w.shape,
      record {
        inside = subst (λ n. r < n) w.shape.size lt;
        live = w.life r ∙ l;
        kind = inr (
          (λ e. below ((w.shape.cells r).children ∙ e)),
          ap (keep (λ c. is_live (u.tree.cell c))) (sym (w.shape.cells r).children)
              ∙ keep-ext _ _ _ w.life
              ∙ dead,
        );
      },
    )
    reopen-Descends false u w =
        collapse-Descends s.tree r u w.shape
          (subst (λ n. count_live u.tree n ≡ count_live s.tree s.tree.size) w.shape.size
            (count_live-SameLife s.tree u.tree s.tree.size w.life))
          (IsWellFormed-shape w.shape h) (subst (λ n. r < n) w.shape.size lt) (w.life r ∙ l)

    node_call-Written : {A : Type 0} (f : W → Result A × Metadata × W) → Written (node_call r f s).1
    unfolding node_call
    node_call-Written f =
        let m : Metadata = (f s.world).1 in
        let write : Node → Node = λ n. record n { metadata = m } in
        record {
          shape = modify-SameShape r write s.tree (metadata-SameLinks m (s.tree.cell r));
          life = metadata-SameLife r m s.tree;
        }

    saturated-Descends :
        (o : Option (Tree → Ref → W → Result Bool × Metadata × W))
        → Raises E o
        → Descends s.tree (saturated p cfg o r s)
    unfolding saturated
    saturated-Descends none raises =
        collapse-Descends s.tree r s (SameShape-refl s.tree) refl h lt l
    saturated-Descends (some revise) raises =
        let call = node_call r (revise s.tree r) in
        let w = node_call-Written (revise s.tree r) in
        bind_rule (Descends s.tree) call (reopen p cfg r) s
          (λ granted _. reopen-Descends granted (call s).1 w)
          (λ e q. (w.shape, raises s.tree r s.world e (unfold node_call in q)))

  -- One round at a live node, given that the rounds left are enough below it.
  module _ (raises : Raises E p.revise) (go : Ref → Exec W Descent) (r : Ref) (s : Run W)
      (h : IsWellFormed s.tree) (lt : r < s.tree.size) (l : is_live (s.tree.cell r) ≡ true)
      (ih : (c : Ref) (u : Run W)
        → u.tree ≡ s.tree
        → r < c
        → c < s.tree.size
        → is_live (s.tree.cell c) ≡ true
        → Descends s.tree (go c u)) where
    go-live :
        (cs : List Ref) (c : Ref) (u : Run W)
        → live_children s.tree r ≡ cs
        → Memᴰ c cs
        → u.tree ≡ s.tree
        → Descends s.tree (go c u)
    unfolding live_children
    go-live cs c u e m same =
        let listed = subst (Memᴰ c) (sym e) m in
        let young =
          All-Memᴰ _ listed
            (All-keep _ _ _ (Ascending-below r s.tree.size _ (h.fits r lt).ascending)) in
        ih c u same young.0 young.1 (keep-true (λ x. is_live (s.tree.cell x)) _ listed)

    linked-live :
        (cs : List Ref)
        → live_children s.tree r ≡ cs
        → All (λ c. (s.tree.cell c).parent ≡ some r) cs
    unfolding live_children
    linked-live cs e = subst (All _) e (All-keep _ _ _ (h.fits r lt).linked)

    at_node-Descends :
        (b : Bool) (cs : List Ref)
        → is_leaf (s.tree.cell r).children ≡ b
        → live_children s.tree r ≡ cs
        → Descends s.tree (at_node p cfg go r b cs s)
    unfolding at_node
    at_node-Descends true cs e k = leaf-Descends r s h lt l (is_leaf-nil _ e)
    at_node-Descends false [] e k =
        saturated-Descends r s h lt l (is_leaf-cons _ e) k p.revise raises
    at_node-Descends false (c ∷ cs) e k =
        let pick = choose p cfg (c ∷ cs) in
        let chosen = choose-Chosen p cfg c cs r s (linked-live (c ∷ cs) k) in
        bind_rule (Descends s.tree) pick go s
          (λ x q.
            let (m, same) = subst (λ y. Chosen (c ∷ cs) s.tree (y, (pick s).1)) q chosen in
            go-live (c ∷ cs) x (pick s).1 k m same)
          (λ x q. absurd (subst (λ y. Chosen (c ∷ cs) s.tree (y, (pick s).1)) q chosen))

  -- A descent from a live node ends within the rounds that the younger nodes allow.
  pub descend-Descends :
      (n : ℕ) (r : Ref) (t : Tree) (s : Run W)
      → Raises E p.revise
      → s.tree ≡ t
      → IsWellFormed t
      → r < t.size
      → is_live (t.cell r) ≡ true
      → t.size ≤ n + r
      → Descends t (descend p cfg n r s)
  unfolding descend
  descend-Descends zero r t s raises same h lt l rounds = absurd (omega arith)
  descend-Descends (suc n) r t s raises same h lt l rounds =
      subst (λ x. Descends x (descend p cfg (suc n) r s)) same
        (at_node-Descends raises (descend p cfg n) r s (rw same h) (rw same lt) (rw same l)
          (λ c u e older inside live.
            subst (λ x. Descends x (descend p cfg n c u)) (sym same)
              (descend-Descends n c t u raises (e ∙ same) h (rw same at inside) (rw same at live)
                (omega arith)))
          _ _ refl refl)
