-- ===== src/Selection/Control.antt =====
-- Relations between the states of a run that `_select` (cognitivetree/search.py) keeps, the one of
-- the control state among them.
use cognitive_tree_ai.Prelude.{
  ℕ, zero, suc, refl, Bool, true, false, Bool-cases, inl, inr, Option, none, some, List, [], ◌∷◌,
  ltb,
}
use cognitive_tree_ai.Node.{Ref, Metadata}
use cognitive_tree_ai.Faults.{Result}
use cognitive_tree_ai.Tree.{Tree, prune_subtree}
use cognitive_tree_ai.Config.{SearchConfig}
use cognitive_tree_ai.Policies.{Policies}
use cognitive_tree_ai.Exec.{Run, Exec}
use cognitive_tree_ai.Exec.Calm.{OnSome}
use cognitive_tree_ai.Exec.Keeps.{Keeps, Quiet, SameControl}
use cognitive_tree_ai.Exec.Closed.{
  Closed, stays, Keeps-then, Keeps-pure, Keeps-throw, Keeps-world_call, Keeps-node_call, Keeps-tree,
  SameControl-Closed,
}
use cognitive_tree_ai.Selection.{
  Keyed, Descent, found, revived, restart, prune, uct_of, key_of, key_children, greatest, choose,
  collapse, reopen, saturated, leaf, at_node, descend, Selected, settle, from_root, select_from,
  select,
}

pub prune-Quiet : {W : Type 0} (r : Ref) → Quiet (prune {W = W} r)
unfolding prune
prune-Quiet r = record { at = λ s. record { machine = refl; iteration = refl } }

module _ {W : Type 0} (R : Run W → Run W → Type 0) (p : Policies W) (closed : Closed R p)
    (cfg : SearchConfig) where
  pub prune-Keeps : (r : Ref) → Keeps R (prune {W = W} r)
  prune-Keeps r =
      unfold prune in Keeps-tree R p closed (prune r) (λ s. (prune_subtree r s.tree).1) (λ s. refl)

  uct_of-Keeps : (c : Ref) → Keeps R (uct_of p cfg c)
  unfolding uct_of
  uct_of-Keeps c = record { at = stays R p closed }

  key_of-Keeps : (c : Ref) → Keeps R (key_of p cfg c)
  unfolding key_of
  key_of-Keeps c = Keeps-then R p closed _ _ (uct_of-Keeps c) λ uct.
      Keeps-then R p closed _ _ (Keeps-world_call R p closed p.random closed.random)
        λ tie. Keeps-pure R p closed _

  key_children-Keeps : (cs : List Ref) → Keeps R (key_children p cfg cs)
  unfolding key_children
  key_children-Keeps [] = Keeps-pure R p closed _
  key_children-Keeps (c ∷ cs) =
      Keeps-then R p closed _ _ (key_of-Keeps c)
        λ k. Keeps-then R p closed _ _ (key_children-Keeps cs) λ ks. Keeps-pure R p closed _

  greatest-Keeps : (ks : List Keyed) → Keeps R (greatest p cfg ks)
  unfolding greatest
  greatest-Keeps [] = Keeps-throw R p closed _
  greatest-Keeps (k ∷ ks) = Keeps-pure R p closed _

  choose-Keeps : (cs : List Ref) → Keeps R (choose p cfg cs)
  unfolding choose
  choose-Keeps cs = Keeps-then R p closed _ _ (key_children-Keeps cs) greatest-Keeps

  collapse-Keeps : (r : Ref) → Keeps R (collapse p cfg r)
  unfolding collapse
  collapse-Keeps r = Keeps-then R p closed _ _ (prune-Keeps r) λ _. Keeps-pure R p closed _

  reopen-Keeps : (r : Ref) (granted : Bool) → Keeps R (reopen p cfg r granted)
  unfolding reopen
  reopen-Keeps r true = Keeps-pure R p closed _
  reopen-Keeps r false = collapse-Keeps r

  saturated-Keeps :
      (o : Option (Tree → Ref → W → Result Bool × Metadata × W)) (r : Ref)
      → OnSome
          (λ f. (t : Tree) (r : Ref) (s : Run W) → R s (record s { world = (f t r s.world).2 }))
          o
      → Keeps R (saturated p cfg o r)
  unfolding saturated
  saturated-Keeps none r h = record { at = λ s. (collapse-Keeps r).at s }
  saturated-Keeps (some revise) r h = record {
    at = λ s.
        (Keeps-then R p closed _ _ (Keeps-node_call R p closed r (revise s.tree r) (h s.tree r))
            (reopen-Keeps r)).at
          s;
  }

  leaf-Keeps : (r : Ref) → Keeps R (leaf p cfg r)
  unfolding leaf
  leaf-Keeps r = record {
    at = λ s. elim (Bool-cases (ltb (s.tree.cell r).depth cfg.max_depth)) [
      | inl e ↦ rw e (stays R p closed s)
      | inr e ↦ rw e ((collapse-Keeps r).at s)
    ];
  }

  at_node-Keeps :
      (go : Ref → Exec W Descent) (r : Ref) (b : Bool) (live : List Ref)
      → ((c : Ref) → Keeps R (go c))
      → Keeps R (at_node p cfg go r b live)
  unfolding at_node
  at_node-Keeps go r true live k = leaf-Keeps r
  at_node-Keeps go r false [] k = saturated-Keeps p.revise r closed.revise
  at_node-Keeps go r false (c ∷ cs) k = Keeps-then R p closed _ _ (choose-Keeps (c ∷ cs)) k

  descend-Keeps : (n : ℕ) (r : Ref) → Keeps R (descend p cfg n r)
  unfolding descend
  descend-Keeps zero r = record { at = stays R p closed }
  descend-Keeps (suc n) r = record {
    at = λ s. (at_node-Keeps (descend p cfg n) r _ _ (descend-Keeps n)).at s;
  }

  settle-Keeps :
      (again : Exec W (Selected p cfg)) (d : Descent)
      → Keeps R again
      → Keeps R (settle p cfg again d)
  unfolding settle
  settle-Keeps again (found r) k = record { at = stays R p closed }
  settle-Keeps again (revived r) k = record { at = stays R p closed }
  settle-Keeps again restart k = record { at = λ s. k.at s }

  from_root-Keeps :
      (again : Exec W (Selected p cfg)) (b : Bool)
      → Keeps R again
      → Keeps R (from_root p cfg again b)
  unfolding from_root
  from_root-Keeps again false k = record { at = stays R p closed }
  from_root-Keeps again true k = record {
    at = λ s.
        (Keeps-then R p closed _ _ (descend-Keeps s.tree.size s.tree.root)
            (λ d. settle-Keeps again d k)).at
          s;
  }

  select_from-Keeps : (n : ℕ) → Keeps R (select_from p cfg n)
  unfolding select_from
  select_from-Keeps zero = record { at = stays R p closed }
  select_from-Keeps (suc n) = record {
    at = λ s. (from_root-Keeps (select_from p cfg n) _ (select_from-Keeps n)).at s;
  }

  pub select-Keeps : Keeps R (select p cfg)
  unfolding select
  select-Keeps = record { at = λ s. (select_from-Keeps (suc s.tree.size)).at s }

pub select-Quiet : {W : Type 0} (p : Policies W) (cfg : SearchConfig) → Quiet (select p cfg)
select-Quiet p cfg = select-Keeps SameControl p (SameControl-Closed p) cfg
