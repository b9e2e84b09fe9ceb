-- ===== src/Selection/Selects.antt =====
-- `_select` ends, and what it selects.
use cognitive_tree_ai.Prelude.{
  ℕ, zero, suc, ◌<◌, ◌≡◌, refl, subst, Text, Bool, true, false, Option, none, some, List, arith,
}
use cognitive_tree_ai.Faults.{Fault, Result, ok, raise}
use cognitive_tree_ai.Node.{Ref, is_live}
use cognitive_tree_ai.Tree.{Tree}
use cognitive_tree_ai.Tree.Updates.{SameShape, SameShape-refl, SameShape-trans}
use cognitive_tree_ai.Tree.WellFormed.{IsWellFormed, IsWellFormed-shape}
use cognitive_tree_ai.Tree.Pruning.{count_live, count_live-le}
use cognitive_tree_ai.Config.{SearchConfig}
use cognitive_tree_ai.Policies.{Policies}
use cognitive_tree_ai.Exec.{Run, Exec, bind_rule}
use cognitive_tree_ai.Selection.{
  Descent, found, revived, restart, descend, Selected, settle, from_root, select_from, select,
}
use cognitive_tree_ai.Selection.Termination.{IsOpen, Raises, Descends, descend-Descends}

-- What a selection over the tree `t` returns: a node that is open for expansion, or nothing, and
-- then the root is dead. A fault is one of those that `E` holds of.
abbrev pub Selects :
    {W : Type 0}
    → SearchConfig
    → (Fault → Type 0)
    → Tree
    → Result (Option Ref × List Text) × Run W
    → Type 0
Selects cfg E t (ok (some r, ids), u) = SameShape t u.tree × IsOpen cfg u.tree r
Selects cfg E t (ok (none, ids), u) =
    SameShape t u.tree × (is_live (u.tree.cell u.tree.root) ≡ false)
Selects cfg E t (raise e, u) = SameShape t u.tree × E e

module _ {W : Type 0} (p : Policies W) (cfg : SearchConfig) (E : Fault → Type 0)
    (raises : Raises E p.revise) where
  settle-Selects :
      (again : Exec W (Selected p cfg)) (d : Descent) (t : Tree) (u : Run W)
      → Descends p cfg E t (ok d, u)
      → (SameShape t u.tree
          → count_live u.tree u.tree.size < count_live t t.size
          → Selects cfg E t (again u))
      → Selects cfg E t (settle p cfg again d u)
  unfolding settle
  settle-Selects again (found r) t u h rest = h
  settle-Selects again (revived r) t u h rest = h
  settle-Selects again restart t u h rest = rest h.0 h.1

  from_root-Selects :
      (again : Exec W (Selected p cfg)) (b : Bool) (s : Run W)
      → is_live (s.tree.cell s.tree.root) ≡ b
      → IsWellFormed s.tree
      → ((u : Run W)
          → SameShape s.tree u.tree
          → count_live u.tree u.tree.size < count_live s.tree s.tree.size
          → Selects cfg E s.tree (again u))
      → Selects cfg E s.tree (from_root p cfg again b s)
  unfolding from_root
  from_root-Selects again false s e h rest = (SameShape-refl s.tree, e)
  from_root-Selects again true s e h rest =
      let t = s.tree in
      let down = descend p cfg t.size t.root in
      let ends =
        descend-Descends p cfg E t.size t.root t s raises refl h
          (omega (arith, h.root_zero, h.inhabited)) e (omega arith) in
      bind_rule (Selects cfg E t) down (settle p cfg again) s
        (λ d q.
          settle-Selects again d t (down s).1
            (subst (λ y. Descends p cfg E t (y, (down s).1)) q ends) (rest (down s).1))
        (λ x q. subst (λ y. Descends p cfg E t (y, (down s).1)) q ends)

  -- A result for a tree of the same shape is one for the tree itself.
  Selects-shape :
      (t u : Tree) (x : Result (Option Ref × List Text) × Run W)
      → SameShape t u
      → Selects cfg E u x
      → Selects cfg E t x
  Selects-shape t u (ok (some r, ids), v) same h = (SameShape-trans same h.0, h.1)
  Selects-shape t u (ok (none, ids), v) same h = (SameShape-trans same h.0, h.1)
  Selects-shape t u (raise e, v) same h = (SameShape-trans same h.0, h.1)

  select_from-Selects :
      (n : ℕ) (s : Run W)
      → IsWellFormed s.tree
      → count_live s.tree s.tree.size < n
      → Selects cfg E s.tree (select_from p cfg n s)
  unfolding select_from
  select_from-Selects zero s h lt = absurd (omega arith)
  select_from-Selects (suc n) s h lt =
      from_root-Selects (select_from p cfg n) _ s refl h (λ u same fewer.
        Selects-shape s.tree u.tree _ same
          (select_from-Selects n u (IsWellFormed-shape same h) (omega (arith, fewer))))

-- On a well-formed tree `_select` ends within its rounds: it returns a live node that is open for
-- expansion (a leaf above the depth cap, or a node whose children are all dead), or nothing, and
-- then the root is dead, or it raises a fault that the revision policy raised. It changes no link
-- of the tree.
pub select-Selects :
    {W : Type 0} (p : Policies W) (cfg : SearchConfig) (E : Fault → Type 0) (s : Run W)
    → Raises E p.revise
    → IsWellFormed s.tree
    → Selects cfg E s.tree (select p cfg s)
unfolding select
select-Selects p cfg E s raises h =
    select_from-Selects p cfg E raises (suc s.tree.size) s h
      (omega (arith, count_live-le s.tree s.tree.size))
