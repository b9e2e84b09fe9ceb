-- ===== src/Expansion/Grown.antt =====
-- The tree after an expansion beside the tree before it.
use cognitive_tree_ai.Prelude.{
  ◌<◌, ◌≡◌, refl, sym, subst, Text, Bool-cases, inl, inr, List, [], ◌∷◌, ◌||◌, strip, mem_text,
  arith,
}
use cognitive_tree_ai.Node.{Ref}
use cognitive_tree_ai.Tree.{Tree, attach_child, index_insert}
use cognitive_tree_ai.Tree.WellFormed.{IsWellFormed}
use cognitive_tree_ai.Tree.Growth.{add_child-IsWellFormed}
use cognitive_tree_ai.Tree.Added.{add_child_cases}
use cognitive_tree_ai.Tree.Earlier.{Earlier, Earlier-refl, Earlier-trans, attach_child-Earlier}
use cognitive_tree_ai.Config.{SearchConfig}
use cognitive_tree_ai.Policies.{Policies}
use cognitive_tree_ai.Exec.{Run, Exec, pure, policy_call, ◌>>=◌}
use cognitive_tree_ai.Exec.Keeps.{Keeps, IsPreorder, Keeps-bind}
use cognitive_tree_ai.Expansion.{is_empty, add, add_candidates, expand}

-- A well-formed tree with the node at `r` stays one, and keeps its nodes.
pub record Extends {W : Type 0} (r : Ref) (s t : Run W) : Type 0 where
  pub fits : IsWellFormed t.tree
  pub inside : r < t.tree.size
  pub earlier : Earlier s.tree t.tree

abbrev pub Extending : {W : Type 0} → Ref → Run W → Run W → Type 0
Extending r s t = IsWellFormed s.tree → r < s.tree.size → Extends r s t

Extending-order : {W : Type 0} (r : Ref) → IsPreorder (Extending {W = W} r)
Extending-order r = record {
  reflexive = λ s h lt. record { fits = h; inside = lt; earlier = Earlier-refl s.tree };
  transitive = λ s t u f g h lt.
      let a = f h lt in
      let b = g a.fits a.inside in
      record { fits = b.fits; inside = b.inside; earlier = Earlier-trans a.earlier b.earlier };
}

-- A statement that does nothing to the tree.
same_tree : {W : Type 0} (r : Ref) (s t : Run W) → t.tree ≡ s.tree → Extending r s t
same_tree r s t e h lt = record {
  fits = subst IsWellFormed (sym e) h;
  inside = subst (λ u. r < u.size) (sym e) lt;
  earlier = subst (Earlier s.tree) (sym e) (Earlier-refl s.tree);
}

attach_child-inside :
    (id : Text) (r : Ref) (text : Text) (t : Tree) (index : List (Text × Ref))
    → r < t.size
    → r < (record (attach_child id r text t) { index = index }).size
unfolding attach_child
attach_child-inside id r text t index lt = omega arith

module _ {W : Type 0} (p : Policies W) (cfg : SearchConfig) (r : Ref) where
  add-Extending : (text : Text) → Keeps (Extending r) (add p cfg r text)
  unfolding add
  add-Extending text = record {
    at = λ s h lt.
        let id = p.ids s.tree.size in
        elim (add_child_cases id r text s.tree) [
          | inl e ↦ rw (e, add) (same_tree r s s refl h lt)
          | inr e ↦
              rw (e, add)
                (record {
                  fits =
                      subst (λ x. IsWellFormed x.1) e
                        (add_child-IsWellFormed id r text s.tree h lt);
                  inside =
                      attach_child-inside id r text s.tree
                        (index_insert id s.tree.size s.tree.index) lt;
                  earlier =
                      attach_child-Earlier id r text s.tree
                        (index_insert id s.tree.size s.tree.index);
                })
        ];
  }

  abbrev then_more :
      {A B : Type 0} (m : Exec W A) (f : A → Exec W B)
      → Keeps (Extending r) m
      → ((a : A) → Keeps (Extending r) (f a))
      → Keeps (Extending r) (m >>= f)
  then_more m f = Keeps-bind (Extending r) (Extending-order r) m f

  pure-Extending : {A : Type 0} (a : A) → Keeps (Extending {W = W} r) (pure a)
  unfolding pure
  pure-Extending a = record { at = λ s. same_tree r s s refl }

  add_candidates-Extending :
      (seen candidates : List Text) → Keeps (Extending r) (add_candidates p cfg r seen candidates)
  unfolding add_candidates
  add_candidates-Extending seen [] = pure-Extending []
  add_candidates-Extending seen (content ∷ rest) =
      let text = strip content in
      elim (Bool-cases (is_empty text || mem_text text seen)) [
        | inl e ↦ rw (e, add_candidates) (add_candidates-Extending seen rest)
        | inr e ↦
            rw (e, add_candidates)
              (then_more _ _ (add-Extending text) λ child.
                then_more _ _ (add_candidates-Extending (text ∷ seen) rest)
                  λ children. pure-Extending (child ∷ children))
      ]

  -- The tree after an expansion of a node holds the tree before it.
  pub expand-Extending : Keeps (Extending r) (expand p cfg r)
  unfolding expand policy_call
  expand-Extending = record {
    at = λ s.
        (then_more (policy_call (p.generate s.tree r cfg.branching_factor)) _
            (record { at = λ u. same_tree r u _ refl })
            λ candidates. add_candidates-Extending _ _).at
          s;
  }
