-- ===== src/Expansion/Control.antt =====
-- Relations between the states of a run that `_expand` (cognitivetree/search.py) keeps, and the
-- faults that it raises.
use cognitive_tree_ai.Prelude.{
  ℕ, ◌≡◌, subst, Text, Bool-cases, inl, inr, List, [], ◌∷◌, ◌||◌, strip, mem_text, refl,
}
use cognitive_tree_ai.Node.{Ref}
use cognitive_tree_ai.Config.{SearchConfig}
use cognitive_tree_ai.Policies.{Policies}
use cognitive_tree_ai.Exec.{Run}
use cognitive_tree_ai.Exec.Keeps.{Keeps, Quiet, SameControl}
use cognitive_tree_ai.Exec.Closed.{
  Closed, SameControl-Closed, Keeps-then, Keeps-pure, Keeps-policy_call, Keeps-tree,
}
use cognitive_tree_ai.Exec.Calm.{Raising, Raising-bind, Raising-Calm, Calm-pure, Calm-policy_call}
use cognitive_tree_ai.Faults.{Fault, raise, fault_of}
use cognitive_tree_ai.Tree.{Tree, add_child}
use cognitive_tree_ai.Tree.Added.{add_child_cases}
use cognitive_tree_ai.Expansion.{is_empty, add, add_candidates, expand, child_contents}

module _ {W : Type 0} (R : Run W → Run W → Type 0) (p : Policies W) (closed : Closed R p)
    (cfg : SearchConfig) where
  add-Keeps : (r : Ref) (text : Text) → Keeps R (add p cfg r text)
  add-Keeps r text =
      unfold add in
      Keeps-tree R p closed (add p cfg r text)
        (λ s. (add_child (p.ids s.tree.size) r text s.tree).1) (λ s. refl)

  add_candidates-Keeps :
      (r : Ref) (seen candidates : List Text) → Keeps R (add_candidates p cfg r seen candidates)
  unfolding add_candidates
  add_candidates-Keeps r seen [] = Keeps-pure R p closed []
  add_candidates-Keeps r seen (content ∷ rest) =
      let text = strip content in
      elim (Bool-cases (is_empty text || mem_text text seen)) [
        | inl e ↦ rw (e, add_candidates) (add_candidates-Keeps r seen rest)
        | inr e ↦
            rw (e, add_candidates)
              (Keeps-then R p closed _ _ (add-Keeps r text) λ child.
                Keeps-then R p closed _ _ (add_candidates-Keeps r (text ∷ seen) rest)
                  λ children. Keeps-pure R p closed _)
      ]

  pub expand-Keeps : (r : Ref) → Keeps R (expand p cfg r)
  unfolding expand
  expand-Keeps r = record {
    at = λ s.
        (Keeps-then R p closed _ _
            (Keeps-policy_call R p closed (p.generate s.tree r cfg.branching_factor)
              (closed.generate s.tree r cfg.branching_factor))
            λ candidates. add_candidates-Keeps r (child_contents s.tree r) _).at
          s;
  }

pub expand-Quiet :
    {W : Type 0} (p : Policies W) (cfg : SearchConfig) (r : Ref) → Quiet (expand p cfg r)
expand-Quiet p cfg r = expand-Keeps SameControl p (SameControl-Closed p) cfg r

module _ {W : Type 0} (p : Policies W) (cfg : SearchConfig) (E : Fault → Type 0)
    (unknown : E Fault.key_error) where
  add-Raising : (r : Ref) (text : Text) → Raising E (add p cfg r text)
  unfolding add
  add-Raising r text = record {
    faults = λ s e q. elim (add_child_cases (p.ids s.tree.size) r text s.tree) [
      | inl refused ↦ subst E (fault_of (rw (refused, add) at q)) unknown
      | inr added ↦ absurd (cc (rw (added, add) at q))
    ];
  }

  add_candidates-Raising :
      (r : Ref) (seen candidates : List Text) → Raising E (add_candidates p cfg r seen candidates)
  unfolding add_candidates
  add_candidates-Raising r seen [] = Raising-Calm E _ (Calm-pure E [])
  add_candidates-Raising r seen (content ∷ rest) =
      let text = strip content in
      elim (Bool-cases (is_empty text || mem_text text seen)) [
        | inl e ↦ rw (e, add_candidates) (add_candidates-Raising r seen rest)
        | inr e ↦
            rw (e, add_candidates)
              (Raising-bind E _ _ (add-Raising r text) λ child.
                Raising-bind E _ _ (add_candidates-Raising r (text ∷ seen) rest)
                  λ children. Raising-Calm E _ (Calm-pure E _))
      ]

  pub expand-Raising :
      (r : Ref)
      → ((t : Tree) (k : ℕ) (w : W) (e : Fault) → (p.generate t r k w).0 ≡ raise e → E e)
      → Raising E (expand p cfg r)
  unfolding expand
  expand-Raising r known = record {
    faults = λ s.
        (Raising-bind E _ _
            (Raising-Calm E _ (
              Calm-policy_call E (p.generate s.tree r cfg.branching_factor)
                (known s.tree cfg.branching_factor)))
            λ candidates. add_candidates-Raising r (child_contents s.tree r) _).faults
          s;
  }
