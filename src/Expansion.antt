-- ===== src/Expansion.antt =====
-- `_expand` of cognitivetree/search.py: the generator's candidates become children of a node.
pub mod Control
pub mod Siblings
pub mod Unique
pub mod Grown
use cognitive_tree_ai.Prelude.{
  ℕ, Text, Bool, true, false, Option, List, [], ◌∷◌, ◌||◌, strip, mem_text, is_space, take, map,
}
use cognitive_tree_ai.Faults.{Result, ok, raise}
use cognitive_tree_ai.Node.{Node, Ref}
use cognitive_tree_ai.Tree.{Tree, add_child}
use cognitive_tree_ai.Config.{SearchConfig}
use cognitive_tree_ai.Policies.{Policies}
use cognitive_tree_ai.Exec.{Run, Exec, pure, policy_call, ◌>>=◌}

unfoldable pub is_empty : Text → Bool
is_empty [] = true
is_empty (c ∷ s) = false

-- `{child.content for child in node.children}`
abbrev pub child_contents : Tree → Ref → List Text
child_contents t r = map (λ c. (t.cell c).content) (t.cell r).children

module _ {W : Type 0} (p : Policies W) (cfg : SearchConfig) where
  pub add : Ref → Text → Exec W Ref
  add r text s =
      let (result, t) = add_child (p.ids s.tree.size) r text s.tree in
      (result, record s { tree = t })

  -- The loop over the candidates. `seen` holds the texts that are taken.
  pub add_candidates : Ref → List Text → List Text → Exec W (List Ref)
  add_candidates r seen [] = pure []
  add_candidates r seen (content ∷ rest) =
      let text = strip content in
      elim (is_empty text || mem_text text seen) [
        | true ↦ add_candidates r seen rest
        | false ↦ do
          child ← add r text
          children ← add_candidates r (text ∷ seen) rest
          pure (child ∷ children)
      ]

  unfoldable pub expand : Ref → Exec W (List Ref)
  expand r s =
      (do
        candidates ← policy_call (p.generate s.tree r cfg.branching_factor)
        add_candidates r (child_contents s.tree r) (take cfg.branching_factor candidates))
        s
