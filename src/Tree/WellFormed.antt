-- ===== src/Tree/WellFormed.antt =====
-- The linked structure of a tree.
use cognitive_tree_ai.Prelude.{
  ℕ, ◌+◌, ◌<◌, ◌≡◌, ◌∙◌, sym, ap, subst, Option, none, some, List, [], ◌∷◌, All, All-map,
}
use mathlib.Core.List.{Memᴰ}
use cognitive_tree_ai.Node.{Ref}
use cognitive_tree_ai.Tree.{Tree}
use cognitive_tree_ai.Tree.Updates.{SameShape}

-- The addresses of a list rise from above `low` to below `high`.
abbrev pub Ascending : ℕ → ℕ → List Ref → Type 0
Ascending low high [] = Unit
Ascending low high (c ∷ cs) = (low < c) × (c < high) × Ascending c high cs

-- What the parent link of the node at `r` says: only the root has none, a parent is older than
-- its child, lists it, and lies one level above.
abbrev pub ParentFits : Tree → Ref → Option Ref → Type 0
ParentFits t r none = (r ≡ t.root) × ((t.cell r).depth ≡ 0)
ParentFits t r (some p) =
    (p < r) × ((t.cell r).depth ≡ (t.cell p).depth + 1) × Memᴰ r (t.cell p).children

pub record NodeFits (t : Tree) (r : Ref) : Type 0 where
  pub ascending : Ascending r t.size (t.cell r).children
  pub linked : All (λ c. (t.cell c).parent ≡ some r) (t.cell r).children
  pub parent_fits : ParentFits t r (t.cell r).parent

pub record IsWellFormed (t : Tree) : Type 0 where
  pub root_zero : t.root ≡ 0
  pub inhabited : 0 < t.size
  pub orphan : (t.cell 0).parent ≡ none
  pub fits : (r : Ref) → r < t.size → NodeFits t r

module _ {t u : Tree} (same : SameShape t u) where
  parent_of : (r : Ref) → (t.cell r).parent ≡ (u.cell r).parent
  parent_of r = (same.cells r).parent

  ParentFits-shape : (r : Ref) (o : Option Ref) → ParentFits t r o → ParentFits u r o
  ParentFits-shape r none (e, d) = (e ∙ same.root, sym (same.cells r).depth ∙ d)
  ParentFits-shape r (some p) (lt, d, m) = (
    lt,
    sym (same.cells r).depth ∙ d ∙ ap suc_of (same.cells p).depth,
    subst (Memᴰ r) (same.cells p).children m,
  )
    where
      suc_of : ℕ → ℕ
      suc_of n = n + 1

  NodeFits-shape : (r : Ref) → NodeFits t r → NodeFits u r
  NodeFits-shape r h = record {
    ascending =
        subst (Ascending r u.size) (same.cells r).children
          (subst (λ n. Ascending r n (t.cell r).children) same.size h.ascending);
    linked =
        subst (All (λ c. (u.cell c).parent ≡ some r)) (same.cells r).children
          (All-map _ _ (t.cell r).children (λ c e. sym (parent_of c) ∙ e) h.linked);
    parent_fits = subst (ParentFits u r) (same.cells r).parent (ParentFits-shape r _ h.parent_fits);
  }

  -- Well-formedness depends on the shape alone.
  pub IsWellFormed-shape : IsWellFormed t → IsWellFormed u
  IsWellFormed-shape h = record {
    root_zero = sym same.root ∙ h.root_zero;
    inhabited = subst (λ n. 0 < n) same.size h.inhabited;
    orphan = sym (parent_of 0) ∙ h.orphan;
    fits = λ r lt. NodeFits-shape r (h.fits r (subst (λ n. r < n) (sym same.size) lt));
  }
