-- ===== src/Tree/Life.antt =====
-- Writes that change no status: which nodes are live, and how many, stays as it was.
use cognitive_tree_ai.Prelude.{ℕ, zero, suc, ◌≡◌, refl, Bool-cases, inl, inr, ◌==◌, ==_iff}
use cognitive_tree_ai.Node.{Ref, Metadata, is_live}
use cognitive_tree_ai.Tree.{Tree, modify}
use cognitive_tree_ai.Tree.Pruning.{count_live}

abbrev pub SameLife : Tree → Tree → Type 0
SameLife t u = (x : Ref) → is_live (u.cell x) ≡ is_live (t.cell x)

pub count_live-SameLife : (t u : Tree) (n : ℕ) → SameLife t u → count_live u n ≡ count_live t n
unfolding count_live
count_live-SameLife t u zero h = refl
count_live-SameLife t u (suc n) h = rw (h n) (rw (count_live-SameLife t u n h))

pub metadata-SameLife :
    (r : Ref) (m : Metadata) (t : Tree) → SameLife t (modify r (λ n. record n { metadata = m }) t)
unfolding modify is_live
metadata-SameLife r m t x = elim (Bool-cases (x == r)) [
  | inl e ↦ rw e (rw ((==_iff x r).0 e))
  | inr e ↦ rw e
]
