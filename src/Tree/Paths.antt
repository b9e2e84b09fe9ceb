-- ===== src/Tree/Paths.antt =====
-- `path_from_root` reaches the root, and what the path is.
use cognitive_tree_ai.Prelude.{
  ℕ, ◌+◌, ◌≤◌, ◌<◌, ◌≡◌, ◌∙◌, refl, Option, none, ap, subst, some, List, [], ◌∷◌, arith,
  Option-cases, inl, inr, suc, zero, length,
}
use cognitive_tree_ai.Node.{Ref}
use cognitive_tree_ai.Tree.{Tree, climb, path_from_root}
use cognitive_tree_ai.Tree.WellFormed.{ParentFits, IsWellFormed}

-- A chain of links from `from` down to `to`: each node of the list is the parent of the next.
pub data Chain (t : Tree) : Ref → List Ref → Ref → Type 0 where
  stop : (r : Ref) → Chain t r (r ∷ []) r
  link :
      (p r : Ref) {path : List Ref} {last : Ref}
      → (t.cell r).parent ≡ some p
      → Chain t r path last
      → Chain t p (p ∷ path) last

-- What the loop has collected is a chain from the last node that it saw.
climb-Chain :
    (rounds : ℕ) (t : Tree) (r last : Ref) (path : List Ref)
    → IsWellFormed t
    → r < t.size
    → r < rounds
    → Chain t r (r ∷ path) last
    → Chain t t.root (climb t (some r) rounds path) last
unfolding climb
climb-Chain zero t r last path h lt f c = absurd (omega arith)
climb-Chain (suc n) t r last path h lt f c = elim (Option-cases (t.cell r).parent) [
  | inl e ↦
      let at_root = subst (ParentFits t r) e (h.fits r lt).parent_fits in
      rw (e, climb) (subst (λ x. Chain t x (r ∷ path) last) at_root.0 c)
  | inr (p, e) ↦
      let above = subst (ParentFits t r) e (h.fits r lt).parent_fits in
      rw (e, climb)
        (climb-Chain n t p last (r ∷ path) h (omega (arith, above.0)) (omega (arith, above.0))
          (link p r e c))
]

module _ (t : Tree) (h : IsWellFormed t) where
  above : {p r : Ref} → r < t.size → (t.cell r).parent ≡ some p → ParentFits t r (some p)
  above {p = p} {r = r} lt e = subst (ParentFits t r) e (h.fits r lt).parent_fits

  Chain-le : {a r : Ref} {path : List Ref} → r < t.size → Chain t a path r → a ≤ r
  Chain-le lt (stop r) = omega arith
  Chain-le lt (link p r e c) =
      let le = Chain-le lt c in omega (arith, (above {p = p} {r = r} (omega arith) e).0)

  Chain-length :
      {a r : Ref} {path : List Ref}
      → r < t.size
      → Chain t a path r
      → (t.cell r).depth + 1 ≡ (t.cell a).depth + length path
  Chain-length lt (stop r) = omega arith
  Chain-length lt (link p r e c) =
      let le = Chain-le lt c in
      omega (arith, (above {p = p} {r = r} (omega arith) e).1, Chain-length lt c)

  root-depth : (t.cell t.root).depth ≡ 0
  root-depth =
      let lt : t.root < t.size = omega (arith, h.root_zero, h.inhabited) in
      (subst (ParentFits t t.root) (ap (λ x. (t.cell x).parent) h.root_zero ∙ h.orphan)
        (h.fits t.root lt).parent_fits).1

-- In a well-formed tree the path of a node is the chain of parent links from the root down to it,
-- and its length is one more than the node's depth.
pub path_from_root-Chain :
    (t : Tree) (r : Ref)
    → IsWellFormed t
    → r < t.size
    → Chain t t.root (path_from_root t r) r × (length (path_from_root t r) ≡ (t.cell r).depth + 1)
unfolding path_from_root
path_from_root-Chain t r h lt =
    let c = climb-Chain (suc r) t r r [] h lt (omega arith) (stop r) in
    (c, omega (arith, Chain-length t h lt c, root-depth t h))

-- The addresses of a list rise, from `low` on.
abbrev pub Rises : ℕ → List Ref → Type 0
Rises low [] = Unit
Rises low (r ∷ path) = (low ≤ r) × Rises (suc r) path

Rises-lower : (low high : ℕ) (path : List Ref) → low ≤ high → Rises high path → Rises low path
Rises-lower low high [] le h = tt
Rises-lower low high (r ∷ path) le (h, rest) = (omega arith, rest)

Chain-Rises :
    (t : Tree) {a r : Ref} {path : List Ref}
    → IsWellFormed t
    → r < t.size
    → Chain t a path r
    → Rises a path
Chain-Rises t h lt (stop r) = (omega arith, tt)
Chain-Rises t h lt (link p r e c) =
    let le = Chain-le t h lt c in
    let older = (above t h {p = p} {r = r} (omega arith) e).0 in
    (omega arith, Rises-lower (suc p) r _ (omega arith) (Chain-Rises t h lt c))

pub path_from_root-Rises :
    (t : Tree) (r : Ref) → IsWellFormed t → r < t.size → Rises t.root (path_from_root t r)
path_from_root-Rises t r h lt = Chain-Rises t h lt (path_from_root-Chain t r h lt).0

climb-same :
    (t u : Tree) (o : Option Ref) (rounds : ℕ) (path : List Ref)
    → ((x : Ref) → (t.cell x).parent ≡ (u.cell x).parent)
    → climb t o rounds path ≡ climb u o rounds path
unfolding climb
climb-same t u none rounds path h = refl
climb-same t u (some r) zero path h = refl
climb-same t u (some r) (suc rounds) path h =
    rw (h r) (climb-same t u (u.cell r).parent rounds (r ∷ path) h)

-- A path rests on the parent links alone.
pub path_from_root-same :
    (t u : Tree) (r : Ref)
    → ((x : Ref) → (t.cell x).parent ≡ (u.cell x).parent)
    → path_from_root t r ≡ path_from_root u r
unfolding path_from_root
path_from_root-same t u r h = climb-same t u (some r) (suc r) [] h
