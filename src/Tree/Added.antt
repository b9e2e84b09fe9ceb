-- ===== src/Tree/Added.antt =====
-- What `add_child` adds and what it leaves as it was.
use cognitive_tree_ai.Prelude.{
  ◌<◌, ◌≡◌, ◌⊎◌, refl, ap, [], ◌∷◌, ◌++◌, arith, Text, Bool-cases, Option-cases, inl, inr, ◌==◌,
  ==_iff,
}
use cognitive_tree_ai.Faults.{Fault, ok, raise}
use cognitive_tree_ai.Node.{Node, Ref}
use cognitive_tree_ai.Tree.{Tree, attach_child, add_child, index_lookup, index_insert}
use cognitive_tree_ai.Tree.Growth.{grown_new, grown_parent}

-- What `add_child` does: it refuses an unknown parent, or the new node is the last child.
pub add_child_cases :
    (id : Text) (p : Ref) (content : Text) (t : Tree)
    → (add_child id p content t ≡ (raise Fault.key_error, t))
      ⊎ (add_child id p content t ≡ (
        ok t.size,
        record (attach_child id p content t) { index = index_insert id t.size t.index },
      ))
unfolding add_child attach_child
add_child_cases id p content t = elim (Option-cases (index_lookup (t.cell p).id t.index)) [
  | inl e ↦ inl (rw (e, add_child) refl)
  | inr (_, e) ↦ inr (rw (e, add_child) refl)
]

pub attach_child-children :
    (id : Text) (p : Ref) (content : Text) (t : Tree)
    → p < t.size
    → ((attach_child id p content t).cell p).children ≡ (t.cell p).children ++ t.size ∷ []
attach_child-children id p content t lt =
    ap (λ (n : Node). n.children) (grown_parent id p content t lt)

pub attach_child-content :
    (id : Text) (p : Ref) (content : Text) (t : Tree)
    → ((attach_child id p content t).cell t.size).content ≡ content
attach_child-content id p content t = ap (λ (n : Node). n.content) (grown_new id p content t)

pub attach_child-older :
    (id : Text) (p : Ref) (content : Text) (t : Tree) (x : Ref)
    → x < t.size
    → ((attach_child id p content t).cell x).content ≡ (t.cell x).content
unfolding attach_child
attach_child-older id p content t x lt = elim (Bool-cases (x == t.size)) [
  | inl e ↦ absurd (ground (arith, ==_iff x t.size))
  | inr n ↦ elim (Bool-cases (x == p)) [
    | inl e ↦ rw (n, e) (rw ((==_iff x p).0 e) refl)
    | inr e ↦ rw (n, e) refl
  ]
]
