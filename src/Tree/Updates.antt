-- ===== src/Tree/Updates.antt =====
-- Writes that keep the shape of a tree: all writes of the program but `attach_child` leave the
-- links, the depths and the identifiers of the nodes alone.
use cognitive_tree_ai.Prelude.{
  Float, FloatOps, Text, ◌≡◌, refl, ◌∙◌, List, [], ◌∷◌, ◌==◌, arith, Bool-cases, inl, inr,
  if◌then◌else◌, ◌≢◌, ==_iff,
}
use cognitive_tree_ai.Node.{
  Node, Ref, Metadata, NodeStatus, is_live, record_visit, apply_evaluation,
}
use cognitive_tree_ai.Tree.{Tree, modify, prune_node, prune_one, prune_each, walk, prune_subtree}

pub record SameLinks (a b : Node) : Type 0 where
  pub parent : a.parent ≡ b.parent
  pub depth : a.depth ≡ b.depth
  pub children : a.children ≡ b.children
  pub id : a.id ≡ b.id
  pub content : a.content ≡ b.content

pub record SameShape (t u : Tree) : Type 0 where
  pub size : t.size ≡ u.size
  pub root : t.root ≡ u.root
  pub index : t.index ≡ u.index
  pub cells : (r : Ref) → SameLinks (t.cell r) (u.cell r)

pub SameLinks-refl : (a : Node) → SameLinks a a
SameLinks-refl a = record {
  parent = refl;
  depth = refl;
  children = refl;
  id = refl;
  content = refl;
}

pub SameShape-refl : (t : Tree) → SameShape t t
SameShape-refl t = record {
  size = refl;
  root = refl;
  index = refl;
  cells = λ r. SameLinks-refl (t.cell r);
}

SameLinks-trans : {a b c : Node} → SameLinks a b → SameLinks b c → SameLinks a c
SameLinks-trans p q = record {
  parent = p.parent ∙ q.parent;
  depth = p.depth ∙ q.depth;
  children = p.children ∙ q.children;
  id = p.id ∙ q.id;
  content = p.content ∙ q.content;
}

pub SameShape-trans : {t u v : Tree} → SameShape t u → SameShape u v → SameShape t v
SameShape-trans p q = record {
  size = p.size ∙ q.size;
  root = p.root ∙ q.root;
  index = p.index ∙ q.index;
  cells = λ r. SameLinks-trans (p.cells r) (q.cells r);
}

-- Reading back what a write left.
pub cell-modify :
    (r x : Ref) (f : Node → Node) (t : Tree)
    → (modify r f t).cell x ≡ (if x == r then f (t.cell r) else t.cell x)
unfolding modify
cell-modify r x f t = refl

pub cell-modify_self : (r : Ref) (f : Node → Node) (t : Tree) → (modify r f t).cell r ≡ f (t.cell r)
unfolding modify
cell-modify_self r f t = ground arith

pub cell-modify_ne :
    (r x : Ref) (f : Node → Node) (t : Tree) → x ≢ r → (modify r f t).cell x ≡ t.cell x
unfolding modify
cell-modify_ne r x f t h = ground arith

pub modify-SameShape :
    (r : Ref) (f : Node → Node) (t : Tree)
    → SameLinks (t.cell r) (f (t.cell r))
    → SameShape t (modify r f t)
unfolding modify
modify-SameShape r f t h = record {
  size = refl;
  root = refl;
  index = refl;
  cells = λ x. elim (Bool-cases (x == r)) [
    | inl e ↦ rw e (rw ((==_iff x r).0 e) h)
    | inr e ↦ rw e (SameLinks-refl (t.cell x))
  ];
}

pub record_visit-SameLinks :
    (ops : FloatOps) (v : Float) (n : Node) → SameLinks n (record_visit ops v n)
unfolding record_visit
record_visit-SameLinks ops v n = ground arith

pub apply_evaluation-SameLinks :
    (score : Float) (s : NodeStatus) (why : Text) (n : Node)
    → SameLinks n (apply_evaluation score s why n)
unfolding apply_evaluation
apply_evaluation-SameLinks score s why n = ground arith

pub metadata-SameLinks : (m : Metadata) (n : Node) → SameLinks n (record n { metadata = m })
metadata-SameLinks m n = ground arith

prune_node-SameLinks : (n : Node) → SameLinks n (prune_node n)
unfolding prune_node
prune_node-SameLinks n = ground arith

prune_one-SameShape : (r : Ref) (t : Tree) → SameShape t (prune_one r t)
unfolding prune_one
prune_one-SameShape r t = elim (Bool-cases (is_live (t.cell r))) [
  | inl e ↦ rw e (modify-SameShape r prune_node t (prune_node-SameLinks (t.cell r)))
  | inr e ↦ rw e (SameShape-refl t)
]

pub prune_each-SameShape : (rs : List Ref) (t : Tree) → SameShape t (prune_each rs t).1
unfolding prune_each
prune_each-SameShape [] t = SameShape-refl t
prune_each-SameShape (r ∷ rs) t =
    SameShape-trans (prune_one-SameShape r t) (prune_each-SameShape rs (prune_one r t))

pub prune_subtree-SameShape : (r : Ref) (t : Tree) → SameShape t (prune_subtree r t).1
unfolding prune_subtree
prune_subtree-SameShape r t = prune_each-SameShape (walk t r) t
