-- ===== src/Tree/Earlier.antt =====
-- A tree beside what later calls make of it: nodes are added, and none is lost or moved.
use cognitive_tree_ai.Prelude.{
  ◌<◌, ◌≤◌, ◌≡◌, ◌∙◌, refl, sym, ap, Text, List, ◌==◌, ==_iff, Bool-cases, inl, inr, arith,
}
use cognitive_tree_ai.Node.{Node, Ref}
use cognitive_tree_ai.Tree.{Tree, attach_child}
use cognitive_tree_ai.Tree.Updates.{SameShape}

-- The node is the same, with the same text and the same place.
pub record SamePlace (a b : Node) : Type 0 where
  pub id : b.id ≡ a.id
  pub content : b.content ≡ a.content
  pub parent : b.parent ≡ a.parent

-- The nodes of `t` are in `u`, at their places.
pub record Earlier (t u : Tree) : Type 0 where
  pub size : t.size ≤ u.size
  pub root : u.root ≡ t.root
  pub nodes : (x : Ref) → x < t.size → SamePlace (t.cell x) (u.cell x)

pub Earlier-refl : (t : Tree) → Earlier t t
Earlier-refl t = record {
  size = omega arith;
  root = refl;
  nodes = λ x lt. record { id = refl; content = refl; parent = refl };
}

pub Earlier-trans : {t u v : Tree} → Earlier t u → Earlier u v → Earlier t v
Earlier-trans e f = record {
  size = omega (arith, e.size, f.size);
  root = f.root ∙ e.root;
  nodes = λ x lt.
      let a = e.nodes x lt in
      let b = f.nodes x (omega (arith, e.size)) in
      record { id = b.id ∙ a.id; content = b.content ∙ a.content; parent = b.parent ∙ a.parent };
}

pub SameShape→Earlier : {t u : Tree} → SameShape t u → Earlier t u
SameShape→Earlier h = record {
  size = omega (arith, h.size);
  root = sym h.root;
  nodes = λ x lt. record {
    id = sym (h.cells x).id;
    content = sym (h.cells x).content;
    parent = sym (h.cells x).parent;
  };
}

-- A new child leaves the others in their places.
pub attach_child-Earlier :
    (id : Text) (r : Ref) (text : Text) (t : Tree) (index : List (Text × Ref))
    → Earlier t (record (attach_child id r text t) { index = index })
unfolding attach_child
attach_child-Earlier id r text t index = record {
  size = omega arith;
  root = refl;
  nodes = λ x lt. elim (Bool-cases (x == t.size)) [
    | inl e ↦ absurd (omega (arith, (==_iff x t.size).0 e))
    | inr e ↦ elim (Bool-cases (x == r)) [
      | inl q ↦
          let same : t.cell x ≡ t.cell r = ap t.cell ((==_iff x r).0 q) in
          rw (e, q)
            (record {
              id = ap (λ n. n.id) (sym same);
              content = ap (λ n. n.content) (sym same);
              parent = ap (λ n. n.parent) (sym same);
            })
      | inr q ↦ rw (e, q) (record { id = refl; content = refl; parent = refl })
    ]
  ];
}
