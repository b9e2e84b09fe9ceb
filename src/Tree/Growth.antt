-- ===== src/Tree/Growth.antt =====
-- Adding a node keeps a tree well-formed.
use cognitive_tree_ai.Prelude.{
  ℕ, ◌+◌, ◌<◌, ◌≡◌, ◌≢◌, ◌∙◌, refl, sym, ap, subst, Option, none, some, List, [], ◌∷◌, ◌++◌, All,
  All-map, All-append, arith, Text, Bool-cases, Option-cases, inl, inr, ◌==◌, ==_iff, suc,
  Memᴰ-append_left, Memᴰ-append_right,
}
use mathlib.Core.List.{Memᴰ}
use cognitive_tree_ai.Node.{Node, Ref, make_node}
use cognitive_tree_ai.Tree.{Tree, attach_child, add_child, new_tree, index_lookup}
use cognitive_tree_ai.Tree.WellFormed.{Ascending, ParentFits, NodeFits, IsWellFormed}

pub Ascending-snoc :
    (low high : ℕ) (cs : List Ref)
    → low < high
    → Ascending low high cs
    → Ascending low (suc high) (cs ++ high ∷ [])
Ascending-snoc low high [] lt h = omega arith
Ascending-snoc low high (c ∷ cs) lt (l, b, rest) = (l, omega arith, Ascending-snoc c high cs b rest)

pub Ascending-wider :
    (low high : ℕ) (cs : List Ref) → Ascending low high cs → Ascending low (suc high) cs
Ascending-wider low high [] h = tt
Ascending-wider low high (c ∷ cs) (l, b, rest) = (l, omega arith, Ascending-wider c high cs rest)

pub Ascending-below :
    (low high : ℕ) (cs : List Ref) → Ascending low high cs → All (λ c. (low < c) × (c < high)) cs
Ascending-below low high [] h = tt
Ascending-below low high (c ∷ cs) (l, b, rest) =
    ((l, b), All-map _ _ cs (λ x q. omega arith) (Ascending-below c high cs rest))

module _ (id : Text) (p : Ref) (content : Text) (t : Tree) where
  abbrev grown : Tree
  grown = attach_child id p content t

  pub grown_new : grown.cell t.size ≡ make_node content (some p) ((t.cell p).depth + 1) id
  unfolding attach_child
  grown_new = ground arith

  pub grown_parent :
      p < t.size
      → grown.cell p ≡ record (t.cell p) { children = (t.cell p).children ++ t.size ∷ [] }
  unfolding attach_child
  grown_parent h = ground arith

  pub grown_other : (x : Ref) → x < t.size → x ≢ p → grown.cell x ≡ t.cell x
  unfolding attach_child
  grown_other x h ne = ground arith

  -- What the growth leaves of an older node.
  record Older (x : Ref) : Type 0 where
    parent : (grown.cell x).parent ≡ (t.cell x).parent
    depth : (grown.cell x).depth ≡ (t.cell x).depth
    listed : (c : Ref) → Memᴰ c (t.cell x).children → Memᴰ c (grown.cell x).children

  Older-of_lt : (x : Ref) → x < t.size → Older x
  unfolding attach_child
  Older-of_lt x lt = elim (Bool-cases (x == t.size)) [
    | inl e ↦ absurd (ground (arith, ==_iff x t.size))
    | inr n ↦ elim (Bool-cases (x == p)) [
      | inl e ↦
          let q : x ≡ p = (==_iff x p).0 e in
          record {
            parent = rw (n, e) (rw q refl);
            depth = rw (n, e) (rw q refl);
            listed = λ c m.
                rw (n, e)
                  (Memᴰ-append_left (t.size ∷ []) (subst (λ y. Memᴰ c (t.cell y).children) q m));
          }
      | inr e ↦ record {
        parent = rw (n, e) refl;
        depth = rw (n, e) refl;
        listed = λ c m. rw (n, e) m;
      }
    ]
  ]

  module _ (h : IsWellFormed t) (lt : p < t.size) where
    ParentFits-old :
        (r : Ref) (o : Option Ref) → r < t.size → ParentFits t r o → ParentFits grown r o
    unfolding attach_child
    ParentFits-old r none rlt (e, d) = (e, (Older-of_lt r rlt).depth ∙ d)
    ParentFits-old r (some q) rlt (ql, d, m) =
        let old = Older-of_lt r rlt in
        let above = Older-of_lt q (omega arith) in
        (ql, omega (arith, old.depth, above.depth, d), above.listed r m)

    linked-old :
        (r : Ref) (cs : List Ref)
        → All (λ c. (r < c) × (c < t.size)) cs
        → All (λ c. (t.cell c).parent ≡ some r) cs
        → All (λ c. (grown.cell c).parent ≡ some r) cs
    linked-old r [] b l = tt
    linked-old r (c ∷ cs) (cb, b) (cl, l) = ((Older-of_lt c cb.1).parent ∙ cl, linked-old r cs b l)

    below : (r : Ref) → r < t.size → All (λ c. (r < c) × (c < t.size)) (t.cell r).children
    below r rlt = Ascending-below r t.size _ (h.fits r rlt).ascending

    fits-new : NodeFits grown t.size
    fits-new = record {
      ascending = rw grown_new tt;
      linked = rw grown_new tt;
      parent_fits = rw grown_new (
        lt,
        ap (λ (n : Node). n.depth) grown_new ∙ ap (λ (n : ℕ). n + 1) (sym (Older-of_lt p lt).depth),
        rw (grown_parent lt) (Memᴰ-append_right (t.cell p).children (Memᴰ.head refl)),
      );
    }

    fits-parent : NodeFits grown p
    unfolding attach_child
    fits-parent = record {
      ascending = rw (grown_parent lt) (Ascending-snoc p t.size _ lt (h.fits p lt).ascending);
      linked = rw (grown_parent lt) (
          All-append _ (t.cell p).children _ (linked-old p _ (below p lt) (h.fits p lt).linked)
            (rw grown_new refl, tt));
      parent_fits = rw (grown_parent lt) (ParentFits-old p _ lt (h.fits p lt).parent_fits);
    }

    fits-other : (r : Ref) → r < t.size → r ≢ p → NodeFits grown r
    unfolding attach_child
    fits-other r rlt ne = record {
      ascending = rw (grown_other r rlt ne) (Ascending-wider r t.size _ (h.fits r rlt).ascending);
      linked = rw (grown_other r rlt ne) (linked-old r _ (below r rlt) (h.fits r rlt).linked);
      parent_fits = rw (grown_other r rlt ne) (ParentFits-old r _ rlt (h.fits r rlt).parent_fits);
    }

    -- Every node of the grown tree fits.
    fits-grown : (r : Ref) → r < suc t.size → NodeFits grown r
    fits-grown r rlt = elim (Bool-cases (r == t.size)) [
      | inl e ↦ subst (NodeFits grown) (sym ((==_iff r t.size).0 e)) fits-new
      | inr n ↦
          let older : r < t.size = ground arith in
          elim (Bool-cases (r == p)) [
            | inl e ↦ subst (NodeFits grown) (sym ((==_iff r p).0 e)) fits-parent
            | inr ne ↦ fits-other r older (λ q. cc ((==_iff r p).1 q))
          ]
    ]

    pub attach_child-IsWellFormed : IsWellFormed grown
    unfolding attach_child
    attach_child-IsWellFormed = record {
      root_zero = h.root_zero;
      inhabited = omega arith;
      orphan = (Older-of_lt 0 h.inhabited).parent ∙ h.orphan;
      fits = fits-grown;
    }

ParentFits-index :
    (t : Tree) (index : List (Text × Ref)) (r : Ref) (o : Option Ref)
    → ParentFits t r o
    → ParentFits (record t { index = index }) r o
ParentFits-index t index r none h = h
ParentFits-index t index r (some p) h = h

-- Nothing of the linked structure rests on the identifier index.
IsWellFormed-index :
    (t : Tree) (index : List (Text × Ref))
    → IsWellFormed t
    → IsWellFormed (record t { index = index })
IsWellFormed-index t index h = record {
  root_zero = h.root_zero;
  inhabited = h.inhabited;
  orphan = h.orphan;
  fits = λ r lt.
      let f = h.fits r lt in
      record {
        ascending = f.ascending;
        linked = f.linked;
        parent_fits = ParentFits-index t index r _ f.parent_fits;
      };
}

-- `add_child` keeps a tree well-formed, also where it refuses the parent.
pub add_child-IsWellFormed :
    (id : Text) (p : Ref) (content : Text) (t : Tree)
    → IsWellFormed t
    → p < t.size
    → IsWellFormed (add_child id p content t).1
unfolding add_child
add_child-IsWellFormed id p content t h lt =
    elim (Option-cases (index_lookup (t.cell p).id t.index)) [
      | inl e ↦ rw (e, add_child) h
      | inr (_, e) ↦
          rw (e, add_child) (IsWellFormed-index _ _ (attach_child-IsWellFormed id p content t h lt))
    ]

pub new_tree-IsWellFormed : (id content : Text) → IsWellFormed (new_tree id content)
unfolding new_tree
new_tree-IsWellFormed id content = record {
  root_zero = refl;
  inhabited = omega arith;
  orphan = refl;
  fits = λ r lt. record { ascending = tt; linked = tt; parent_fits = (omega arith, refl) };
}
