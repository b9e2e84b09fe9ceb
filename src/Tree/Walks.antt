-- ===== src/Tree/Walks.antt =====
-- The stack loop of `walk` is the depth-first traversal, and it visits what lies below its start.
use cognitive_tree_ai.Prelude.{
  ℕ, ◌+◌, ◌-◌, ◌≤◌, ◌<◌, ◌≡◌, ◌∙◌, refl, sym, ap, subst, List, [], ◌∷◌, ◌++◌, All, All-append,
  All-map, arith, inl, inr, suc, zero, pow2, pow2-pos, pow2_mono, pow2-suc, Memᴰ-append_left,
  Memᴰ-append_cases, All-Memᴰ, Memᴰ-append_right,
}
use mathlib.Core.List.{append-nil, append_assoc, Memᴰ}
use cognitive_tree_ai.Node.{Ref}
use cognitive_tree_ai.Tree.{Tree, walk_from, walk}
use cognitive_tree_ai.Tree.WellFormed.{Ascending, IsWellFormed}
use cognitive_tree_ai.Tree.Growth.{Ascending-below}

unfoldable pub each {ℓ κ} : {A : Type ℓ} {B : Type κ} → (A → List B) → List A → List B
each f [] = []
each f (x ∷ xs) = f x ++ each f xs

pub Memᴰ-each {ℓ κ} :
    {A : Type ℓ} {B : Type κ} (f : A → List B) {a : A} {b : B} {xs : List A}
    → Memᴰ a xs
    → Memᴰ b (f a)
    → Memᴰ b (each f xs)
unfolding each
Memᴰ-each f {b = b} {xs = x ∷ xs} (Memᴰ.head e) m =
    Memᴰ-append_left (each f xs) (subst (λ y. Memᴰ b (f y)) e m)
Memᴰ-each f (Memᴰ.tail n) m = Memᴰ-append_right _ (Memᴰ-each f n m)

pub each-Memᴰ {ℓ κ} :
    {A : Type ℓ} {B : Type κ} (f : A → List B) {b : B} (xs : List A)
    → Memᴰ b (each f xs)
    → (a : A) × Memᴰ a xs × Memᴰ b (f a)
unfolding each
each-Memᴰ f [] m = elim m [ ]
each-Memᴰ f {b} (x ∷ xs) m = elim (Memᴰ-append_cases (f x) m) [
  | inl l ↦ (x, Memᴰ.head refl, l)
  | inr r ↦ let (a, listed, seen) = each-Memᴰ f xs r in (a, Memᴰ.tail listed, seen)
]

-- The children of a node are younger than the node, and in the order of their age.
abbrev pub IsAscending : Tree → Type 0
IsAscending t = (r : Ref) → r < t.size → Ascending r t.size (t.cell r).children

pub IsWellFormed→IsAscending : {t : Tree} → IsWellFormed t → IsAscending t
IsWellFormed→IsAscending h = λ r lt. (h.fits r lt).ascending

-- The traversal by recursion: a node, then the traversals of its children in order. `levels`
-- bounds the depth; a child is younger than its parent, so `t.size - r` levels are enough.
pub preorder : ℕ → Tree → Ref → List Ref
unfolding each
preorder zero t r = []
preorder (suc levels) t r = r ∷ each (preorder levels t) (t.cell r).children

pub subtree : Tree → Ref → List Ref
unfolding preorder
subtree t r = preorder (t.size - r) t r

weight : Tree → List Ref → ℕ
weight t [] = 0
weight t (r ∷ rs) = pow2 (t.size - r) + weight t rs

weight-append : (t : Tree) (rs ss : List Ref) → weight t (rs ++ ss) ≡ weight t rs + weight t ss
unfolding weight
weight-append t [] ss = omega arith
weight-append t (r ∷ rs) ss = omega (arith, weight-append t rs ss)

weight-Ascending :
    (t : Tree) (low : ℕ) (cs : List Ref)
    → low < t.size
    → Ascending low t.size cs
    → weight t cs + 1 ≤ pow2 (t.size - low)
unfolding weight
weight-Ascending t low [] lt h = omega (arith, pow2-pos (t.size - low))
weight-Ascending t low (c ∷ cs) lt (l, b, rest) =
    let gap : t.size - low ≡ suc (t.size - low - 1) = omega arith in
    rw gap (
      omega (
        arith,
        weight-Ascending t c cs b rest,
        pow2-suc (t.size - low - 1),
        pow2_mono (t.size - c) (t.size - low - 1) (omega arith),
      ))

module _ (t : Tree) (h : IsAscending t) where
  pub younger : (r : Ref) → r < t.size → All (λ c. (r < c) × (c < t.size)) (t.cell r).children
  younger r lt = Ascending-below r t.size _ (h r lt)

  each-stable :
      (f g : Ref → List Ref) (low : ℕ) (cs : List Ref)
      → All (λ c. (low < c) × (c < t.size)) cs
      → ((c : Ref) → low < c → c < t.size → f c ≡ g c)
      → each f cs ≡ each g cs
  unfolding each
  each-stable f g low [] b e = refl
  each-stable f g low (c ∷ cs) (cb, b) e = cc (e c cb.0 cb.1, each-stable f g low cs b e)

  -- More levels than there are younger nodes change nothing.
  preorder-stable :
      (k m : ℕ) (r : Ref)
      → r < t.size
      → t.size ≤ k + r
      → t.size ≤ m + r
      → preorder k t r ≡ preorder m t r
  unfolding preorder
  preorder-stable zero m r lt hk hm = absurd (omega arith)
  preorder-stable (suc k) zero r lt hk hm = absurd (omega arith)
  preorder-stable (suc k) (suc m) r lt hk hm =
      ap (λ rest. r ∷ rest)
        (each-stable (preorder k t) (preorder m t) r _ (younger r lt)
          (λ c l b. preorder-stable k m c b (omega arith) (omega arith)))

  -- A traversal is its start and the traversals of the children.
  pub subtree_lem : (r : Ref) → r < t.size → subtree t r ≡ r ∷ each (subtree t) (t.cell r).children
  unfolding subtree
  subtree_lem r lt =
      preorder-stable (t.size - r) (suc (t.size - r)) r lt (omega arith) (omega arith)
      ∙ ap (λ rest. r ∷ rest)
          (each-stable (preorder (t.size - r) t) (subtree t) r _ (younger r lt)
            (λ c l b. preorder-stable (t.size - r) (t.size - c) c b (omega arith) (omega arith)))

  weight-step :
      (r : Ref) (stack : List Ref) (n : ℕ)
      → r < t.size
      → weight t (r ∷ stack) ≤ suc n
      → weight t ((t.cell r).children ++ stack) ≤ n
  unfolding weight
  weight-step r stack n lt w =
      omega (arith, weight-append t (t.cell r).children stack, weight-Ascending t r _ lt (h r lt))

  each-append : (f : Ref → List Ref) (rs ss : List Ref) → each f (rs ++ ss) ≡ each f rs ++ each f ss
  unfolding each
  each-append f [] ss = refl
  each-append f (r ∷ rs) ss = rw (each-append f rs ss) (sym (append_assoc (f r) _ _))

  -- The loop empties its stack, and yields the traversals of what was on it.
  walk_from-each :
      (rounds : ℕ) (stack : List Ref)
      → All (λ r. r < t.size) stack
      → weight t stack ≤ rounds
      → walk_from t stack rounds ≡ each (subtree t) stack
  unfolding walk_from each
  walk_from-each rounds [] b w = refl
  walk_from-each zero (r ∷ stack) b w =
      absurd (unfold weight in omega (arith, pow2-pos (t.size - r)))
  walk_from-each (suc n) (r ∷ stack) (lt, b) w = rw (subtree_lem r lt) (
      ap (λ rest. r ∷ rest)
        (walk_from-each n ((t.cell r).children ++ stack)
            (All-append _ (t.cell r).children stack (All-map _ _ _ (λ c q. q.1) (younger r lt)) b)
            (weight-step r stack n lt w)
          ∙ each-append (subtree t) (t.cell r).children stack))

  pub walk-subtree : (r : Ref) → r < t.size → walk t r ≡ subtree t r
  unfolding walk each
  walk-subtree r lt =
      walk_from-each (pow2 t.size) (r ∷ []) (lt, tt) (one_weight r) ∙ append-nil (subtree t r)
    where
      one_weight : (x : Ref) → weight t (x ∷ []) ≤ pow2 t.size
      one_weight x = unfold weight in omega (arith, pow2_mono (t.size - x) t.size (omega arith))

-- `x` is `r` or a node that child links lead to from `r`.
pub data Below (t : Tree) : Ref → Ref → Type 0 where
  self : (r : Ref) → Below t r r
  child : (r c : Ref) {x : Ref} → Memᴰ c (t.cell r).children → Below t c x → Below t r x

preorder-Below : (k : ℕ) (t : Tree) (r x : Ref) → Memᴰ x (preorder k t r) → Below t r x
unfolding preorder
preorder-Below zero t r x m = elim m [ ]
preorder-Below (suc k) t r x (Memᴰ.head e) = subst (Below t r) (sym e) (self r)
preorder-Below (suc k) t r x (Memᴰ.tail m) =
    let (c, listed, seen) = each-Memᴰ (preorder k t) _ m in
    child r c listed (preorder-Below k t c x seen)

module _ (t : Tree) (h : IsAscending t) where
  Below-subtree : {r x : Ref} → Below t r x → r < t.size → Memᴰ x (subtree t r)
  Below-subtree (self r) lt = subst (Memᴰ r) (sym (subtree_lem t h r lt)) (Memᴰ.head refl)
  Below-subtree (child r c {x = x} m b) lt =
      subst (Memᴰ x) (sym (subtree_lem t h r lt))
        (Memᴰ.tail (Memᴰ-each (subtree t) m (Below-subtree b (All-Memᴰ _ m (younger t h r lt)).1)))

  pub Below-lt : {r x : Ref} → Below t r x → r < t.size → x < t.size
  Below-lt (self r) lt = lt
  Below-lt (child r c m b) lt = Below-lt b (All-Memᴰ _ m (younger t h r lt)).1

  pub walk-visits :
      (r : Ref)
      → r < t.size
      → (walk t r ≡ r ∷ each (walk t) (t.cell r).children)
        × ((x : Ref) → (Memᴰ x (walk t r) → Below t r x) × (Below t r x → Memᴰ x (walk t r)))
  walk-visits r lt =
      let e = walk-subtree t h r lt in
      (
        e
            ∙ subtree_lem t h r lt
            ∙ ap (λ rest. r ∷ rest)
                (each-stable t h (subtree t) (walk t) r _ (younger t h r lt)
                  (λ c l b. sym (walk-subtree t h c b))),
        λ x. (
          λ m. unfold_subtree x (subst (Memᴰ x) e m),
          λ b. subst (Memᴰ x) (sym e) (Below-subtree b lt),
        ),
      )
    where
      unfold_subtree : (x : Ref) → Memᴰ x (subtree t r) → Below t r x
      unfold_subtree x m = unfold subtree in preorder-Below (t.size - r) t r x m

-- In a well-formed tree `walk` is the depth-first traversal: the start, then the walk of each
-- child in order; and it yields exactly the nodes that child links lead to from its start.
pub walk-Below :
    (t : Tree) (h : IsWellFormed t) (r : Ref)
    → r < t.size
    → (walk t r ≡ r ∷ each (walk t) (t.cell r).children)
      × ((x : Ref) → (Memᴰ x (walk t r) → Below t r x) × (Below t r x → Memᴰ x (walk t r)))
walk-Below t h r lt = walk-visits t (IsWellFormed→IsAscending h) r lt
