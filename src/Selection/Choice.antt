-- ===== src/Selection/Choice.antt =====
-- The choice among live children: it does not fail, it takes one of them, and it changes no node.
use cognitive_tree_ai.Prelude.{
  ◌≡◌, ◌≢◌, ◌∙◌, inl, inr, refl, sym, ap, subst, Float, FloatOps, Bool, true, false, Option, some,
  List, [], ◌∷◌, Bool-cases, All, map, max_from, if◌then◌else◌,
}
use mathlib.Core.List.{Memᴰ}
use cognitive_tree_ai.Faults.{Result, ok, raise}
use cognitive_tree_ai.Node.{Node, Ref, uct_score}
use cognitive_tree_ai.Tree.{Tree}
use cognitive_tree_ai.Config.{SearchConfig}
use cognitive_tree_ai.Policies.{Policies}
use cognitive_tree_ai.Exec.{Run, pure, world_call, ◌>>=◌, bind_rule}
use cognitive_tree_ai.Selection.{
  Keyed, uct_of, key_of, key_children, greatest, choose, key_gt, parent_node,
}

max_from-Memᴰ {ℓ} :
    {A : Type ℓ} (gt : A → A → Bool) (best : A) (xs : List A)
    → Memᴰ (max_from gt best xs) (best ∷ xs)
unfolding max_from
max_from-Memᴰ {A = A} gt best [] = Memᴰ.head refl
max_from-Memᴰ {A = A} gt best (x ∷ xs) = elim (Bool-cases (gt x best)) [
  | inl e ↦ rw e (Memᴰ.tail (max_from-Memᴰ gt x xs))
  | inr e ↦ rw e (skip (max_from-Memᴰ gt best xs))
]
  where
    skip : {y : A} → Memᴰ y (best ∷ xs) → Memᴰ y (best ∷ x ∷ xs)
    skip (Memᴰ.head q) = Memᴰ.head q
    skip (Memᴰ.tail m) = Memᴰ.tail (Memᴰ.tail m)

map-Memᴰ : {k : Keyed} {ks : List Keyed} → Memᴰ k ks → Memᴰ k.child (map (λ x. x.child) ks)
map-Memᴰ (Memᴰ.head e) = Memᴰ.head (ap (λ x. x.child) e)
map-Memᴰ (Memᴰ.tail m) = Memᴰ.tail (map-Memᴰ m)

if-ok : (b : Bool) (x y : Float) → (z : Float) × ((if b then ok x else ok y) ≡ ok z)
if-ok true x y = (x, refl)
if-ok false x y = (y, refl)

-- Below the root the UCT score exists.
uct_score-ok :
    (ops : FloatOps) (w : Float) (parent n : Node)
    → (z : Float) × (uct_score ops w (some parent) n ≡ ok z)
unfolding uct_score
uct_score-ok ops w parent n = if-ok _ _ _

-- What `key_children` returns: a key for each child, in order.
abbrev Keys : {W : Type 0} → List Ref → Tree → Result (List Keyed) × Run W → Type 0
Keys cs t (ok ks, u) = (map (λ k. k.child) ks ≡ cs) × (u.tree ≡ t)
Keys cs t (raise e, u) = ⊥

-- What `choose` returns: one of the children.
abbrev pub Chosen : {W : Type 0} → List Ref → Tree → Result Ref × Run W → Type 0
Chosen cs t (ok c, u) = Memᴰ c cs × (u.tree ≡ t)
Chosen cs t (raise e, u) = ⊥

module _ {W : Type 0} (p : Policies W) (cfg : SearchConfig) where
  uct_of-ok :
      (c r : Ref) (s : Run W)
      → (s.tree.cell c).parent ≡ some r
      → (x : Float) × (uct_of p cfg c s ≡ (ok x, s))
  unfolding uct_of parent_node
  uct_of-ok c r s e =
      let t = s.tree in
      let w = cfg.exploration_weight in
      let (x, q) = uct_score-ok p.ops w (t.cell r) (t.cell c) in
      let score = λ (o : Option Ref). uct_score p.ops w (parent_node t o) (t.cell c) in
      (x, ap (λ y. (y, s)) (ap score e ∙ q))

  abbrev OneKey : Ref → Tree → Result Keyed × Run W → Type 0
  OneKey c t (ok k, u) = (k.child ≡ c) × (u.tree ≡ t)
  OneKey c t (raise e, u) = ⊥

  key_of-OneKey :
      (c r : Ref) (s : Run W) → (s.tree.cell c).parent ≡ some r → OneKey c s.tree (key_of p cfg c s)
  unfolding key_of world_call pure
  key_of-OneKey c r s up =
      let (x, scored) = uct_of-ok c r s up in
      bind_rule (OneKey c s.tree) (uct_of p cfg c) _ s
        (λ uct _. unfold ◌>>=◌ in (refl, ap (λ y. y.1.tree) scored)) (λ e raised. cc)

  key_children-Keys :
      (cs : List Ref) (r : Ref) (t : Tree) (s : Run W)
      → s.tree ≡ t
      → All (λ c. (t.cell c).parent ≡ some r) cs
      → Keys cs t (key_children p cfg cs s)
  unfolding key_children pure
  key_children-Keys [] r t s e linked = (refl, e)
  key_children-Keys (c ∷ cs) r t s e (up, linked) =
      let one =
        subst (λ u. OneKey c u (key_of p cfg c s)) e
          (key_of-OneKey c r s (ap (λ u. (u.cell c).parent) e ∙ up)) in
      bind_rule (Keys (c ∷ cs) t) (key_of p cfg c) _ s
        (λ k h.
          let (named, same) = subst (λ y. OneKey c t (y, (key_of p cfg c s).1)) h one in
          let u = (key_of p cfg c s).1 in
          let rest = key_children-Keys cs r t u same linked in
          bind_rule (Keys (c ∷ cs) t) (key_children p cfg cs) _ u
            (λ ks h'.
              let (all, kept) = subst (λ y. Keys cs t (y, (key_children p cfg cs u).1)) h' rest in
              (cc, kept))
            (λ x h'. absurd (subst (λ y. Keys cs t (y, (key_children p cfg cs u).1)) h' rest)))
        (λ x h. absurd (subst (λ y. OneKey c t (y, (key_of p cfg c s).1)) h one))

  greatest-Chosen :
      (ks : List Keyed) (cs : List Ref) {t : Tree} (u : Run W)
      → (map (λ k. k.child) ks ≡ cs) × (u.tree ≡ t)
      → cs ≢ []
      → Chosen cs t (greatest p cfg ks u)
  unfolding greatest pure
  greatest-Chosen [] cs u (e, same) ne = absurd (ne (sym e))
  greatest-Chosen (k ∷ ks) cs u (e, same) ne =
      (subst (Memᴰ _) e (map-Memᴰ (max_from-Memᴰ (key_gt p.ops) k ks)), same)

  pub choose-Chosen :
      (c : Ref) (cs : List Ref) (r : Ref) (s : Run W)
      → All (λ c. (s.tree.cell c).parent ≡ some r) (c ∷ cs)
      → Chosen (c ∷ cs) s.tree (choose p cfg (c ∷ cs) s)
  unfolding choose
  choose-Chosen c cs r s linked =
      let t = s.tree in
      let keyed = key_children-Keys (c ∷ cs) r t s refl linked in
      bind_rule (Chosen (c ∷ cs) t) (key_children p cfg (c ∷ cs)) (greatest p cfg) s
        (λ ks h.
          greatest-Chosen ks (c ∷ cs) _
            (subst (λ y. Keys (c ∷ cs) t (y, (key_children p cfg (c ∷ cs) s).1)) h keyed) (λ e. cc))
        (λ x h.
          absurd (subst (λ y. Keys (c ∷ cs) t (y, (key_children p cfg (c ∷ cs) s).1)) h keyed))
