-- ===== src/Expansion/Siblings.antt =====
-- The texts of the children of a node.
use cognitive_tree_ai.Prelude.{
  ℕ, is_space, ◌<◌, ◌≡◌, ◌∙◌, refl, sym, ap, Text, false, List, [], ◌∷◌, ◌++◌, map, All, All-map,
  inl, inr, Memᴰ-append_cases,
}
use mathlib.Core.List.{Memᴰ}
use cognitive_tree_ai.Node.{Ref}
use cognitive_tree_ai.Tree.{Tree, attach_child}
use cognitive_tree_ai.Tree.WellFormed.{IsWellFormed}
use cognitive_tree_ai.Tree.Growth.{Ascending-below}
use cognitive_tree_ai.Tree.Added.{attach_child-children, attach_child-content, attach_child-older}
use cognitive_tree_ai.Expansion.{child_contents}

-- No text occurs twice.
abbrev pub Distinct : List Text → Type 0
Distinct [] = Unit
Distinct (x ∷ xs) = (¬ Memᴰ x xs) × Distinct xs

pub Distinct-snoc :
    (xs : List Text) (x : Text) → Distinct xs → ¬ Memᴰ x xs → Distinct (xs ++ x ∷ [])
Distinct-snoc [] x d n = ((λ m. elim m [ ]), tt)
Distinct-snoc (y ∷ ys) x (n', d) n = (
  λ m. elim (Memᴰ-append_cases ys m) [
    | inl l ↦ n' l
    | inr (Memᴰ.head e) ↦ n (Memᴰ.head (sym e))
    | inr (Memᴰ.tail k) ↦ elim k [ ]
  ],
  Distinct-snoc ys x d (λ m. n (Memᴰ.tail m)),
)

-- Some character of the text is no white space.
pub data IsFilled : Text → Type 0 where
  here : (c : ℕ) (s : Text) → is_space c ≡ false → IsFilled (c ∷ s)
  there : (c : ℕ) {s : Text} → IsFilled s → IsFilled (c ∷ s)

-- The texts of a node's children, none blank and none twice.
pub record Siblings (t : Tree) (r : Ref) : Type 0 where
  pub distinct : Distinct (child_contents t r)
  pub filled : All IsFilled (child_contents t r)

-- Of every node.
abbrev pub AllSiblings : Tree → Type 0
AllSiblings t = (x : Ref) → x < t.size → Siblings t x

pub contents-older :
    (t u : Tree) (cs : List Ref)
    → All (λ c. (u.cell c).content ≡ (t.cell c).content) cs
    → map (λ c. (u.cell c).content) cs ≡ map (λ c. (t.cell c).content) cs
contents-older t u [] h = refl
contents-older t u (c ∷ cs) (e, h) = rw (e, contents-older t u cs h) refl

pub map-snoc :
    (f : Ref → Text) (cs : List Ref) (c : Ref) → map f (cs ++ c ∷ []) ≡ map f cs ++ f c ∷ []
map-snoc f [] c = refl
map-snoc f (x ∷ xs) c = rw (map-snoc f xs c) refl

pub attach_child-contents :
    (id : Text) (r : Ref) (text : Text) (t : Tree)
    → IsWellFormed t
    → r < t.size
    → child_contents (attach_child id r text t) r ≡ child_contents t r ++ text ∷ []
attach_child-contents id r text t h lt =
    let u = attach_child id r text t in
    ap (map (λ c. (u.cell c).content)) (attach_child-children id r text t lt)
    ∙ map-snoc (λ c. (u.cell c).content) (t.cell r).children t.size
    ∙ ap (λ x. map (λ c. (u.cell c).content) (t.cell r).children ++ x ∷ [])
        (attach_child-content id r text t)
    ∙ ap (λ xs. xs ++ text ∷ [])
        (contents-older t u (t.cell r).children (
          All-map _ _ (t.cell r).children (λ c b. attach_child-older id r text t c b.1)
            (Ascending-below r t.size _ (h.fits r lt).ascending)))
