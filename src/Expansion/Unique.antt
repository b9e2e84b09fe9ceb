-- ===== src/Expansion/Unique.antt =====
-- The children that an expansion adds: no blank text, no text twice, no more than were asked for.
use cognitive_tree_ai.Prelude.{
  ℕ, suc, ◌≤◌, ◌<◌, ◌≡◌, ◌≢◌, ◌∙◌, refl, sym, ap, subst, Text, Bool, true, false, List, [], ◌∷◌,
  ◌++◌, map, ◌||◌, strip, mem_text, mem_text-Memᴰ, ◌==◌, ==_iff, text_eq, text_eq_iff, take, length,
  All, All-append, All-map, arith, Bool-cases, inl, inr, length-take_le, Memᴰ-append_cases,
}
use mathlib.Core.List.{Memᴰ, append_assoc, append-nil}
use cognitive_tree_ai.Prelude.Texts.Stripped.{Starts, strip-Starts}
use cognitive_tree_ai.Faults.{Result, ok, raise}
use cognitive_tree_ai.Node.{Node, Ref}
use cognitive_tree_ai.Tree.{Tree, attach_child, add_child, index_insert}
use cognitive_tree_ai.Tree.WellFormed.{IsWellFormed}
use cognitive_tree_ai.Tree.Growth.{grown_new, grown_other, Ascending-below, add_child-IsWellFormed}
use cognitive_tree_ai.Tree.Added.{add_child_cases, attach_child-children, attach_child-older}
use cognitive_tree_ai.Config.{SearchConfig}
use cognitive_tree_ai.Policies.{Policies}
use cognitive_tree_ai.Exec.{Run, Exec, pure, policy_call, ◌>>=◌, bind_rule}
use cognitive_tree_ai.Expansion.{is_empty, child_contents, add, add_candidates, expand}
use cognitive_tree_ai.Expansion.Siblings.{
  IsFilled, Distinct, Distinct-snoc, Siblings, AllSiblings, contents-older, attach_child-contents,
}

-- A stripped text that is not empty begins with a character that is no white space.
strip-IsFilled : (content : Text) → is_empty (strip content) ≡ false → IsFilled (strip content)
unfolding is_empty
strip-IsFilled content = of (strip content) (strip-Starts content)
  where
    of : (t : Text) → Starts t → is_empty t ≡ false → IsFilled t
    of _ Starts.empty e = absurd (cc)
    of _ (Starts.sharp c s h) e = IsFilled.here c s h

-- What holds of the tree before each candidate: `seen` holds the texts of the children.
record Ready (t : Tree) (r : Ref) (seen : List Text) : Type 0 where
  fits : IsWellFormed t
  inside : r < t.size
  siblings : AllSiblings t
  known : (x : Text) → Memᴰ x (child_contents t r) → mem_text x seen ≡ true

-- What an expansion of the node at `r` leads to from the tree `t`.
abbrev pub Grows : {W : Type 0} → ℕ → Tree → Ref → Result (List Ref) × Run W → Type 0
Grows n t r (ok children, u) =
    IsWellFormed u.tree
    × (r < u.tree.size)
    × AllSiblings u.tree
    × ((u.tree.cell r).children ≡ (t.cell r).children ++ children)
    × (length children ≤ n)
Grows n t r (raise e, u) = IsWellFormed u.tree × (r < u.tree.size) × AllSiblings u.tree

or_false : (a b : Bool) → (a || b) ≡ false → (a ≡ false) × (b ≡ false)
or_false false b e = (refl, e)
or_false true b e = absurd (cc)

module _ (id : Text) (r : Ref) (text : Text) (t : Tree) (seen : List Text) (ready : Ready t r seen)
    (fresh : (is_empty text || mem_text text seen) ≡ false) (full : IsFilled text) where
  abbrev after : Tree
  after = record (attach_child id r text t) { index = index_insert id t.size t.index }

  after-contents : child_contents after r ≡ child_contents t r ++ text ∷ []
  after-contents = attach_child-contents id r text t ready.fits ready.inside

  unseen : mem_text text seen ≡ false
  unseen = (or_false (is_empty text) (mem_text text seen) fresh).1

  after-Siblings : Siblings after r
  after-Siblings = record {
    distinct = subst Distinct (sym after-contents) (
        Distinct-snoc (child_contents t r) text (ready.siblings r ready.inside).distinct
          (λ m. absurd (cc (ready.known text m, unseen))));
    filled = subst (All IsFilled) (sym after-contents) (
        All-append _ (child_contents t r) (text ∷ []) (ready.siblings r ready.inside).filled
          (full, tt));
  }

  after-known : (x : Text) → Memᴰ x (child_contents after r) → mem_text x (text ∷ seen) ≡ true
  unfolding mem_text
  after-known x m =
      elim (Memᴰ-append_cases (child_contents t r) (subst (Memᴰ x) after-contents m)) [
        | inl old ↦ elim (Bool-cases (text_eq text x)) [
          | inl e ↦ rw e refl
          | inr e ↦ rw (e, ready.known x old) refl
        ]
        | inr (Memᴰ.head e) ↦ rw ((text_eq_iff text x).1 (sym e)) refl
        | inr (Memᴰ.tail k) ↦ elim k [ ]
      ]

  after-old : (x : Ref) → x < t.size → x ≢ r → Siblings after x
  after-old x lt ne =
      let old = ready.siblings x lt in
      let same : child_contents after x ≡ child_contents t x =
        ap (λ (n : Node). map (λ c. (after.cell c).content) n.children)
          (grown_other id r text t x lt ne)
        ∙ contents-older t after (t.cell x).children (
            All-map _ _ (t.cell x).children (λ c b. attach_child-older id r text t c b.1)
              (Ascending-below x t.size _ (ready.fits.fits x lt).ascending)) in
      record {
        distinct = subst Distinct (sym same) old.distinct;
        filled = subst (All IsFilled) (sym same) old.filled;
      }

  after-new : Siblings after t.size
  after-new =
      let none_yet : child_contents after t.size ≡ [] =
        ap (λ (n : Node). map (λ c. (after.cell c).content) n.children) (grown_new id r text t) in
      record {
        distinct = subst Distinct (sym none_yet) tt;
        filled = subst (All IsFilled) (sym none_yet) tt;
      }

  after-AllSiblings : AllSiblings after
  unfolding attach_child
  after-AllSiblings x lt = elim (Bool-cases (x == t.size)) [
    | inl e ↦ subst (Siblings after) (sym ((==_iff x t.size).0 e)) after-new
    | inr n ↦ elim (Bool-cases (x == r)) [
      | inl e ↦ subst (Siblings after) (sym ((==_iff x r).0 e)) after-Siblings
      | inr ne ↦ after-old x (ground (arith, ==_iff x t.size)) (λ q. cc ((==_iff x r).1 q))
    ]
  ]

  after-children : (after.cell r).children ≡ (t.cell r).children ++ t.size ∷ []
  after-children = attach_child-children id r text t ready.inside

  after-Ready : add_child id r text t ≡ (ok t.size, after) → Ready after r (text ∷ seen)
  unfolding attach_child
  after-Ready e = record {
    fits =
        subst (λ x. IsWellFormed (x.1)) e
          (add_child-IsWellFormed id r text t ready.fits ready.inside);
    inside = omega (arith, ready.inside);
    siblings = after-AllSiblings;
    known = after-known;
  }

module _ {W : Type 0} (p : Policies W) (cfg : SearchConfig) (r : Ref) where
  -- How an `add` of a fresh text ends.
  Adds : Text → List Text → Run W → Result Ref × Run W → Type 0
  Adds text seen s (ok c, u) =
      Ready u.tree r (text ∷ seen) × ((u.tree.cell r).children ≡ (s.tree.cell r).children ++ c ∷ [])
  Adds text seen s (raise e, u) = IsWellFormed u.tree × (r < u.tree.size) × AllSiblings u.tree

  add-Adds :
      (text : Text) (seen : List Text) (s : Run W)
      → Ready s.tree r seen
      → (is_empty text || mem_text text seen) ≡ false
      → IsFilled text
      → Adds text seen s (add p cfg r text s)
  unfolding add Adds
  add-Adds text seen s ready fresh full =
      let id = p.ids s.tree.size in
      elim (add_child_cases id r text s.tree) [
        | inl e ↦ rw (e, add) (ready.fits, ready.inside, ready.siblings)
        | inr e ↦
            rw (e, add)
              (
                after-Ready id r text s.tree seen ready fresh full e,
                after-children id r text s.tree seen ready fresh full,
              )
      ]

  more :
      (t : Tree) (m n : ℕ) (x : Result (List Ref) × Run W) → m ≤ n → Grows m t r x → Grows n t r x
  more t m n (ok cs, u) le (h, i, b, e, l) = (h, i, b, e, omega arith)
  more t m n (raise e, u) le h = h

  -- The rest of the loop, after a child was added.
  then_rest :
      (n : ℕ) (t : Tree) (c : Ref) (u : Run W) (rest : Exec W (List Ref))
      → (u.tree.cell r).children ≡ (t.cell r).children ++ c ∷ []
      → Grows n u.tree r (rest u)
      → Grows (suc n) t r ((rest >>= λ children. pure (c ∷ children)) u)
  unfolding pure
  then_rest n t c u rest listed h =
      bind_rule (Grows (suc n) t r) rest (λ children. pure (c ∷ children)) u
        (λ children q.
          let (fits, inside, siblings, e, l) =
            subst (λ (y : Result (List Ref)). Grows n u.tree r (y, (rest u).1)) q h in
          (
            fits,
            inside,
            siblings,
            e
                ∙ ap (λ (cs : List Ref). cs ++ children) listed
                ∙ append_assoc (t.cell r).children (c ∷ []) children,
            omega arith,
          ))
        (λ x q. subst (λ (y : Result (List Ref)). Grows n u.tree r (y, (rest u).1)) q h)

  add_candidates-Grows :
      (seen candidates : List Text) (s : Run W)
      → Ready s.tree r seen
      → Grows (length candidates) s.tree r (add_candidates p cfg r seen candidates s)
  unfolding add_candidates pure Adds
  add_candidates-Grows seen [] s ready = (
    ready.fits,
    ready.inside,
    ready.siblings,
    sym (append-nil (s.tree.cell r).children),
    omega arith,
  )
  add_candidates-Grows seen (content ∷ rest) s ready =
      let text = strip content in
      elim (Bool-cases (is_empty text || mem_text text seen)) [
        | inl e ↦
            rw (e, add_candidates)
              (more s.tree (length rest) (suc (length rest)) _ (omega arith)
                (add_candidates-Grows seen rest s ready))
        | inr e ↦
            let empty : is_empty text ≡ false =
              (or_false (is_empty text) (mem_text text seen) e).0 in
            let added = add-Adds text seen s ready e (strip-IsFilled content empty) in
            let u = (add p cfg r text s).1 in
            rw (e, add_candidates)
              (bind_rule (Grows (suc (length rest)) s.tree r) (add p cfg r text) _ s
                (λ c q.
                  let (ready', listed) =
                    subst (λ (y : Result Ref). Adds text seen s (y, u)) q added in
                  then_rest (length rest) s.tree c u (add_candidates p cfg r (text ∷ seen) rest)
                    listed (add_candidates-Grows (text ∷ seen) rest u ready'))
                (λ x q. subst (λ (y : Result Ref). Adds text seen s (y, u)) q added))
      ]

-- In a well-formed tree in which the children of each node have distinct texts, none of them
-- blank, `_expand` keeps all of that, also where it raises; the nodes that it returns are the new
-- children at the end of the list of its node, at most `branching_factor` of them.
pub expand-Grows :
    {W : Type 0} (p : Policies W) (cfg : SearchConfig) (r : Ref) (s : Run W)
    → IsWellFormed s.tree
    → r < s.tree.size
    → AllSiblings s.tree
    → Grows cfg.branching_factor s.tree r (expand p cfg r s)
unfolding expand policy_call
expand-Grows p cfg r s h lt siblings =
    let k = cfg.branching_factor in
    bind_rule (Grows k s.tree r) (policy_call (p.generate s.tree r k)) _ s
      (λ candidates q.
        more p cfg r s.tree (length (take k candidates)) k _ (length-take_le k candidates) (
          add_candidates-Grows p cfg r (child_contents s.tree r) (take k candidates) _ (record {
            fits = h;
            inside = lt;
            siblings = siblings;
            known = λ x m. mem_text-Memᴰ x (child_contents s.tree r) m;
          })))
      (λ e q. (h, lt, siblings))
