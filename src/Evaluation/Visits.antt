-- ===== src/Evaluation/Visits.antt =====
-- What `_backpropagate` does to the nodes.
use cognitive_tree_ai.Prelude.{
  ℕ, suc, length, ◌+◌, ◌<◌, ◌≡◌, ◌∙◌, ◌⊎◌, inl, inr, refl, sym, ap, Bool, true, false, ◌||◌, ◌==◌,
  ==_iff, Bool-cases, if◌then◌else◌, All, All-map, arith, Float, FloatOps, List, [], ◌∷◌,
}
use cognitive_tree_ai.Node.{Node, Ref, record_visit}
use cognitive_tree_ai.Tree.{Tree, modify, path_from_root}
use cognitive_tree_ai.Tree.Updates.{
  cell-modify_self, cell-modify_ne, SameShape, SameShape-refl, SameShape-trans, modify-SameShape,
  record_visit-SameLinks,
}
use cognitive_tree_ai.Tree.WellFormed.{IsWellFormed, IsWellFormed-shape}
use cognitive_tree_ai.Tree.Paths.{Rises, path_from_root-Rises, path_from_root-same}
use cognitive_tree_ai.Evaluation.{record_visits, backpropagate}

pub record_visits-SameShape :
    (ops : FloatOps) (v : Float) (path : List Ref) (t : Tree)
    → SameShape t (record_visits ops v path t)
unfolding record_visits
record_visits-SameShape ops v [] t = SameShape-refl t
record_visits-SameShape ops v (r ∷ path) t =
    SameShape-trans (modify-SameShape r _ t (record_visit-SameLinks ops v (t.cell r)))
      (record_visits-SameShape ops v path _)

pub backpropagate-SameShape :
    (ops : FloatOps) (valued : List (Ref × Float)) (t : Tree)
    → SameShape t (backpropagate ops valued t)
unfolding backpropagate
backpropagate-SameShape ops [] t = SameShape-refl t
backpropagate-SameShape ops ((c, v) ∷ valued) t =
    SameShape-trans (record_visits-SameShape ops v (path_from_root t c) t)
      (backpropagate-SameShape ops valued _)

pub member : Ref → List Ref → Bool
member x [] = false
member x (r ∷ path) = (x == r) || member x path

-- The values of the entries whose path passes through `x`, in order.
pub credited : Tree → Ref → List (Ref × Float) → List Float
unfolding member
credited t x [] = []
credited t x ((c, v) ∷ valued) =
    if member x (path_from_root t c) then v ∷ credited t x valued else credited t x valued

-- A sum with the values added to it one after the other.
pub summed : FloatOps → List Float → Float → Float
summed ops [] x = x
summed ops (v ∷ vs) x = summed ops vs (ops.add x v)

-- One visit for each value, which is added to the sum; nothing else changes.
pub credit : FloatOps → List Float → Node → Node
unfolding summed
credit ops vs n = record n { visits = n.visits + length vs; value_sum = summed ops vs n.value_sum }

credit-record_visit :
    (ops : FloatOps) (v : Float) (vs : List Float) (n : Node)
    → credit ops vs (record_visit ops v n) ≡ credit ops (v ∷ vs) n
unfolding credit summed record_visit
credit-record_visit ops v vs n =
    ap (λ k. record n { visits = k; value_sum = summed ops vs (ops.add n.value_sum v) })
      (omega arith)

credit_nothing : (ops : FloatOps) (n : Node) → n ≡ credit ops [] n
unfolding credit summed
credit_nothing ops n = ap (λ k. record n { visits = k }) (omega arith)

member-below : (x low : ℕ) (path : List Ref) → x < low → Rises low path → member x path ≡ false
unfolding member
member-below x low [] lt h = refl
member-below x low (r ∷ path) lt (le, h) =
    rw (member-below x (suc r) path (omega arith) h) (ground arith)

record_visits-cell :
    (ops : FloatOps) (v : Float) (low : ℕ) (path : List Ref) (t : Tree) (x : Ref)
    → Rises low path
    → (record_visits ops v path t).cell x
      ≡ (if member x path then record_visit ops v (t.cell x) else t.cell x)
unfolding record_visits member
record_visits-cell ops v low [] t x h = refl
record_visits-cell ops v low (r ∷ path) t x (le, h) = elim (Bool-cases (x == r)) [
  | inl e ↦
      let q : x ≡ r = (==_iff x r).0 e in
      record_visits-cell ops v (suc r) path (modify r (record_visit ops v) t) x h
      ∙ rw (e, member-below x (suc r) path (omega arith) h)
          (ap (λ y. (modify r (record_visit ops v) t).cell y) q
            ∙ cell-modify_self r (record_visit ops v) t
            ∙ ap (λ y. record_visit ops v (t.cell y)) (sym q))
  | inr ne ↦
      let other : (modify r (record_visit ops v) t).cell x ≡ t.cell x =
        cell-modify_ne r x (record_visit ops v) t (λ q. cc ((==_iff x r).1 q)) in
      record_visits-cell ops v (suc r) path (modify r (record_visit ops v) t) x h
      ∙ rw (ne, other) refl
]

credited-same :
    (t u : Tree) (x : Ref) (valued : List (Ref × Float))
    → SameShape t u
    → credited u x valued ≡ credited t x valued
unfolding credited
credited-same t u x [] h = refl
credited-same t u x ((c, v) ∷ valued) h =
    rw (credited-same t u x valued h, path_from_root-same t u c (λ y. (h.cells y).parent)) refl

-- In a well-formed tree `_backpropagate` gives each node one visit for every child of the batch
-- whose path from the root passes through it, with the values of those children added in order; it
-- changes nothing else of a node, and no other node.
pub backpropagate-credit :
    (ops : FloatOps) (valued : List (Ref × Float)) (t : Tree) (x : Ref)
    → IsWellFormed t
    → All (λ (e : Ref × Float). e.0 < t.size) valued
    → (backpropagate ops valued t).cell x ≡ credit ops (credited t x valued) (t.cell x)
unfolding backpropagate credited credit
backpropagate-credit ops [] t x h b = credit_nothing ops (t.cell x)
backpropagate-credit ops ((c, v) ∷ valued) t x h (lt, b) =
    let path = path_from_root t c in
    let u = record_visits ops v path t in
    let same = record_visits-SameShape ops v path t in
    backpropagate-credit ops valued u x (IsWellFormed-shape same h)
      (All-map _ _ valued (λ e q. omega (arith, same.size)) b)
    ∙ rw (credited-same t u x valued same) (branch (Bool-cases (member x path)))
  where
    visited :
        (record_visits ops v (path_from_root t c) t).cell x
        ≡ (if member x (path_from_root t c) then record_visit ops v (t.cell x) else t.cell x)
    visited =
        record_visits-cell ops v t.root (path_from_root t c) t x (path_from_root-Rises t c h lt)

    branch :
        (member x (path_from_root t c) ≡ true) ⊎ (member x (path_from_root t c) ≡ false)
        → credit ops (credited t x valued) ((record_visits ops v (path_from_root t c) t).cell x)
          ≡ credit ops
              (if member x (path_from_root t c)
                then v ∷ credited t x valued
                else credited t x valued)
              (t.cell x)
    branch (inl e) = rw (visited, e) (credit-record_visit ops v (credited t x valued) (t.cell x))
    branch (inr e) = rw (visited, e) refl
