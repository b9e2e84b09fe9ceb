-- ===== src/Evaluation/Order.antt =====
-- The verdicts of a pool of workers are those of a single worker.
use cognitive_tree_ai.Prelude.{
  ◌≡◌, ◌∙◌, inl, inr, refl, sym, ap, false, List, [], ◌∷◌, ◌==◌, ==_iff, Bool-cases, leb, min,
  length,
}
use mathlib.Core.List.{Memᴰ}
use cognitive_tree_ai.Faults.{Result, ok, raise, Result-cases}
use cognitive_tree_ai.Node.{Ref}
use cognitive_tree_ai.Tree.{Tree}
use cognitive_tree_ai.Config.{SearchConfig}
use cognitive_tree_ai.Policies.{Policies, Evaluation}
use cognitive_tree_ai.Exec.{Run, pure, world_call, node_call, ◌>>=◌, bind_rule}
use cognitive_tree_ai.Evaluation.{
  slot_of, gather, evaluate_one, in_sequence, carry_out, pooled, in_pool, collect_verdicts,
}

-- The verdicts of the children in order, up to the first that fails.
pub in_order : (Ref → Result Evaluation) → List Ref → Result (List Evaluation)
in_order verdict [] = ok []
in_order verdict (c ∷ cs) = elim (verdict c) [
  | raise e ↦ raise e
  | ok v ↦ elim (in_order verdict cs) [ raise e ↦ raise e | ok vs ↦ ok (v ∷ vs) ]
]

-- The order that a pool may take: each child was carried out up to the first that failed.
unfoldable pub CoversUpTo : (Ref → Result Evaluation) → List Ref → List Ref → Type 0
CoversUpTo verdict [] order = Unit
CoversUpTo verdict (c ∷ cs) order =
    Memᴰ c order × ((v : Evaluation) → verdict c ≡ ok v → CoversUpTo verdict cs order)

module _ {W : Type 0} (p : Policies W) (cfg : SearchConfig) (verdict : Ref → Result Evaluation)
    (steady : (t : Tree) (c : Ref) (w : W) → (p.evaluate t c w).0 ≡ verdict c) where
  evaluate_one-verdict : (c : Ref) (s : Run W) → (evaluate_one p cfg c s).0 ≡ verdict c
  unfolding evaluate_one node_call
  evaluate_one-verdict c s = steady s.tree c s.world

  slot_of-verdict :
      (c : Ref) (order : List Ref) (s : Run W)
      → Memᴰ c order
      → slot_of c (carry_out p cfg order s).0 ≡ verdict c
  unfolding slot_of carry_out
  slot_of-verdict c [] s m = elim m [ ]
  slot_of-verdict c (r ∷ order) s m = elim (Bool-cases (r == c)) [
    | inl e ↦ rw e (evaluate_one-verdict r s ∙ ap verdict ((==_iff r c).0 e))
    | inr ne ↦ rw ne (slot_of-verdict c order (evaluate_one p cfg r s).1 (later ne m))
  ]
    where
      later : (r == c) ≡ false → Memᴰ c (r ∷ order) → Memᴰ c order
      later ne (Memᴰ.head e) = absurd (cc (ne, (==_iff r c).1 (sym e)))
      later ne (Memᴰ.tail k) = k

  gather-in_order :
      (cs order : List Ref) (s : Run W)
      → CoversUpTo verdict cs order
      → gather (carry_out p cfg order s).0 cs ≡ in_order verdict cs
  unfolding gather in_order CoversUpTo
  gather-in_order [] order s h = refl
  gather-in_order (c ∷ cs) order s (m, h) =
      let slot = slot_of-verdict c order s m in
      elim (Result-cases (verdict c)) [
        | inr (e, q) ↦ rw (slot, gather) (rw (q, in_order) refl)
        | inl (v, q) ↦ rw (slot, gather) (rw (q, in_order, gather-in_order cs order s (h v q)) refl)
      ]

  in_sequence-in_order :
      (cs : List Ref) (s : Run W) → (in_sequence p cfg cs s).0 ≡ in_order verdict cs
  unfolding in_sequence in_order pure
  in_sequence-in_order [] s = refl
  in_sequence-in_order (c ∷ cs) s =
      bind_rule Same (evaluate_one p cfg c) _ s
        (λ v q.
          let is : verdict c ≡ ok v = sym (evaluate_one-verdict c s) ∙ q in
          let u = (evaluate_one p cfg c s).1 in
          bind_rule Same (in_sequence p cfg cs) _ u
            (λ vs i. sym (rw (is, in_order, sym (in_sequence-in_order cs u) ∙ i) refl))
            (λ e i. sym (rw (is, in_order, sym (in_sequence-in_order cs u) ∙ i) refl)))
        (λ e q. sym (rw (sym (evaluate_one-verdict c s) ∙ q, in_order) refl))
    where
      Same : Result (List Evaluation) × Run W → Type 0
      Same x = x.0 ≡ in_order verdict (c ∷ cs)

  -- Whatever the number of workers, `_collect_verdicts` returns the verdicts in the order of the
  -- candidates, or raises the failure of the first candidate that fails, if the evaluator's answer
  -- depends on the candidate alone and the pool carries out each candidate up to that one.
  pub collect_verdicts-in_order :
      (children : List Ref) (s : Run W)
      → CoversUpTo verdict children (p.pool_order children s.world).0
      → (collect_verdicts p cfg children s).0 ≡ in_order verdict children
  unfolding collect_verdicts in_pool pooled ◌>>=◌ world_call
  collect_verdicts-in_order children s h =
      elim (Bool-cases (leb (min cfg.evaluation_workers (length children)) 1)) [
        | inl e ↦ rw (e, collect_verdicts) (in_sequence-in_order children s)
        | inr e ↦
            rw (e, collect_verdicts)
              (gather-in_order children (p.pool_order children s.world).0 _ h)
      ]
