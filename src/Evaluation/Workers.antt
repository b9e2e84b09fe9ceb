-- ===== src/Evaluation/Workers.antt =====
-- The workers of an evaluation keep the control state and the links, and their faults are known.
use cognitive_tree_ai.Prelude.{
  Float, Bool-cases, inl, inr, Option, List, [], ◌∷◌, leb, min, length, refl, sym, ◌≡◌, ◌∙◌, ap,
  subst, All, ◌==◌,
}
use cognitive_tree_ai.Faults.{Fault, Result, ok, raise, fault_of, Result-cases}
use cognitive_tree_ai.Node.{Ref, Critique}
use cognitive_tree_ai.Tree.{Tree}
use cognitive_tree_ai.Config.{SearchConfig}
use cognitive_tree_ai.Policies.{Policies, Evaluation}
use cognitive_tree_ai.Exec.{Run}
use cognitive_tree_ai.Exec.Calm.{
  Calm, Steady, Steady-refl, Steady-trans, OnSome, Calm-bind, Calm-pure, Calm-world_call,
  Calm-node_call,
}
use cognitive_tree_ai.Evaluation.{
  evaluate_one, in_sequence, carry_out, pooled, in_pool, collect_verdicts, Slot, slot_of, gather,
}

-- `E` holds of the faults that the policies of an evaluation may raise, and of those of a batch.
pub record Evaluators {W : Type 0} (E : Fault → Type 0) (p : Policies W) : Type 0 where
  pub evaluate : (t : Tree) (r : Ref) (w : W) (e : Fault) → (p.evaluate t r w).0 ≡ raise e → E e
  pub critique :
      OnSome
        (λ f. (t : Tree) (r : Ref) (w : W) (e : Fault) → (f t r w).0 ≡ raise e → E e)
        p.critique
  pub shape :
      OnSome
        (λ f.
          (t : Tree) (r : Ref) (x : Float) (k : Option Critique) (w : W) (e : Fault)
          → (f t r x k w).0 ≡ raise e
          → E e)
        p.shape
  pub key_error : E Fault.key_error
  pub value_error : E Fault.value_error

module _ {W : Type 0} (p : Policies W) (cfg : SearchConfig) (E : Fault → Type 0)
    (known : Evaluators E p) where
  evaluate_one-Calm : (c : Ref) → Calm E (evaluate_one p cfg c)
  unfolding evaluate_one
  evaluate_one-Calm c = record {
    at = λ s. (Calm-node_call E c (p.evaluate s.tree c) (known.evaluate s.tree c)).at s;
    faults = λ s. (Calm-node_call E c (p.evaluate s.tree c) (known.evaluate s.tree c)).faults s;
  }

  in_sequence-Calm : (cs : List Ref) → Calm E (in_sequence p cfg cs)
  unfolding in_sequence
  in_sequence-Calm [] = Calm-pure E []
  in_sequence-Calm (c ∷ cs) =
      Calm-bind E _ _ (evaluate_one-Calm c)
        λ v. Calm-bind E _ _ (in_sequence-Calm cs) λ vs. Calm-pure E _

  carry_out-Steady : (cs : List Ref) (s : Run W) → Steady s (carry_out p cfg cs s).1
  unfolding carry_out
  carry_out-Steady [] s = Steady-refl s
  carry_out-Steady (c ∷ cs) s =
      Steady-trans s (evaluate_one p cfg c s).1 _ ((evaluate_one-Calm c).at s)
        (carry_out-Steady cs (evaluate_one p cfg c s).1)

  -- Each slot holds what an evaluation answered.
  abbrev Answers : List Slot → Type 0
  Answers slots = All (λ (x : Slot). (e : Fault) → x.1 ≡ raise e → E e) slots

  carry_out-Answers : (cs : List Ref) (s : Run W) → Answers (carry_out p cfg cs s).0
  unfolding carry_out
  carry_out-Answers [] s = tt
  carry_out-Answers (c ∷ cs) s =
      ((evaluate_one-Calm c).faults s, carry_out-Answers cs (evaluate_one p cfg c s).1)

  slot_of-faults :
      (c : Ref) (slots : List Slot) (e : Fault) → Answers slots → slot_of c slots ≡ raise e → E e
  unfolding slot_of
  slot_of-faults c [] e h q = subst E (fault_of q) known.key_error
  slot_of-faults c ((r, v) ∷ slots) e (a, h) q = elim (Bool-cases (r == c)) [
    | inl same ↦ a e (rw same at q)
    | inr other ↦ slot_of-faults c slots e h (rw other at q)
  ]

  gather-faults :
      (slots : List Slot) (cs : List Ref) (e : Fault)
      → Answers slots
      → gather slots cs ≡ raise e
      → E e
  unfolding gather
  gather-faults slots [] e h q = cc
  gather-faults slots (c ∷ cs) e h q = elim (Result-cases (slot_of c slots)) [
    | inr (x, bad) ↦ slot_of-faults c slots e h (bad ∙ ap raise (fault_of (sym (first x bad) ∙ q)))
    | inl (v, good) ↦ elim (Result-cases (gather slots cs)) [
      | inr (x, bad) ↦
          gather-faults slots cs e h (bad ∙ ap raise (fault_of (sym (later v x good bad) ∙ q)))
      | inl (vs, fine) ↦ absurd (no_fault (sym (all v vs good fine) ∙ q))
    ]
  ]
    where
      first : (x : Fault) → slot_of c slots ≡ raise x → gather slots (c ∷ cs) ≡ raise x
      first x b = rw (b, gather) refl

      later :
          (v : Evaluation) (x : Fault)
          → slot_of c slots ≡ ok v
          → gather slots cs ≡ raise x
          → gather slots (c ∷ cs) ≡ raise x
      later v x g b = rw (g, b, gather) refl

      all :
          (v : Evaluation) (vs : List Evaluation)
          → slot_of c slots ≡ ok v
          → gather slots cs ≡ ok vs
          → gather slots (c ∷ cs) ≡ ok (v ∷ vs)
      all v vs g b = rw (g, b, gather) refl

      no_fault : {vs : List Evaluation} → ¬ (◌≡◌ {A = Result (List Evaluation)} (ok vs) (raise e))
      no_fault q = cc

  pooled-Calm : (cs order : List Ref) → Calm E (pooled p cfg cs order)
  unfolding pooled
  pooled-Calm cs order = record {
    at = carry_out-Steady order;
    faults = λ s e q. gather-faults (carry_out p cfg order s).0 cs e (carry_out-Answers order s) q;
  }

  pub collect_verdicts-Calm : (cs : List Ref) → Calm E (collect_verdicts p cfg cs)
  unfolding collect_verdicts in_pool
  collect_verdicts-Calm cs = elim (Bool-cases (leb (min cfg.evaluation_workers (length cs)) 1)) [
    | inl e ↦ rw e (in_sequence-Calm cs)
    | inr e ↦ rw e (Calm-bind E _ _ (Calm-world_call E (p.pool_order cs)) (pooled-Calm cs))
  ]
