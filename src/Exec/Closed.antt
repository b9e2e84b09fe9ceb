-- ===== src/Exec/Closed.antt =====
-- Relations between the states of a run that the calls of the policies keep, whatever they write to
-- the tree: what such a relation says then holds of whole parts of the controller.
use cognitive_tree_ai.Prelude.{ℕ, Float, Option, none, some, List, ◌≡◌, refl, sym, subst}
use cognitive_tree_ai.Faults.{Fault, Result}
use cognitive_tree_ai.Node.{Ref, Metadata, Critique}
use cognitive_tree_ai.Tree.{Tree}
use cognitive_tree_ai.Policies.{Policies}
use cognitive_tree_ai.Exec.{Run, Exec, pure, throw, world_call, policy_call, node_call, ◌>>=◌}
use cognitive_tree_ai.Exec.Calm.{OnSome}
use cognitive_tree_ai.Exec.Keeps.{Keeps, IsPreorder, Keeps-bind, SameControl, SameControl-order}

pub record Closed {W : Type 0} (R : Run W → Run W → Type 0) (p : Policies W) : Type 0 where
  pub order : IsPreorder R
  pub trees : (s : Run W) (t : Tree) → R s (record s { tree = t })
  pub generate :
      (t : Tree) (r : Ref) (k : ℕ) (s : Run W)
      → R s (record s { world = (p.generate t r k s.world).1 })
  pub evaluate :
      (t : Tree) (r : Ref) (s : Run W) → R s (record s { world = (p.evaluate t r s.world).2 })
  pub critique :
      OnSome
        (λ f. (t : Tree) (r : Ref) (s : Run W) → R s (record s { world = (f t r s.world).1 }))
        p.critique
  pub revise :
      OnSome
        (λ f. (t : Tree) (r : Ref) (s : Run W) → R s (record s { world = (f t r s.world).2 }))
        p.revise
  pub shape :
      OnSome
        (λ f.
          (t : Tree) (r : Ref) (x : Float) (k : Option Critique) (s : Run W)
          → R s (record s { world = (f t r x k s.world).2 }))
        p.shape
  pub random : (s : Run W) → R s (record s { world = (p.random s.world).1 })
  pub pool_order :
      (rs : List Ref) (s : Run W) → R s (record s { world = (p.pool_order rs s.world).1 })

module _ {W : Type 0} (R : Run W → Run W → Type 0) (p : Policies W) (closed : Closed R p) where
  pub stays : (s : Run W) → R s s
  stays s = closed.order.reflexive s

  pub Keeps-then :
      {A B : Type 0} (m : Exec W A) (f : A → Exec W B)
      → Keeps R m
      → ((a : A) → Keeps R (f a))
      → Keeps R (m >>= f)
  Keeps-then m f = Keeps-bind R closed.order m f

  pub Keeps-pure : {A : Type 0} (a : A) → Keeps R (pure {W = W} a)
  unfolding pure
  Keeps-pure a = record { at = stays }

  pub Keeps-throw : {A : Type 0} (e : Fault) → Keeps R (throw {W = W} {A = A} e)
  unfolding throw
  Keeps-throw e = record { at = stays }

  pub Keeps-world_call :
      {A : Type 0} (f : W → A × W)
      → ((s : Run W) → R s (record s { world = (f s.world).1 }))
      → Keeps R (world_call f)
  unfolding world_call
  Keeps-world_call f h = record { at = h }

  pub Keeps-policy_call :
      {A : Type 0} (f : W → Result A × W)
      → ((s : Run W) → R s (record s { world = (f s.world).1 }))
      → Keeps R (policy_call f)
  unfolding policy_call
  Keeps-policy_call f h = record { at = h }

  pub Keeps-node_call :
      {A : Type 0} (r : Ref) (f : W → Result A × Metadata × W)
      → ((s : Run W) → R s (record s { world = (f s.world).2 }))
      → Keeps R (node_call r f)
  unfolding node_call
  Keeps-node_call r f h = record {
    at = λ s.
        closed.order.transitive s (record s { world = (f s.world).2 }) _ (h s)
          (closed.trees (record s { world = (f s.world).2 }) _);
  }

  -- A statement that writes to the tree alone.
  pub Keeps-tree :
      {A : Type 0} (m : Exec W A) (g : Run W → Tree)
      → ((s : Run W) → (m s).1 ≡ record s { tree = g s })
      → Keeps R m
  Keeps-tree m g e = record { at = λ s. subst (R s) (sym (e s)) (closed.trees s (g s)) }

any_some : {F : Type 0} (P : F → Type 0) (o : Option F) → ((f : F) → P f) → OnSome P o
any_some P none h = tt
any_some P (some f) h = h f

module _ {W : Type 0} where
  -- No call of a policy touches the control state.
  pub SameControl-Closed : (p : Policies W) → Closed SameControl p
  SameControl-Closed p = record {
    order = SameControl-order;
    trees = λ s t. record { machine = refl; iteration = refl };
    generate = λ t r k s. record { machine = refl; iteration = refl };
    evaluate = λ t r s. record { machine = refl; iteration = refl };
    critique = any_some _ p.critique (λ f t r s. record { machine = refl; iteration = refl });
    revise = any_some _ p.revise (λ f t r s. record { machine = refl; iteration = refl });
    shape = any_some _ p.shape (λ f t r x k s. record { machine = refl; iteration = refl });
    random = λ s. record { machine = refl; iteration = refl };
    pool_order = λ rs s. record { machine = refl; iteration = refl };
  }
