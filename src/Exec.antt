-- ===== src/Exec.antt =====
-- Statements of the controller: they change the state of a run and may raise. What was written
-- before a raise stays written, so the state comes back beside the fault too.
pub mod Keeps
pub mod Calm
pub mod Closed
use cognitive_tree_ai.Prelude.{ℕ, ◌≡◌, refl, Text}
use cognitive_tree_ai.Faults.{Fault, Result, ok, raise}
use cognitive_tree_ai.State.{Machine}
use cognitive_tree_ai.Node.{Node, Metadata, Ref}
use cognitive_tree_ai.Tree.{Tree, modify}

-- The local variables of `run` that outlive an exception.
pub record Run (W : Type 0) : Type 0 where
  pub tree : Tree
  pub machine : Machine
  pub world : W
  pub iteration : ℕ

abbrev pub Exec : Type 0 → Type 0 → Type 0
Exec W A = Run W → Result A × Run W

module _ {W A : Type 0} where
  unfoldable pub pure : A → Exec W A
  pure a s = (ok a, s)

  unfoldable pub throw : Fault → Exec W A
  throw e s = (raise e, s)

  -- A call that changes the world only.
  unfoldable pub world_call : (W → A × W) → Exec W A
  world_call f s = let (a, w) = f s.world in (ok a, record s { world = w })

  unfoldable pub policy_call : (W → Result A × W) → Exec W A
  policy_call f s = let (r, w) = f s.world in (r, record s { world = w })

  -- A call that also writes the metadata of the node at `r`.
  unfoldable pub node_call : Ref → (W → Result A × Metadata × W) → Exec W A
  unfolding modify
  node_call r f s =
      let (result, m, w) = f s.world in
      (result, record s { tree = modify r (λ n. record n { metadata = m }) s.tree; world = w })

module _ {W A B : Type 0} where
  abbrev pub continue : Result A → (A → Exec W B) → Exec W B
  continue (ok a) f s = f a s
  continue (raise e) f s = (raise e, s)

  infixl 10 ◌>>=◌ ◌>>◌
  unfoldable pub ◌>>=◌ : Exec W A → (A → Exec W B) → Exec W B
  ◌>>=◌ m f s = let (r, s') = m s in continue r f s'

  abbrev pub ◌>>◌ : Exec W A → Exec W B → Exec W B
  m >> n = m >>= λ _. n

  continue_rule :
      (Q : Result B × Run W → Type 0) (r : Result A) (f : A → Exec W B) (s : Run W)
      → ((a : A) → r ≡ ok a → Q (f a s))
      → ((e : Fault) → r ≡ raise e → Q (raise e, s))
      → Q (continue r f s)
  continue_rule Q (ok a) f s good bad = good a refl
  continue_rule Q (raise e) f s good bad = bad e refl

  -- To prove something of a sequence, prove it of what follows each way the first part ends.
  pub bind_rule :
      (Q : Result B × Run W → Type 0) (m : Exec W A) (f : A → Exec W B) (s : Run W)
      → ((a : A) → (m s).0 ≡ ok a → Q (f a (m s).1))
      → ((e : Fault) → (m s).0 ≡ raise e → Q (raise e, (m s).1))
      → Q ((m >>= f) s)
  unfolding ◌>>=◌
  bind_rule Q m f s good bad = continue_rule Q (m s).0 f (m s).1 good bad
