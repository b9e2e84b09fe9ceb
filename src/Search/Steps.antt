-- ===== src/Search/Steps.antt =====
-- An iteration keeps the invariant of a run.
use cognitive_tree_ai.Prelude.{
  ◌≡◌, refl, subst, Text, Float, true, false, Option, none, some, List, [], ◌∷◌,
}
use cognitive_tree_ai.Phases.{Phase}
use cognitive_tree_ai.Faults.{Fault, Result, ok, raise, fault_of}
use cognitive_tree_ai.Node.{Ref}
use cognitive_tree_ai.Tree.{Tree}
use cognitive_tree_ai.Tree.Updates.{SameShape, SameShape-refl}
use cognitive_tree_ai.Config.{SearchConfig}
use cognitive_tree_ai.Policies.{Policies}
use cognitive_tree_ai.Exec.{Run, ◌>>=◌, bind_rule}
use cognitive_tree_ai.Selection.{select}
use cognitive_tree_ai.Selection.Control.{select-Quiet}
use cognitive_tree_ai.Selection.Selects.{Selects, select-Selects}
use cognitive_tree_ai.Evaluation.Control.{evaluate-Calm}
use cognitive_tree_ai.Evaluation.Visits.{backpropagate-SameShape}
use cognitive_tree_ai.Search.{
  announce, dead_end, succeed, conclude, propagate, score_batch, grow, work_on, iteration,
  count_iteration,
}
use cognitive_tree_ai.Search.Invariant.{
  Known, Holds, Holds-same, Sound, Sound-bind, Sound-Calm, Sound-pure, Sound-prune,
}
use cognitive_tree_ai.Search.Parts.{advance-Sound, advance_node-Sound, expand-Sound}

module _ {W : Type 0} (p : Policies W) (E : Fault → Type 0) (known : Known E p) (r : Ref) where
  conclude-Sound : (o : Option Ref) → Sound E r (conclude p o)
  unfolding conclude succeed
  conclude-Sound (some c) =
      Sound-bind E r _ _
        (record {
          at = λ s. (advance_node-Sound p E known r Phase.succeeded c _).at s;
          faults = λ s. (advance_node-Sound p E known r Phase.succeeded c _).faults s;
        })
        λ _. Sound-pure E r false
  conclude-Sound none =
      Sound-bind E r _ _ (advance-Sound p E known r Phase.selection none _) λ _. Sound-pure E r true

  dead_end-Sound : (c : Ref) → Sound E r (dead_end p c)
  unfolding dead_end
  dead_end-Sound c = Sound-bind E r _ _ (advance_node-Sound p E known r Phase.backtracking c _) λ _.
      Sound-bind E r _ _ (Sound-prune E r c) λ _.
        Sound-bind E r _ _ (advance-Sound p E known r Phase.selection none _)
          λ _. Sound-pure E r true

  announce-Sound : (c : Ref) (revived : List Text) → Sound E r (announce p c revived)
  unfolding announce
  announce-Sound c [] = Sound-pure E r tt
  announce-Sound c (x ∷ xs) =
      Sound-bind E r _ _ (advance_node-Sound p E known r Phase.backtracking c _) λ _.
        Sound-bind E r _ _ (advance_node-Sound p E known r Phase.selection c _)
          λ _. Sound-pure E r tt

  propagate-Sound : (valued : List (Ref × Float)) → Sound E r (propagate p valued)
  unfolding propagate
  propagate-Sound valued = record {
    at = λ s h. Holds-same (backpropagate-SameShape p.ops valued s.tree) refl h;
    faults = λ s h e q. cc;
  }

  module _ (cfg : SearchConfig) where
    score_batch-Sound : (cs : List Ref) → Sound E r (score_batch p cfg r cs)
    unfolding score_batch
    score_batch-Sound cs =
        Sound-bind E r _ _ (advance_node-Sound p E known r Phase.evaluation r _) λ _.
          Sound-bind E r _ _ (Sound-Calm E r _ (evaluate-Calm p cfg E known.evaluators cs))
            λ result.
              Sound-bind E r _ _ (advance_node-Sound p E known r Phase.backpropagation r _)
                λ _. Sound-bind E r _ _ (propagate-Sound result.1) λ _. conclude-Sound result.0

    grow-Sound : (cs : List Ref) → Sound E r (grow p cfg r cs)
    unfolding grow
    grow-Sound [] = dead_end-Sound r
    grow-Sound (c ∷ cs) = score_batch-Sound (c ∷ cs)

    work_on-Sound : (revived : List Text) → Sound E r (work_on p cfg (some r) revived)
    unfolding work_on
    work_on-Sound revived = Sound-bind E r _ _ (announce-Sound r revived) λ _.
        Sound-bind E r _ _ (advance_node-Sound p E known r Phase.expansion r _)
          λ _. Sound-bind E r _ _ (expand-Sound p E known r cfg) λ children. grow-Sound children

module _ {W : Type 0} (p : Policies W) (E : Fault → Type 0) (known : Known E p)
    (cfg : SearchConfig) where
  -- What is wanted of how an iteration ends.
  abbrev Kept : {A : Type 0} → Result A × Run W → Type 0
  Kept {A} (o, u) = Holds 0 u × ((e : Fault) → o ≡ raise e → E e)

  Holds-selected :
      (t : Tree) (x : Result (Option Ref × List Text)) (u : Run W)
      → Selects cfg E t (x, u)
      → SameShape t u.tree
  Holds-selected t (ok (some r, ids)) u h = h.0
  Holds-selected t (ok (none, ids)) u h = h.0
  Holds-selected t (raise e) u h = h.0

  -- The work of an iteration on what the selection returned.
  work_on-Kept :
      (t : Tree) (o : Option Ref) (ids : List Text) (u : Run W)
      → Selects cfg E t (ok (o, ids), u)
      → Holds 0 u
      → Kept (work_on p cfg o ids u)
  work_on-Kept t (some r) ids u sel h =
      let at_r : Holds r u = record {
        fits = h.fits;
        inside = sel.1.inside;
        siblings = h.siblings;
        replay = h.replay;
      } in
      let work = work_on-Sound p E known r cfg ids in
      let after = work.at u at_r in
      (
        record {
          fits = after.fits;
          inside = after.fits.inhabited;
          siblings = after.siblings;
          replay = after.replay;
        },
        work.faults u at_r,
      )
  work_on-Kept t none ids u sel h =
      let stop = frontier_empty-Sound ids in (stop.at u h, stop.faults u h)
    where
      frontier_empty-Sound : (ids : List Text) → Sound E 0 (work_on p cfg none ids)
      frontier_empty-Sound ids =
          unfold work_on in
          Sound-bind E 0 _ _ (advance-Sound p E known 0 Phase.exhausted none _)
            λ _. Sound-pure E 0 false

  select-Kept :
      (s : Run W)
      → Holds 0 s
      → Kept ((select p cfg >>= λ selected. work_on p cfg selected.0 selected.1) s)
  select-Kept s h =
      let sel = select-Selects p cfg E s known.revise h.fits in
      let u = (select p cfg s).1 in
      let still : Holds 0 u =
        Holds-same (Holds-selected s.tree (select p cfg s).0 u sel)
          ((select-Quiet p cfg).at s).machine h in
      bind_rule Kept (select p cfg) _ s
        (λ x q.
          work_on-Kept s.tree x.0 x.1 u (subst (λ y. Selects cfg E s.tree (y, u)) q sel) still)
        (λ e q.
          (still, λ x i. subst E (fault_of i) (subst (λ y. Selects cfg E s.tree (y, u)) q sel).1))

  count_iteration-Sound : Sound E 0 (count_iteration p)
  unfolding count_iteration
  count_iteration-Sound = record {
    at = λ s h. Holds-same (SameShape-refl s.tree) refl h;
    faults = λ s h e q. cc;
  }

  pub iteration-Sound : Sound E 0 (iteration p cfg)
  unfolding iteration
  iteration-Sound =
      Sound-bind E 0 _ _ count_iteration-Sound
        λ _. record { at = λ s h. (select-Kept s h).0; faults = λ s h. (select-Kept s h).1 }
