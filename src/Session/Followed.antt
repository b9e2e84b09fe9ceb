-- ===== src/Session/Followed.antt =====
-- What the statements of a streamed run do to its queue (cognitivetree/session.py and search.py).
use cognitive_tree_ai.Prelude.{◌≡◌, refl, subst, arith, Float, Text, Bool, Option, none, some, List}
use cognitive_tree_ai.Faults.{ok}
use cognitive_tree_ai.Node.{Ref}
use cognitive_tree_ai.Tree.Updates.{prune_subtree-SameShape}
use cognitive_tree_ai.Config.{SearchConfig}
use cognitive_tree_ai.Exec.{Run, Exec, ◌>>=◌, bind_rule}
use cognitive_tree_ai.Exec.Keeps.{Keeps}
use cognitive_tree_ai.Selection.{prune, select}
use cognitive_tree_ai.Selection.Control.{select-Keeps}
use cognitive_tree_ai.Selection.Selects.{Selects, select-Selects}
use cognitive_tree_ai.Expansion.{expand}
use cognitive_tree_ai.Expansion.Control.{expand-Keeps}
use cognitive_tree_ai.Expansion.Grown.{expand-Extending}
use cognitive_tree_ai.Evaluation.{evaluate}
use cognitive_tree_ai.Evaluation.Kept.{evaluate-Keeps}
use cognitive_tree_ai.Evaluation.Control.{evaluate-Calm, any_Evaluators}
use cognitive_tree_ai.Evaluation.Visits.{backpropagate-SameShape}
use cognitive_tree_ai.Search.{propagate}
use cognitive_tree_ai.Search.Kept.{Driven}
use cognitive_tree_ai.Search.Recorded.{any_revise}
use cognitive_tree_ai.Session.{ReasoningSession, Stage, beside, streamed}
use cognitive_tree_ai.Session.Untouched.{
  Follows, Follows-order, SameQueue, Good, reshaped, later, streamed-Closed, advance-Follows,
  call_of,
}

module _ {W : Type 0} (session : ReasoningSession W) where
  module _ (cfg : SearchConfig) where
    evaluate-Follows :
        (r : Ref) (cs : List Ref) → Keeps (Follows session r) (evaluate (streamed session) cfg cs)
    evaluate-Follows r cs = record {
      at = λ s h.
          reshaped session s _
            ((evaluate-Keeps (SameQueue session) (streamed session) (streamed-Closed session) cfg
                cs).at
              s)
            ((evaluate-Calm (streamed session) cfg (λ e. Unit {0})
                (any_Evaluators (streamed session)) cs).at
              s).shape
            h h.inside;
    }

    expand-Follows : (r : Ref) → Keeps (Follows session r) (expand (streamed session) cfg r)
    expand-Follows r = record {
      at = λ s h.
          let g = (expand-Extending (streamed session) cfg r).at s h.fits h.inside in
          later session s _
            ((expand-Keeps (SameQueue session) (streamed session) (streamed-Closed session) cfg
                r).at
              s)
            h g.fits g.inside g.earlier;
    }

    prune-Follows : (r : Ref) → Keeps (Follows session r) (prune r)
    unfolding prune
    prune-Follows r = record {
      at = λ s h.
          reshaped session s _ (record { queue = refl; history = refl })
            (prune_subtree-SameShape r s.tree) h h.inside;
    }

    propagate-Follows :
        (r : Ref) (valued : List (Ref × Float))
        → Keeps (Follows session r) (propagate (streamed session) valued)
    unfolding propagate
    propagate-Follows r valued = record {
      at = λ s h.
          reshaped session s _ (record { queue = refl; history = refl })
            (backpropagate-SameShape _ valued s.tree) h h.inside;
    }

    -- After a selection the run works at the node that was selected.
    select_then-Follows :
        (f : Option Ref × List Text → Exec (Stage W) Bool)
        → ((revived : List Text) → Keeps (Follows session 0) (f (none, revived)))
        → ((r : Ref) (revived : List Text) → Keeps (Follows session r) (f (some r, revived)))
        → Keeps (Follows session 0) (select (streamed session) cfg >>= f)
    select_then-Follows f stop work = record {
      at = λ s h.
          bind_rule (λ y. Good session 0 y.1) (select (streamed session) cfg) f s (selected s h)
            (λ e i.
              reshaped session s _ (quiet s)
                (subst
                  (λ y. Selects cfg (λ e. Unit {0}) s.tree (y, (select (streamed session) cfg s).1))
                  i (selects s h)).0
                h h.inside);
    }
      where
        quiet : (s : Run (Stage W)) → SameQueue session s (select (streamed session) cfg s).1
        quiet =
            (select-Keeps (SameQueue session) (streamed session) (streamed-Closed session) cfg).at

        selects :
            (s : Run (Stage W))
            → Good session 0 s
            → Selects cfg (λ e. Unit {0}) s.tree (select (streamed session) cfg s)
        selects s h =
            select-Selects (streamed session) cfg (λ e. Unit {0}) s
              (any_revise (streamed session) (streamed session).revise) h.fits

        selected :
            (s : Run (Stage W))
            → Good session 0 s
            → (a : Option Ref × List Text) → (select (streamed session) cfg s).0 ≡ ok a
            → Good session 0 (f a (select (streamed session) cfg s).1).1
        selected s h (none, ids) e =
            let u = (select (streamed session) cfg s).1 in
            let same = subst (λ y. Selects cfg (λ e. Unit {0}) s.tree (y, u)) e (selects s h) in
            (stop ids).at u (reshaped session s u (quiet s) same.0 h h.inside)
        selected s h (some r, ids) e =
            let u = (select (streamed session) cfg s).1 in
            let (same, ready) =
              subst (λ y. Selects cfg (λ e. Unit {0}) s.tree (y, u)) e (selects s h) in
            let end =
              (work r ids).at u
                (reshaped session s u (quiet s) same h (omega (arith, ready.inside, same.size))) in
            record { fits = end.fits; inside = end.fits.inhabited; queued = end.queued }

    pub streamed-Driven : Driven (Follows session) (streamed session) cfg
    unfolding streamed beside
    streamed-Driven = record {
      order = Follows-order session;
      advance = advance-Follows session;
      count = λ r s n h. record { fits = h.fits; inside = h.inside; queued = h.queued };
      monotonic = λ r s h. record { fits = h.fits; inside = h.inside; queued = h.queued };
      check = λ r. call_of session r session.p.check;
      cancelled = λ r. call_of session r session.p.cancelled;
      prune = prune-Follows;
      propagate = propagate-Follows;
      evaluate = evaluate-Follows;
      expand = expand-Follows;
      select_then = select_then-Follows;
    }
