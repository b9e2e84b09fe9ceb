-- ===== src/Search/Sound.antt =====
-- A run keeps its tree well-formed, its siblings distinct and its history replayable, and no loop
-- of it runs out of rounds.
use cognitive_tree_ai.Prelude.{
  ℕ, zero, suc, ◌≡◌, refl, ap, subst, Text, Float, Bool, true, false, Option, none, some, arith,
  inl, inr,
}
use cognitive_tree_ai.Phases.{Phase}
use cognitive_tree_ai.Faults.{Note, Fault, Result, ok, raise, fault_of, Result-cases}
use cognitive_tree_ai.Tree.Updates.{SameShape-refl}
use cognitive_tree_ai.Tree.WellFormed.{IsWellFormed}
use cognitive_tree_ai.Config.{SearchConfig}
use cognitive_tree_ai.Policies.{Policies}
use cognitive_tree_ai.Exec.{Run, Exec, pure, ◌>>=◌, bind_rule}
use cognitive_tree_ai.Expansion.Siblings.{AllSiblings}
use cognitive_tree_ai.Search.{advance}
use cognitive_tree_ai.Search.Invariant.{Known, Holds, Holds-same, Sound, Sound-bind, Sound-pure}
use cognitive_tree_ai.Search.Parts.{advance-Sound}
use cognitive_tree_ai.Search.Steps.{iteration-Sound}
use cognitive_tree_ai.State.Trace.{Trace, new-IsReplayable}
use cognitive_tree_ai.Tree.{new_tree}
use cognitive_tree_ai.Tree.Growth.{new_tree-IsWellFormed}
use cognitive_tree_ai.Search.{
  SearchResult, boundary, rescue, guarded, close_if, close, report, attempt, proceed, loop,
  deadline_from, deadline_of, start, run_from, run, outcome_by_phase,
}
use cognitive_tree_ai.State.{is_terminal}
use cognitive_tree_ai.Search.Limits.{boundary-Sound}

-- `E` holds of a fault that is reported.
abbrev pub Reports : (Fault → Type 0) → Option Fault → Type 0
Reports E o = (e : Fault) → o ≡ some e → E e

-- What a run returns: a well-formed tree with distinct siblings, a history that is a walk from the
-- idle phase to the phase of the outcome, and no error but one that `E` holds of.
abbrev pub Sane : {W : Type 0} → (Fault → Type 0) → Result SearchResult × Run W → Type 0
Sane E (ok r, u) =
    IsWellFormed r.tree
    × AllSiblings r.tree
    × ((q : Phase) × Trace Phase.idle r.phase_history q × (outcome_by_phase q ≡ ok r.outcome))
    × Reports E r.error
Sane E (raise e, u) = E e

module _ {W : Type 0} (p : Policies W) (E : Fault → Type 0) (known : Known E p) where
  module _ (cfg : SearchConfig) where
    attempt-Sound : (b : Bool) → Sound E 0 (attempt p cfg b)
    unfolding attempt
    attempt-Sound true = iteration-Sound p E known cfg
    attempt-Sound false = Sound-pure E 0 false

    proceed-Sound :
        (rest : Exec W (Unit {0})) (b : Bool) → Sound E 0 rest → Sound E 0 (proceed p cfg rest b)
    unfolding proceed
    proceed-Sound rest true h = h
    proceed-Sound rest false h = Sound-pure E 0 tt

    round-Sound :
        (rest : Exec W (Unit {0})) (deadline : Option Float) (l : Float)
        → Sound E 0 rest
        → Sound E 0 (boundary p deadline l >>= λ go. attempt p cfg go >>= proceed p cfg rest)
    round-Sound rest deadline l h =
        Sound-bind E 0 _ _ (boundary-Sound p E known deadline l)
          λ go. Sound-bind E 0 _ _ (attempt-Sound go) λ again. proceed-Sound rest again h

    loop-Sound : (n : ℕ) (deadline : Option Float) (l : Float) → Sound E 0 (loop p cfg n deadline l)
    unfolding loop
    loop-Sound zero deadline l = record { at = λ s h. h; faults = λ s h e q. cc }
    loop-Sound (suc n) deadline l =
        let round = round-Sound (loop p cfg n deadline l) deadline l (loop-Sound n deadline l) in
        record { at = λ s. round.at s; faults = λ s. round.faults s }

  abbrev Guards : Result (Option Fault) × Run W → Type 0
  Guards (ok o, u) = Holds 0 u × Reports E o
  Guards (raise e, u) = E e

  rescue-Guards :
      (r : Result (Unit {0})) (t : Run W)
      → Holds 0 t
      → ((e : Fault) → r ≡ raise e → E e)
      → Guards (rescue p r t)
  unfolding rescue pure
  rescue-Guards (ok u) t h k = (h, λ e q. cc)
  rescue-Guards (raise e) t h k =
      let failing = advance-Sound p E known 0 Phase.failed none (Note.fault e) in
      bind_rule Guards (advance p Phase.failed none (Note.fault e)) _ t
        (λ u q. (failing.at t h, λ x i. k x (ap raise (cc)))) (λ x q. failing.faults t h x q)

  close-Sound : Sound E 0 (close p)
  unfolding close
  close-Sound = record {
    at = λ s. (closing (is_terminal s.machine)).at s;
    faults = λ s. (closing (is_terminal s.machine)).faults s;
  }
    where
      closing : (b : Bool) → Sound E 0 (close_if p b)
      closing true = unfold close_if in Sound-pure E 0 tt
      closing false = unfold close_if in advance-Sound p E known 0 Phase.exhausted none _

  outcome-faults : (q : Phase) (e : Fault) → outcome_by_phase q ≡ raise e → E e
  unfolding outcome_by_phase
  outcome-faults Phase.idle e h = subst E (fault_of h) known.evaluators.key_error
  outcome-faults Phase.selection e h = subst E (fault_of h) known.evaluators.key_error
  outcome-faults Phase.expansion e h = subst E (fault_of h) known.evaluators.key_error
  outcome-faults Phase.evaluation e h = subst E (fault_of h) known.evaluators.key_error
  outcome-faults Phase.backpropagation e h = subst E (fault_of h) known.evaluators.key_error
  outcome-faults Phase.backtracking e h = subst E (fault_of h) known.evaluators.key_error
  outcome-faults Phase.succeeded e h = cc
  outcome-faults _ e h = cc

  report-Sane : (o : Option Fault) (u : Run W) → Holds 0 u → Reports E o → Sane E (report p o u)
  unfolding report
  report-Sane o u h k = elim (Result-cases (outcome_by_phase u.machine.phase)) [
    | inl (x, e) ↦ rw (e, report) (h.fits, h.siblings, (u.machine.phase, h.replay, e), k)
    | inr (x, e) ↦ rw (e, report) (outcome-faults u.machine.phase x e)
  ]

  deadline_from-Sound : (cfg : SearchConfig) (o : Option Float) → Sound E 0 (deadline_from p cfg o)
  unfolding deadline_from
  deadline_from-Sound cfg none = record { at = λ s h. h; faults = λ s h e q. cc }
  deadline_from-Sound cfg (some x) = record {
    at = λ s h. Holds-same (SameShape-refl s.tree) refl h;
    faults = λ s h e q. cc;
  }

  close_then_report :
      (o : Option Fault) (u : Run W)
      → Holds 0 u
      → Reports E o
      → Sane E ((close p >>= λ _. report p o) u)
  close_then_report o u h k =
      bind_rule (Sane E) (close p) (λ _. report p o) u
        (λ _ q. report-Sane o (close p u).1 (close-Sound.at u h) k)
        (λ e q. close-Sound.faults u h e q)

  guarded-Sane :
      (body : Exec W (Unit {0})) (u : Run W)
      → Sound E 0 body
      → Holds 0 u
      → Sane E ((guarded p body >>= λ error. close p >>= λ _. report p error) u)
  guarded-Sane body u sound h =
      let g : Guards (guarded p body u) =
        unfold guarded in rescue-Guards (body u).0 (body u).1 (sound.at u h) (sound.faults u h) in
      bind_rule (Sane E) (guarded p body) _ u
        (λ o q.
          let (still, k) = subst (λ x. Guards (x, (guarded p body u).1)) q g in
          close_then_report o (guarded p body u).1 still k)
        (λ e q. subst (λ x. Guards (x, (guarded p body u).1)) q g)

  run_from-Sane : (cfg : SearchConfig) (s : Run W) → Holds 0 s → Sane E (run_from p cfg s)
  unfolding run_from deadline_of
  run_from-Sane cfg s h =
      let dead = deadline_from-Sound cfg cfg.max_wall_seconds in
      bind_rule (Sane E) (deadline_from p cfg cfg.max_wall_seconds) _ s
        (λ deadline q.
          let u = (deadline_from p cfg cfg.max_wall_seconds s).1 in
          let begin = advance-Sound p E known 0 Phase.selection none Note.search_started in
          bind_rule (Sane E) (advance p Phase.selection none Note.search_started) _ u
            (λ _ i.
              guarded-Sane _ _ (loop-Sound cfg cfg.max_iterations deadline _)
                (begin.at u (dead.at s h)))
            (λ e i. begin.faults u (dead.at s h) e i))
        (λ e q. dead.faults s h e q)

root_alone : (id content : Text) → AllSiblings (new_tree id content)
unfolding new_tree
root_alone id content x lt = record { distinct = tt; filled = tt }

-- Let `E` hold of the faults that the policies may raise and of the KeyError, ValueError and
-- InvalidTransitionError of the program. Then the result of `run` holds a well-formed tree in which
-- the children of each node have distinct texts, none of them blank, and a phase history that is a
-- walk along the diagram from the idle phase to the phase of the outcome; and `E` holds of the
-- fault that it reports or that escapes it. (No policy raises the fault of a loop that ran out of
-- rounds, so with `E e` for `e ≢ Fault.no_fuel` no loop of a run does.)
pub run-Sane :
    {W : Type 0} (p : Policies W) (cfg : SearchConfig) (E : Fault → Type 0) (task : Text) (w : W)
    → Known E p
    → Sane E (run p cfg task w)
unfolding run start new_tree
run-Sane p cfg E task w known = run_from-Sane p E known cfg _ (record {
  fits = new_tree-IsWellFormed (p.ids 0) task;
  inside = omega arith;
  siblings = root_alone (p.ids 0) task;
  replay = new-IsReplayable;
})
