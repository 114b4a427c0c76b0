-- ===== src/Bridge/Paused/Held.antt =====
-- Calls of `PausedTarget.resume` that overlap (`Calls`).
use mathlib.Core.Path.{subst}
use agent_cdp.Prelude.{
  ℕ, zero, suc, ◌<◌, ◌≡◌, refl, sym, ◌∙◌, Bool, true, false, ◌&&◌, Option, none, some, List, [],
  ◌∷◌, ltb, contains, arith, ℤ, if_ind, and_cases, ==_refl, drop_first,
}
use agent_cdp.Events.Values.{Exc, cancelled_error, Outcome, return, raise}
use agent_cdp.Bridge.Paused.{
  PausedTarget, paused_target, Resumption, new_attempt, is_over, share, begin_resume, end_resume,
  wait_on, same, resume_budget, new_target,
}
use agent_cdp.Bridge.Paused.Calls.{
  Session, Action, join, end_task, after_wait, can_wake, act, run_calls,
}
use agent_cdp.Bridge.Paused.Attempts.{end_task-Later, end_task-IsFair}
use agent_cdp.Bridge.Paused.Sound.{
  latest, IsSound, put_attempt-IsSound, begin_resume-IsSound, cancel_with-IsSound,
  settle_wait-IsSound,
}

-- The callers wait for attempts that have been started.
pub record IsHeld (s : Session) : Type 0 where
  pub target : IsSound s.target
  pub waiting : (k : ℕ) → contains k s.waiting ≡ true → k < s.target.started

contains-drop_first :
    (k j : ℕ) (js : List ℕ) → contains k (drop_first j js) ≡ true → contains k js ≡ true
contains-drop_first k j [] h = h
contains-drop_first k j (i ∷ js) h = ground (arith, contains-drop_first k j js)

end_resume-started :
    (k : ℕ) (interrupted : Bool) (p : PausedTarget)
    → (end_resume k interrupted p).0.started ≡ p.started
unfolding end_resume
end_resume-started k interrupted p = ground arith

after_wait-IsHeld :
    (k : ℕ) (interrupted : Bool) (s : Session)
    → IsHeld s
    → contains k s.waiting ≡ true
    → IsHeld (after_wait k interrupted s)
unfolding after_wait end_resume
after_wait-IsHeld k true s held h = record {
  target = cancel_with-IsSound cancelled_error s.target held.target k;
  waiting = λ j g. held.waiting j (contains-drop_first j k s.waiting g);
}
after_wait-IsHeld k false s held h = record {
  target =
      settle_wait-IsSound s.target held.target k (held.waiting k h) (s.target.attempts k).task refl;
  waiting = λ j g.
      rw (end_resume-started k false s.target)
        (held.waiting j (contains-drop_first j k s.waiting g));
}

-- The attempt `k` is started after a call of `resume` that was joined to `js`.
abbrev Holding : PausedTarget × Resumption → List ℕ → ℕ → Type 0
Holding r js k = contains k (join r.1 js) ≡ true → k < r.0.started

latest-lt : (n k : ℕ) → latest n ≡ some k → k < n
latest-lt zero k e = cc
latest-lt (suc n) k e = ground arith

wait_on-Holding :
    (now : ℕ) (p : PausedTarget) (js : List ℕ) (k j : ℕ)
    → j < p.started
    → (contains k js ≡ true → k < p.started)
    → (f : Option Exc) → (p.attempts j).failure ≡ f
    → Holding (p, wait_on now j (p.attempts j)) js k
wait_on-Holding now p js k j h held none e = rw e (λ g. ground arith)
wait_on-Holding now p js k j h held (some x) e = rw e held

module _ (now : ℕ) (p : PausedTarget) (js : List ℕ) (k : ℕ)
    (held : contains k js ≡ true → k < p.started) where
  new_attempt-Holding :
      Holding
        (new_attempt now p, wait_on now p.started ((new_attempt now p).attempts p.started))
        js
        k
  unfolding new_attempt
  new_attempt-Holding = rw (==_refl p.started) (λ g. ground arith)

  share-waiting : (a : Option ℕ) → p.attempt ≡ a → IsSound p → Holding (share now a p) js k
  share-waiting none e sound = new_attempt-Holding
  share-waiting (some j) e sound =
      if_ind (λ r. Holding r js k) (is_over (p.attempts j)) _ _ (λ _. new_attempt-Holding)
        (λ _.
          wait_on-Holding now p js k j (latest-lt p.started j (sym sound.attempt ∙ e)) held
            (p.attempts j).failure refl)

begin_resume-waiting :
    (now : ℕ) (p : PausedTarget) (js : List ℕ)
    → IsSound p
    → ((k : ℕ) → contains k js ≡ true → k < p.started)
    → (k : ℕ) → contains k (join (begin_resume now p).1 js) ≡ true
    → k < (begin_resume now p).0.started
unfolding begin_resume
begin_resume-waiting now p js sound held k =
    if_ind (λ r. Holding r js k) p.resumed _ _ (λ _. held k)
      (λ _. share-waiting now p js k (held k) p.attempt refl sound)

act-IsHeld : (s : Session) (a : Action) → IsHeld s → IsHeld (act s a)
unfolding act
act-IsHeld s (Action.resumes now) held = record {
  target = begin_resume-IsSound now s.target held.target;
  waiting = begin_resume-waiting now s.target s.waiting held.target held.waiting;
}
act-IsHeld s (Action.wakes now k) held =
    if_ind IsHeld (contains k s.waiting && can_wake now (s.target.attempts k)) _ s
      (λ h. after_wait-IsHeld k false s held (and_cases (contains k s.waiting) h).0) (λ _. held)
act-IsHeld s (Action.is_interrupted k) held =
    if_ind IsHeld (contains k s.waiting) _ s (after_wait-IsHeld k true s held) (λ _. held)
act-IsHeld s (Action.task_is_over k t) held =
    let a = s.target.attempts k in
    if_ind IsHeld (ltb k s.target.started) _ s
      (λ h. record {
        target =
            put_attempt-IsSound s.target held.target k (end_task t a) (end_task-Later t a)
              (end_task-IsFair t a (held.target.fair k));
        waiting = held.waiting;
      })
      (λ _. held)

run_calls-IsHeld : (s : Session) (actions : List Action) → IsHeld s → IsHeld (run_calls s actions)
unfolding run_calls
run_calls-IsHeld s [] held = held
run_calls-IsHeld s (a ∷ actions) held = run_calls-IsHeld (act s a) actions (act-IsHeld s a held)

abbrev Holds : Outcome PausedTarget → Type 0
Holds (return p) = IsSound p
Holds (raise e) = Unit

new_target-Holds : (o : Outcome (Option ℕ)) → Holds (new_target o)
new_target-Holds (raise e) = tt
new_target-Holds (return timeout) = record {
  attempt = refl;
  superseded = λ k h. absurd (omega arith);
  acknowledged = λ h. cc;
  fair = λ k. omega arith;
}

new_target-IsSound :
    (cdp resume : Bool) (timeout : Option ℤ) (p : PausedTarget)
    → paused_target cdp resume timeout ≡ return p
    → IsSound p
unfolding paused_target
new_target-IsSound cdp resume timeout p e =
    subst Holds e
      (if_ind Holds (same cdp resume) _ _ (λ _. tt) (λ _. new_target-Holds (resume_budget timeout)))

-- After any calls of `resume`, from a new target on, one attempt runs at most: each attempt but the
-- latest has failed and its task has ended. The target counts as resumed only where the task of
-- the latest attempt was acknowledged, and no task has been asked to end more than once.
pub run_calls-IsSound :
    (cdp resume : Bool) (timeout : Option ℤ) (p : PausedTarget) (actions : List Action)
    → paused_target cdp resume timeout ≡ return p
    → IsSound (run_calls (record { target = p; waiting = [] }) actions).target
run_calls-IsSound cdp resume timeout p actions e =
    let s : Session = record { target = p; waiting = [] } in
    let new : IsHeld s = record {
      target = new_target-IsSound cdp resume timeout p e;
      waiting = λ k h. absurd (cc);
    } in
    (run_calls-IsHeld s actions new).target
