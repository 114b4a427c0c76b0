-- ===== src/Bridge/Paused/Steady.antt =====
-- What later calls of `PausedTarget.resume` leave as it is (`Calls`).
use agent_cdp.Prelude.{
  ℕ, ◌≤◌, ◌<◌, ◌≡◌, refl, ◌∙◌, Bool, true, false, ◌&&◌, Option, none, some, List, [], ◌∷◌, ◌==◌,
  ltb, contains, is_some, arith, if_ind, ap,
}
use agent_cdp.Events.Values.{
  Exc, cancelled_error, assertion_error, resume_timeout_error, Outcome, return, raise,
}
use agent_cdp.Bridge.Paused.{
  Task, is_done, Attempt, PausedTarget, put_attempt, note_failure, cancel, Resumption, new_attempt,
  is_over, share, begin_resume, end_resume, fail_with, cancel_with, settle_wait,
}
use agent_cdp.Bridge.Paused.Calls.{Session, Action, end_task, after_wait, can_wake, act, run_calls}
use agent_cdp.Bridge.Paused.Attempts.{
  Later, Later-refl, put-Later, cancel-Later, note_failure-Later, end_task-Later,
}

-- A target later on. An attempt that was started keeps the end of its task and its first failure. A
-- target that is resumed stays so, and starts no further attempt.
pub record Steady (p q : PausedTarget) : Type 0 where
  pub started : p.started ≤ q.started
  pub attempts : (k : ℕ) → k < p.started → Later (p.attempts k) (q.attempts k)
  pub resumed : p.resumed ≡ true → (q.resumed ≡ true) × (q.started ≡ p.started)

Later-trans : {a b c : Attempt} → Later a b → Later b c → Later a c
Later-trans h g = record {
  task = λ d. g.task (ap is_done (h.task d) ∙ d) ∙ h.task d;
  failure = λ f. g.failure (ap is_some (h.failure f) ∙ f) ∙ h.failure f;
}

Steady-refl : (p : PausedTarget) → Steady p p
Steady-refl p = record {
  started = omega arith;
  attempts = λ k _. Later-refl (p.attempts k);
  resumed = λ h. (h, refl);
}

Steady-trans : {p q r : PausedTarget} → Steady p q → Steady q r → Steady p r
Steady-trans h g = record {
  started = omega (arith, h.started, g.started);
  attempts = λ k l. Later-trans (h.attempts k l) (g.attempts k (omega (arith, h.started)));
  resumed = λ d.
      let (still, same) = h.resumed d in
      let (later, later_same) = g.resumed still in (later, later_same ∙ same);
}

put_attempt-Steady :
    (p : PausedTarget) (k : ℕ) (b : Attempt) → Later (p.attempts k) b → Steady p (put_attempt k b p)
put_attempt-Steady p k b later = record {
  started = omega arith;
  attempts = λ j _. put-Later p.attempts k b later j;
  resumed = λ h. (h, refl);
}

fresh_elsewhere :
    (p : PausedTarget) (now k : ℕ)
    → k < p.started
    → Later (p.attempts k) ((new_attempt now p).attempts k)
unfolding new_attempt
fresh_elsewhere p now k h =
    if_ind (λ a. Later (p.attempts k) a) (k == p.started) _ (p.attempts k)
      (λ e. absurd (ground arith)) (λ _. Later-refl (p.attempts k))

new_attempt-Steady : (now : ℕ) (p : PausedTarget) → p.resumed ≡ false → Steady p (new_attempt now p)
unfolding new_attempt
new_attempt-Steady now p e = record {
  started = omega arith;
  attempts = fresh_elsewhere p now;
  resumed = λ h. cc;
}

share-Steady :
    (now : ℕ) (p : PausedTarget) (a : Option ℕ) → p.resumed ≡ false → Steady p (share now a p).0
share-Steady now p none e = new_attempt-Steady now p e
share-Steady now p (some k) e =
    if_ind (λ (r : PausedTarget × Resumption). Steady p r.0) (is_over (p.attempts k)) _ _
      (λ _. new_attempt-Steady now p e) (λ _. Steady-refl p)

begin_resume-Steady : (now : ℕ) (p : PausedTarget) → Steady p (begin_resume now p).0
unfolding begin_resume
begin_resume-Steady now p =
    if_ind (λ (r : PausedTarget × Resumption). Steady p r.0) p.resumed _ _ (λ _. Steady-refl p)
      (λ e. share-Steady now p p.attempt e)

module _ (k : ℕ) (e : Exc) (p : PausedTarget) where
  cancel_with-Steady : Steady p (cancel_with k e p).0
  cancel_with-Steady =
      put_attempt-Steady p k (cancel e (p.attempts k)) (cancel-Later e (p.attempts k))

  fail_with-Steady : Steady p (fail_with k e p).0
  fail_with-Steady =
      put_attempt-Steady p k (note_failure e (p.attempts k)) (note_failure-Later e (p.attempts k))

acknowledged-Steady :
    (p : PausedTarget) (f : Option Exc)
    → Steady p
        (elim f as (λ _. PausedTarget × Outcome (Unit {0})) [
          | some e ↦ (p, raise e)
          | none ↦ (record p { resumed = true }, return tt)
        ]).0
acknowledged-Steady p (some e) = Steady-refl p
acknowledged-Steady p none = record {
  started = omega arith;
  attempts = λ k _. Later-refl (p.attempts k);
  resumed = λ h. (refl, refl);
}

settle_wait-Steady : (k : ℕ) (t : Task) (p : PausedTarget) → Steady p (settle_wait k t p).0
settle_wait-Steady k Task.running p =
    if_ind (λ (r : PausedTarget × Outcome (Unit {0})). Steady p r.0) (is_some p.resume_timeout) _ _
      (λ _. cancel_with-Steady k resume_timeout_error p) (λ _. fail_with-Steady k assertion_error p)
settle_wait-Steady k (Task.failed x) p = fail_with-Steady k x p
settle_wait-Steady k Task.cancelled p = cancel_with-Steady k cancelled_error p
settle_wait-Steady k Task.acknowledged p = acknowledged-Steady p (p.attempts k).failure

after_wait-Steady :
    (k : ℕ) (interrupted : Bool) (s : Session) → Steady s.target (after_wait k interrupted s).target
unfolding after_wait end_resume
after_wait-Steady k true s = cancel_with-Steady k cancelled_error s.target
after_wait-Steady k false s = settle_wait-Steady k (s.target.attempts k).task s.target

act-Steady : (s : Session) (a : Action) → Steady s.target (act s a).target
unfolding act
act-Steady s (Action.resumes now) = begin_resume-Steady now s.target
act-Steady s (Action.wakes now k) =
    if_ind (λ (r : Session). Steady s.target r.target)
      (contains k s.waiting && can_wake now (s.target.attempts k)) _ s
      (λ _. after_wait-Steady k false s) (λ _. Steady-refl s.target)
act-Steady s (Action.is_interrupted k) =
    if_ind (λ (r : Session). Steady s.target r.target) (contains k s.waiting) _ s
      (λ _. after_wait-Steady k true s) (λ _. Steady-refl s.target)
act-Steady s (Action.task_is_over k t) =
    let a = s.target.attempts k in
    if_ind (λ (r : Session). Steady s.target r.target) (ltb k s.target.started) _ s
      (λ _. put_attempt-Steady s.target k (end_task t a) (end_task-Later t a))
      (λ _. Steady-refl s.target)

-- Whatever callers of `resume` do, a failure that an attempt has stands, as does the end of its
-- task, and a target that is resumed stays so and starts no further attempt.
pub run_calls-Steady :
    (s : Session) (actions : List Action) → Steady s.target (run_calls s actions).target
unfolding run_calls
run_calls-Steady s [] = Steady-refl s.target
run_calls-Steady s (a ∷ actions) =
    Steady-trans (act-Steady s a) (run_calls-Steady (act s a) actions)
