-- ===== src/Bridge/Paused.antt =====
-- bridge.py: `PausedTarget`. Attempts stand in a store, since a caller of `resume` keeps its
-- attempt while others may replace the latest one. What the task of an attempt does, the client's
-- answer, is chosen from outside.
pub mod Calls
pub mod Attempts
pub mod Sound
pub mod Held
pub mod Steady
use agent_cdp.Prelude.{
  ℕ, ◌+◌, ◌-◌, Bool, true, false, not, ◌&&◌, ◌||◌, Option, none, some, if◌then◌else◌, ◌==◌, ℤ, pos,
  negsuc, is_some,
}
use agent_cdp.Events.Values.{
  Exc, cancelled_error, value_error, runtime_error, resume_timeout_error, assertion_error, Outcome,
  return, raise,
}

-- The task of an attempt.
pub data Task : Type 0 where
  running acknowledged cancelled : Task
  failed : Exc → Task

abbrev pub is_done : Task → Bool
is_done Task.running = false
is_done _ = true

-- `_ResumeAttempt`, with the number of times that its task was asked to end.
pub record Attempt : Type 0 where
  pub task : Task
  pub cancel_requests : ℕ
  pub deadline : Option ℕ
  pub failure : Option Exc

pub record PausedTarget : Type 0 where
  pub resume_timeout : Option ℕ
  pub resumed : Bool
  pub entered : Bool
  pub attempt : Option ℕ
  pub attempts : ℕ → Attempt
  pub started : ℕ

abbrev pub no_attempt : Attempt
no_attempt = record { task = Task.cancelled; cancel_requests = 0; deadline = none; failure = none }

-- The constructor: whether a client and a custom resumption are given, and the resume_budget.
abbrev pub resume_budget : Option ℤ → Outcome (Option ℕ)
resume_budget none = return none
resume_budget (some (ℤ.pos t)) = return (some t)
resume_budget (some (ℤ.negsuc t)) = raise value_error

abbrev pub new_target : Outcome (Option ℕ) → Outcome PausedTarget
new_target (raise e) = raise e
new_target (return timeout) = return (record {
  resume_timeout = timeout;
  resumed = false;
  entered = false;
  attempt = none;
  attempts = λ k. no_attempt;
  started = 0;
})

abbrev pub same : Bool → Bool → Bool
same true b = b
same false b = not b

unfoldable pub paused_target : (cdp resume : Bool) → Option ℤ → Outcome PausedTarget
paused_target cdp resume timeout =
    if same cdp resume then raise value_error else new_target (resume_budget timeout)

-- `__aenter__`
unfoldable pub enter : PausedTarget → PausedTarget × Outcome (Unit {0})
enter p = if p.entered then (p, raise runtime_error) else (record p { entered = true }, return tt)

abbrev pub put_attempt : ℕ → Attempt → PausedTarget → PausedTarget
put_attempt k a p = record p { attempts = λ j. if j == k then a else p.attempts j }

abbrev or_error : Option Exc → Exc → Exc
or_error none e = e
or_error (some f) e = f

-- `if attempt.failure is None: attempt.failure = error`
abbrev pub note_failure : Exc → Attempt → Attempt
note_failure e a = record a { failure = some (or_error a.failure e) }

-- `_ResumeAttempt.cancel`
unfoldable pub cancel : Exc → Attempt → Attempt
cancel e a = if is_some a.failure then a else record a {
  failure = some e;
  cancel_requests = if is_done a.task then a.cancel_requests else a.cancel_requests + 1;
}

-- What `resume` does up to its wait: it is done, it raises, or it waits for an attempt.
pub data Resumption : Type 0 where
  already : Resumption
  raises : Exc → Resumption
  waits : (attempt : ℕ) → (remaining : Option ℕ) → Resumption

abbrev pub deadline_at : ℕ → Option ℕ → Option ℕ
deadline_at now none = none
deadline_at now (some timeout) = some (now + timeout)

-- The task of a fresh attempt has not run yet.
unfoldable pub new_attempt : ℕ → PausedTarget → PausedTarget
new_attempt now p =
    let k = p.started in
    let fresh : Attempt = record {
      task = Task.running;
      cancel_requests = 0;
      deadline = deadline_at now p.resume_timeout;
      failure = none;
    } in
    record p {
      attempts = λ j. if j == k then fresh else p.attempts j;
      attempt = some k;
      started = k + 1;
    }

-- `max(0.0, attempt.deadline - loop.time())`
abbrev pub remaining_at : ℕ → Option ℕ → Option ℕ
remaining_at now none = none
remaining_at now (some deadline) = some (deadline - now)

abbrev pub wait_on : ℕ → ℕ → Attempt → Resumption
wait_on now k a = elim a.failure [
  | some e ↦ Resumption.raises e
  | none ↦ Resumption.waits k (remaining_at now a.deadline)
]

-- A failed attempt whose task has ended gives way to a fresh one.
abbrev pub is_over : Attempt → Bool
is_over a = is_done a.task && is_some a.failure

abbrev pub share : ℕ → Option ℕ → PausedTarget → PausedTarget × Resumption
share now none p = let q = new_attempt now p in (q, wait_on now p.started (q.attempts p.started))
share now (some k) p =
    if is_over (p.attempts k)
    then (let q = new_attempt now p in (q, wait_on now p.started (q.attempts p.started)))
    else (p, wait_on now k (p.attempts k))

-- `resume`, up to its wait.
unfoldable pub begin_resume : ℕ → PausedTarget → PausedTarget × Resumption
unfolding new_attempt
begin_resume now p = if p.resumed then (p, Resumption.already) else share now p.attempt p

-- The attempt `k` fail_with for a caller: with an error of its own, or by a cancellation.
abbrev pub fail_with : ℕ → Exc → PausedTarget → PausedTarget × Outcome (Unit {0})
fail_with k e p = (put_attempt k (note_failure e (p.attempts k)) p, raise e)

abbrev pub cancel_with : ℕ → Exc → PausedTarget → PausedTarget × Outcome (Unit {0})
cancel_with k e p = (put_attempt k (cancel e (p.attempts k)) p, raise e)

-- The wait has come back with the task as it is now.
abbrev pub settle_wait : ℕ → Task → PausedTarget → PausedTarget × Outcome (Unit {0})
settle_wait k Task.running p =
    if is_some p.resume_timeout
    then cancel_with k resume_timeout_error p
    else fail_with k assertion_error p
settle_wait k (Task.failed e) p = fail_with k e p
settle_wait k Task.cancelled p = cancel_with k cancelled_error p
settle_wait k Task.acknowledged p = elim (p.attempts k).failure [
  | some e ↦ (p, raise e)
  | none ↦ (record p { resumed = true }, return tt)
]

-- `resume` after its wait for the attempt `k`, which the caller's own cancellation may have ended.
unfoldable pub end_resume :
    ℕ → (interrupted : Bool) → PausedTarget → PausedTarget × Outcome (Unit {0})
unfolding cancel
end_resume k interrupted p =
    if interrupted then cancel_with k cancelled_error p else settle_wait k (p.attempts k).task p

-- `__aexit__`, from the error of the body and what `resume` did: what leaves the `async with`.
unfoldable pub exit_with : Option Exc → Outcome (Unit {0}) → Outcome (Unit {0})
exit_with none resumption = resumption
exit_with (some body) (return _) = raise body
exit_with (some body) (raise Exc.cancelled_error) = raise cancelled_error
exit_with (some body) (raise e) = raise body
