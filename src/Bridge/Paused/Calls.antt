-- ===== src/Bridge/Paused/Calls.antt =====
-- Calls of `PausedTarget.resume` that overlap.
use agent_cdp.Prelude.{
  ℕ, Bool, true, false, ◌&&◌, ◌||◌, Option, none, some, List, [], ◌∷◌, if◌then◌else◌, ltb, leb,
  contains, drop_first,
}
use agent_cdp.Bridge.Paused.{
  Task, is_done, Attempt, PausedTarget, put_attempt, Resumption, begin_resume, end_resume,
}

-- The target, and the attempts for which its callers wait.
pub record Session : Type 0 where
  pub target : PausedTarget
  pub waiting : List ℕ

-- A caller starts to resume; the wait of one ends, since the task has ended or the budget is over;
-- a caller is cancelled while it waits; the task of an attempt ends.
pub data Action : Type 0 where
  resumes : (now : ℕ) → Action
  wakes : (now attempt : ℕ) → Action
  is_interrupted : (attempt : ℕ) → Action
  task_is_over : (attempt : ℕ) → Task → Action

abbrev pub join : Resumption → List ℕ → List ℕ
join (Resumption.waits k remaining) js = k ∷ js
join _ js = js

abbrev passed : ℕ → Option ℕ → Bool
passed now none = false
passed now (some deadline) = leb deadline now

abbrev pub can_wake : ℕ → Attempt → Bool
can_wake now a = is_done a.task || passed now a.deadline

abbrev pub end_task : Task → Attempt → Attempt
end_task t a = if is_done a.task then a else record a { task = t }

unfoldable pub after_wait : ℕ → Bool → Session → Session
unfolding end_resume
after_wait k interrupted s = record {
  target = (end_resume k interrupted s.target).0;
  waiting = drop_first k s.waiting;
}

unfoldable pub act : Session → Action → Session
unfolding begin_resume after_wait
act s (Action.resumes now) = record {
  target = (begin_resume now s.target).0;
  waiting = join (begin_resume now s.target).1 s.waiting;
}
act s (Action.wakes now k) =
    if contains k s.waiting && can_wake now (s.target.attempts k) then after_wait k false s else s
act s (Action.is_interrupted k) = if contains k s.waiting then after_wait k true s else s
act s (Action.task_is_over k t) =
    if ltb k s.target.started
    then record s { target = put_attempt k (end_task t (s.target.attempts k)) s.target }
    else s

unfoldable pub run_calls : Session → List Action → Session
unfolding act
run_calls s [] = s
run_calls s (a ∷ as') = run_calls (act s a) as'
