-- ===== src/Samples/Bridges.antt =====
-- A paused target whose first resumption runs out of its budget, and a bridge whose client refuses
-- to forget one callback. The state of the program is the list of the events that were emitted.
use agent_cdp.Prelude.{
  ℕ, ◌≡◌, refl, Bool, true, false, Option, none, some, List, [], ◌∷◌, ◌++◌, if◌then◌else◌, ◌==◌,
  pos,
}
use agent_cdp.Events.Values.{Exc, runtime_error, Outcome, return, raise}
use agent_cdp.Bridge.Paused.{Task, PausedTarget, paused_target, no_attempt}
use agent_cdp.Bridge.Paused.Calls.{Action, run_calls}
use agent_cdp.Bridge.Paused.Sound.{IsSound}
use agent_cdp.Bridge.Paused.Held.{run_calls-IsSound}
use agent_cdp.Bridge.Paused.Steady.{Steady, run_calls-Steady}
use agent_cdp.Bridge.Routing.{Bridge, Factory, new_bridge, callback, close}
use agent_cdp.Bridge.Routing.Tracking.{Step, steps, IsTracked}
use agent_cdp.Bridge.Routing.Tracked.{steps-IsTracked, callback-returns}
use agent_cdp.Bridge.Routing.Closing.{CloseVerdict, close-CloseVerdict}

abbrev paused : PausedTarget
paused = record {
  resume_timeout = some 5;
  resumed = false;
  entered = false;
  attempt = none;
  attempts = λ k. no_attempt;
  started = 0;
}

-- Two callers share an attempt, which runs out of time; the next attempt is acknowledged.
abbrev calls : List Action
calls =
    Action.resumes 1
    ∷ Action.resumes 2
    ∷ Action.wakes 6 0
    ∷ Action.task_is_over 0 Task.cancelled
    ∷ Action.wakes 6 0
    ∷ Action.resumes 7
    ∷ Action.task_is_over 1 Task.acknowledged
    ∷ Action.wakes 8 1
    ∷ []

calls_resume : (run_calls (record { target = paused; waiting = [] }) calls).target.resumed ≡ true
unfolding run_calls
calls_resume = refl

run_calls-IsSound_example :
    IsSound (run_calls (record { target = paused; waiting = [] }) calls).target
unfolding paused_target
run_calls-IsSound_example = run_calls-IsSound true false (some (pos 5)) paused calls refl

run_calls-Steady_example :
    Steady paused (run_calls (record { target = paused; waiting = [] }) calls).target
run_calls-Steady_example = run_calls-Steady (record { target = paused; waiting = [] }) calls

abbrev Emitted : Type 0
Emitted = List ℕ

abbrev never_closed : Emitted → Bool
never_closed w = false

abbrev emit_event : ℕ → Emitted → Emitted × Option Exc
emit_event e w = (e ∷ w, some runtime_error)

abbrev same_params : Factory Emitted
same_params = Factory.of_params (λ params w. (w, return params))

abbrev refuse_first : ℕ → Outcome (Unit {0})
refuse_first k = if k == 0 then raise runtime_error else return tt

-- Two registrations, three callbacks of which one comes from another session, and a failing close.
abbrev bridge_steps : List (Step Emitted)
bridge_steps =
    Step.bridges 5 (return tt)
    ∷ Step.bridges 6 (return tt)
    ∷ Step.is_called 5 0 same_params 70 (some 3)
    ∷ Step.is_called 6 1 same_params 71 (some 4)
    ∷ Step.is_called 5 0 same_params 72 (some 3)
    ∷ []

abbrev bridged : Bridge × Emitted
bridged = steps never_closed emit_event (new_bridge (some 3), []) bridge_steps

bridged_counts : bridged.0.hit_counts ≡ (5, 2) ∷ (6, 0) ∷ []
unfolding steps new_bridge
bridged_counts = refl

bridged_emits : bridged.1 ≡ 72 ∷ 70 ∷ []
unfolding steps new_bridge
bridged_emits = refl

steps-IsTracked_example :
    IsTracked
      (steps never_closed emit_event
        (new_bridge (some 3), [])
        (bridge_steps ++ Step.closes refuse_first ∷ [])).0
steps-IsTracked_example =
    steps-IsTracked never_closed emit_event (some 3) []
      (bridge_steps ++ Step.closes refuse_first ∷ [])

callback-returns_example :
    (callback never_closed emit_event 6 1 same_params 73
      (some 3)
      (steps never_closed emit_event (new_bridge (some 3), []) bridge_steps)).2
    ≡ return tt
unfolding steps new_bridge
callback-returns_example =
    callback-returns never_closed emit_event (some 3) [] bridge_steps 6 1 same_params 73 (some 3)
      refl

close-CloseVerdict_example : CloseVerdict refuse_first bridged.0 (close refuse_first bridged.0)
unfolding steps new_bridge
close-CloseVerdict_example = close-CloseVerdict refuse_first bridged.0 refl refl
