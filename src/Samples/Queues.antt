-- ===== src/Samples/Queues.antt =====
-- A queue that stops, and one that is flushed.
use agent_cdp.Prelude.{◌≡◌, Bool, ◌++◌, refl, true, false, some, none, [], ◌∷◌, List, pos}
use agent_cdp.Scope.Queue.{
  TaskEnd, Checkpoint, new_loop, enqueue, request_stop, stop, System, take_next, handler_ends,
  begin, conclude, finish_delivery, count_result,
}
use agent_cdp.Events.Event.{mark_running}
use agent_cdp.Events.Values.{Outcome, return}
use agent_cdp.Scope.Queue.Runs.{Action, World, reached, run_queue, act}
use agent_cdp.Scope.Queue.Stopped.{Asked, StopVerdict, after_wait, stop_verdict}
use agent_cdp.Scope.Queue.Halted.{Halted}
use agent_cdp.Scope.Queue.Flushed.{FlushVerdict, finish_flush-FlushVerdict}
use agent_cdp.Samples.{queued_event, saver, logger}
use agent_cdp.Samples.Scopes.{empty_loop}

-- One delivery is admitted.
abbrev admissions : List Action
admissions = Action.enqueues 1 0 saver 1 ∷ Action.enqueues 2 0 logger 1 ∷ []

-- What the consumer does while a `stop` waits: it starts the handler of the delivery.
abbrev partly_served : List Action
partly_served = Action.takes 8 ∷ []

-- Then that handler is cancelled, and the consumer finds its queue empty.
abbrev served : List Action
served = partly_served ++ Action.ends 8 TaskEnd.was_cancelled ∷ Action.takes 8 ∷ []

abbrev admitted : World
admitted = reached empty_loop (λ n. queued_event) admissions

abbrev stop_of : List Action → System × Outcome Bool
stop_of during = stop 8 9 true (pos 1) (λ s. (run_queue (admitted.0, s) during).1) admitted.1

stop_verdict_example :
    Asked true admitted.0 admitted.1 (request_stop 8 true admitted.1)
    × StopVerdict
        (pos 1)
        (after_wait 8 true (pos 1) served admitted)
        admitted.1
        (stop 8 9 true (pos 1) (λ s. (run_queue (admitted.0, s) served).1) admitted.1)
unfolding new_loop
stop_verdict_example =
    stop_verdict 1 (pos 1) (pos 5) (some (pos 15)) empty_loop (λ n. queued_event) admissions 8 9
      true (pos 1) served refl

-- All was served in time, or not.
stop_in_time : (stop_of served).1 ≡ return true
unfolding stop run_queue act enqueue queued_event take_next handler_ends begin mark_running conclude
    finish_delivery count_result
stop_in_time = refl

stop_out_of_time : (stop_of partly_served).1 ≡ return false
unfolding stop run_queue act enqueue queued_event take_next handler_ends begin mark_running conclude
    finish_delivery count_result
stop_out_of_time = refl

abbrev checkpoint : Checkpoint
checkpoint = record {
  prefix =
      record {
        sequence = 1;
        event = 0;
        connection = saver;
        admitted_at = 1;
        started_at = none;
        timed_out = false;
        cancel_sent = false;
      }
      ∷ [];
  sequence = 2;
  settled = [];
}

finish_flush-FlushVerdict_example :
    FlushVerdict 9 checkpoint (record { loop = empty_loop; events = λ n. queued_event })
unfolding queued_event
finish_flush-FlushVerdict_example =
    finish_flush-FlushVerdict 9 checkpoint
      (record { loop = empty_loop; events = λ n. queued_event }) (refl, tt)
