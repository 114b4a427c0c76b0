-- ===== src/Samples/Cancellations.antt =====
-- An event with one delivery settled and one in the queue, which is cancelled.
use agent_cdp.Prelude.{ℕ, ◌≡◌, refl, true, none, some, lookup, Option}
use agent_cdp.Events.Values.{Outcome, return, raise, opaque}
use agent_cdp.Events.Delivery.{ResultStatus}
use agent_cdp.Events.Event.{record_result, mark_cancel_requested}
use agent_cdp.Scope.Queue.{enqueue, cancel_delivery, cancel_queued, finish_delivery}
use agent_cdp.Scope.Emission.{World, put_event}
use agent_cdp.Scope.Cancellation.{Selection, on_queue, cancel_execution}
use agent_cdp.Scope.Cancellation.Standing.{AllStand}
use agent_cdp.Scope.Cancellation.Settled.{cancel_execution-AllStand}
use agent_cdp.Samples.{queued_event, saver}
use agent_cdp.Samples.Emissions.{program}

abbrev everything : Selection
everything = record { include_running = true; scope_id = none; connection_ids = none }

abbrev queued_program : World
unfolding enqueue record_result
queued_program =
    on_queue 1 (λ s. (enqueue 4 0 saver 1 s).0)
      (put_event 0 (record_result 4 12 22 (some (opaque 4)) none none queued_event) program)

abbrev left_by : World → Outcome World → World
left_by w (return v) = v
left_by w (raise e) = w

abbrev status_of : ℕ → World → Option ResultStatus
status_of cid w = elim (lookup cid (w.events 0).event_results) [
  | none ↦ none
  | some r ↦ some r.status
]

abbrev after : World
unfolding cancel_execution
after = left_by queued_program (cancel_execution 9 0 everything queued_program)

queued_is_cancelled : status_of 11 after ≡ some ResultStatus.cancelled
unfolding enqueue record_result queued_event cancel_execution cancel_delivery mark_cancel_requested
    cancel_queued finish_delivery
queued_is_cancelled = refl

cancel_execution-AllStand_example : AllStand queued_program.events after.events
unfolding enqueue record_result queued_event cancel_execution cancel_delivery mark_cancel_requested
cancel_execution-AllStand_example =
    cancel_execution-AllStand 9 0 everything queued_program after refl
