-- ===== src/Scope/Queue/Execution.antt =====
-- event_loop.py: the consumer, the execution of a handler, and cancellation.
use agent_cdp.Prelude.{
  ℕ, ◌+◌, ◌-◌, max, Bool, true, false, Option, none, some, List, [], ◌∷◌, has_key, select, values,
  ◌==◌, if◌then◌else◌,
}
use agent_cdp.Events.Values.{
  Value, Exc, cancelled_error, handler_timeout_error, Outcome, return, raise,
}
use agent_cdp.Events.Delivery.{ResultStatus}
use agent_cdp.Events.Event.{Event, mark_running, mark_cancel_requested, record_result}
use agent_cdp.Scope.Queue.State.{ConsumerTask, Loop, System, Delivery, put, finish_delivery}

-- A call that may raise a KeyError, which it does before it writes anything.
abbrev pub or_kept : {A : Type 0} → A → Outcome A → A
or_kept ev (return ev') = ev'
or_kept ev (raise e) = ev

-- `_execute_handler` up to its first suspension, with what `_mark_running` gave: a KeyError there
-- would end the consumer.
abbrev pub begin_marked : ℕ → Delivery → Outcome Event → System → System
begin_marked now d (raise e) s = record s {
  loop = record (s.loop) {
    queue_wait = s.loop.queue_wait + (now - d.admitted_at);
    queue_wait_max = max s.loop.queue_wait_max (now - d.admitted_at);
    running = false;
    task = ConsumerTask.ended;
  };
}
begin_marked now d (return ev) s = record {
  loop = record (s.loop) {
    active = some (record d { started_at = some now });
    queue_wait = s.loop.queue_wait + (now - d.admitted_at);
    queue_wait_max = max s.loop.queue_wait_max (now - d.admitted_at);
  };
  events = put d.event ev s.events;
}

-- A delivery taken from the queue. One that is done already is skipped.
unfoldable pub begin : ℕ → Delivery → System → System
begin now d s =
    if has_key d.sequence s.loop.pending
    then begin_marked now d (mark_running now d.connection.id (s.events d.event)) s
    else s

-- One step of `_run` while no handler is active: it ends on an empty queue when the loop is
-- stopping, goes to sleep on an empty one otherwise, and else takes the head of the queue.
abbrev pub take_from : ℕ → Option Delivery → List Delivery → System → System
take_from now (some d) queue s = s
take_from now none [] s =
    if s.loop.stopping
    then record s { loop = record (s.loop) { running = false; task = ConsumerTask.ended } }
    else record s { loop = record (s.loop) { wake = false } }
take_from now none (d ∷ rest) s = begin now d (record s { loop = record (s.loop) { queue = rest } })

unfoldable pub take_next : ℕ → System → System
take_next now s = take_from now s.loop.active s.loop.queue s

-- How the child task of a handler ended. A value that is not awaitable has become a TypeError.
pub data TaskEnd : Type 0 where
  returned : Option Value → TaskEnd
  raised : Exc → TaskEnd
  was_cancelled : TaskEnd

-- The error and the status that `_execute_handler` records. A timeout that has expired decides,
-- however the task ends.
abbrev pub end_value : TaskEnd → Option Value
end_value (returned v) = v
end_value _ = none

abbrev pub end_error : Bool → TaskEnd → Option Exc
end_error true end = some handler_timeout_error
end_error false (returned v) = none
end_error false (raised e) = some e
end_error false was_cancelled = some cancelled_error

abbrev pub end_status : Bool → TaskEnd → Option ResultStatus
end_status true end = some ResultStatus.timeout
end_status false (returned v) = none
end_status false (raised e) = some ResultStatus.failed
end_status false was_cancelled = some ResultStatus.cancelled

-- The end of `_execute_handler` for the active delivery.
unfoldable pub conclude : ℕ → TaskEnd → Delivery → System → System
conclude now end d s = finish_delivery now d (record {
  loop = record (s.loop) { active = none };
  events =
      put d.event
        (record_result now d.connection.id d.connection.handler_name (end_value end)
          (end_error d.timed_out end) (end_status d.timed_out end) (s.events d.event))
        s.events;
})

abbrev pub task_ends_for : ℕ → TaskEnd → Option Delivery → System → System
task_ends_for now end none s = s
task_ends_for now end (some d) s = conclude now end d s

unfoldable pub task_ends : ℕ → TaskEnd → System → System
task_ends now end s = task_ends_for now end s.loop.active s

-- `event._mark_cancel_requested(connection.id)` on the event of a delivery.
abbrev pub request_cancel : Delivery → System → System
request_cancel d s = record s {
  events =
      put d.event
        (or_kept (s.events d.event) (mark_cancel_requested d.connection.id (s.events d.event)))
        s.events;
}

abbrev pub expire_for : Option Delivery → System → System
expire_for none s = s
expire_for (some d) s = request_cancel d (record s {
  loop = record (s.loop) { active = some (record d { timed_out = true; cancel_sent = true }) };
})

-- `expire`: the execution budget of the active handler is over. The task is cancelled once.
unfoldable pub expire : System → System
expire s = expire_for s.loop.active s

-- The active delivery is asked to stop, once.
unfoldable pub cancel_active : Delivery → System → System
cancel_active d s =
    if d.cancel_sent
    then s
    else request_cancel d
        (record s { loop = record (s.loop) { active = some (record d { cancel_sent = true }) } })

-- The queue without the deliveries that are done.
abbrev pub purge : Loop → Loop
purge l = record l { queue = select (λ d. has_key d.sequence l.pending) l.queue; wake = true }

-- A delivery that has not started settles at once and gives its place back.
unfoldable pub cancel_queued : ℕ → Delivery → System → System
cancel_queued now d s =
    let asked = request_cancel d s in
    let settled : System = record asked {
      events =
          put d.event
            (record_result now d.connection.id d.connection.handler_name none (some cancelled_error)
              (some ResultStatus.cancelled) (asked.events d.event))
            asked.events;
    } in
    let left = finish_delivery now d settled in record left { loop = purge left.loop }

abbrev pub cancel_pending : ℕ → Delivery → Bool → Option Delivery → System → System
cancel_pending now d include_running none s = cancel_queued now d s
cancel_pending now d include_running (some a) s =
    if d.sequence == a.sequence
    then (if include_running then cancel_active a s else s)
    else cancel_queued now d s

-- `_cancel_delivery`
unfoldable pub cancel_delivery : ℕ → Delivery → Bool → System → System
cancel_delivery now d include_running s =
    if has_key d.sequence s.loop.pending
    then cancel_pending now d include_running s.loop.active s
    else s

unfoldable pub cancel_all : ℕ → List Delivery → System → System
cancel_all now [] s = s
cancel_all now (d ∷ ds) s = cancel_all now ds (cancel_delivery now d true s)

-- `_cancel_remaining`
unfoldable pub cancel_remaining : ℕ → System → System
cancel_remaining now s = cancel_all now (values s.loop.pending) s
