-- ===== src/Events/Event/Completion.antt =====
-- The two signals that a waiter of an event rests on, `_completion` and `_changed`, under every
-- sequence of calls.
use agent_cdp.Prelude.{ℕ, ◌≤◌, ◌<◌, ◌≡◌, ◌⊎◌, inl, refl, Bool, Option, List, [], ◌∷◌, ◌==◌, arith}
use agent_cdp.Events.Values.{Value, Exc, Outcome, return, raise}
use agent_cdp.Events.Delivery.{ResultStatus}
use agent_cdp.Events.Event.State.{
  Event, Receiver, consume, notify_changed, increment_pending, decrement_pending,
}
use agent_cdp.Events.Event.Receivers.{preflight}
use agent_cdp.Events.Event.Results.{
  prepare_delivery, mark_running, mark_cancel_requested, set_delivery_scope, set_cancel_callback,
  finish, record_result,
}

-- A call of a method that changes an event.
pub data Call : Type 0 where
  consumes increments decrements : Call
  preflights : List Receiver → Call
  prepares : (now : ℕ) → Receiver → (source_id scope_id : ℕ) (queued : Bool) → Call
  marks_running : (now cid : ℕ) → Call
  requests_cancel finishes : (cid : ℕ) → Call
  sets_scope : (cid token : ℕ) → Call
  sets_callback : (cid : ℕ) → ℕ × ℕ → Call
  records : (now cid handler_name : ℕ) → Option Value → Option Exc → Option ResultStatus → Call

-- A KeyError is raised before anything is written.
abbrev kept : Event → Outcome Event → Event
kept ev (return ev') = ev'
kept ev (raise e) = ev

unfoldable pub call : Event → Call → Event
call ev Call.consumes = consume ev
call ev Call.increments = increment_pending ev
call ev Call.decrements = decrement_pending ev
call ev (Call.preflights cs) = (preflight cs ev).0
call ev (Call.prepares now c source_id scope_id queued) =
    prepare_delivery now c source_id scope_id queued ev
call ev (Call.marks_running now cid) = kept ev (mark_running now cid ev)
call ev (Call.requests_cancel cid) = kept ev (mark_cancel_requested cid ev)
call ev (Call.finishes cid) = finish cid ev
call ev (Call.sets_scope cid token) = set_delivery_scope cid token ev
call ev (Call.sets_callback cid callback) = set_cancel_callback cid callback ev
call ev (Call.records now cid name result error status) =
    record_result now cid name result error status ev

unfoldable pub run : Event → List Call → Event
run ev [] = ev
run ev (c ∷ cs) = run (call ev c) cs

-- What a waiter reads of an event: the records and the pending count.
pub record SameToWaiters (old new : Event) : Type 0 where
  pub results : new.event_results ≡ old.event_results
  pub pending : new.pending_count ≡ old.pending_count

pub record Effect (old new : Event) : Type 0 where
  pub completion :
      (old.completion ≡ (old.pending_count == 0)) → new.completion ≡ (new.pending_count == 0)
  pub monotone : old.changed ≤ new.changed
  pub wakes : SameToWaiters old new ⊎ (old.changed < new.changed)

records-Effect :
    (now cid name : ℕ) (result : Option Value) (error : Option Exc) (status : Option ResultStatus)
    (ev : Event)
    → Effect ev (record_result now cid name result error status ev)
unfolding record_result finish notify_changed
records-Effect now cid name result error status ev = ground arith

mark_running-Effect : (now cid : ℕ) (ev : Event) → Effect ev (kept ev (mark_running now cid ev))
unfolding mark_running
mark_running-Effect now cid ev = ground arith

requests_cancel-Effect : (cid : ℕ) (ev : Event) → Effect ev (kept ev (mark_cancel_requested cid ev))
unfolding mark_cancel_requested
requests_cancel-Effect cid ev = ground arith

decrements-Effect : (ev : Event) → Effect ev (decrement_pending ev)
unfolding decrement_pending
decrements-Effect ev = ground arith

call-Effect : (c : Call) (ev : Event) → Effect ev (call ev c)
unfolding call consume increment_pending prepare_delivery preflight finish set_delivery_scope
    set_cancel_callback
call-Effect (Call.marks_running now cid) ev = mark_running-Effect now cid ev
call-Effect (Call.requests_cancel cid) ev = requests_cancel-Effect cid ev
call-Effect (Call.records now cid name result error status) ev =
    records-Effect now cid name result error status ev
call-Effect Call.decrements ev = decrements-Effect ev
call-Effect _ ev = ground arith

-- After any sequence of calls `_completion` is set exactly when no queued delivery is pending, if
-- it was so at the start.
pub run-completion :
    (cs : List Call) (ev : Event)
    → ev.completion ≡ (ev.pending_count == 0)
    → (run ev cs).completion ≡ ((run ev cs).pending_count == 0)
unfolding run
run-completion [] ev h = h
run-completion (c ∷ cs) ev h = run-completion cs (call ev c) ((call-Effect c ev).completion h)

run-monotone : (cs : List Call) (ev : Event) → ev.changed ≤ (run ev cs).changed
unfolding run
run-monotone [] ev = omega arith
run-monotone (c ∷ cs) ev = omega (arith, run-monotone cs (call ev c), (call-Effect c ev).monotone)

-- No wake-up is lost: whatever sequence of calls comes between two looks at an event, either the
-- records and the pending count are as before, or `_changed` has been replaced and fired.
pub run_wakes :
    (cs : List Call) (ev : Event)
    → SameToWaiters ev (run ev cs) ⊎ (ev.changed < (run ev cs).changed)
unfolding run
run_wakes [] ev = inl (record { results = refl; pending = refl })
run_wakes (c ∷ cs) ev =
    ground (arith, call-Effect c ev, run-monotone cs (call ev c), run_wakes cs (call ev c))
