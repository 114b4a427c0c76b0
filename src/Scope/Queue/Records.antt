-- ===== src/Scope/Queue/Records.antt =====
-- The delivery records of an event under its methods.
use agent_cdp.Prelude.{
  ℕ, ◌≡◌, ap, inl, inr, Bool-cases, lookup-insert_self, true, Option, has_key, is_some,
  lookup-insert, Dict, insert, arith,
}
use agent_cdp.Events.Values.{return, Value, Exc}
use agent_cdp.Events.Delivery.{ResultStatus, EventResult}
use agent_cdp.Events.Event.{
  Event, Receiver, prepare_delivery, mark_running, mark_cancel_requested, set_cancel_callback,
  record_result, decrement_pending, notify_changed, finish,
}
use agent_cdp.Scope.Queue.{or_kept, prepared, Loop}

-- Every connection with a record in `old` has one in `new`.
abbrev pub Keeps : Event → Event → Type 0
Keeps old new = (j : ℕ) → has_key j old.event_results ≡ true → has_key j new.event_results ≡ true

pub has_key-insert :
    (j k : ℕ) (r : EventResult) (d : Dict EventResult)
    → has_key j d ≡ true
    → has_key j (insert k r d) ≡ true
has_key-insert j k r d h = ground (arith, lookup-insert k j r d)

pub record_result-Keeps :
    (now cid name : ℕ) (result : Option Value) (error : Option Exc) (status : Option ResultStatus)
    (ev : Event)
    → Keeps ev (record_result now cid name result error status ev)
unfolding record_result finish notify_changed
record_result-Keeps now cid name result error status ev j h = grind (arith, has_key-insert)

pub mark_running-Keeps :
    (now cid : ℕ) (ev : Event) → Keeps ev (or_kept ev (mark_running now cid ev))
unfolding mark_running
mark_running-Keeps now cid ev j h = grind (arith, has_key-insert)

pub mark_running-returns :
    (now cid : ℕ) (ev : Event)
    → has_key cid ev.event_results ≡ true
    → mark_running now cid ev ≡ return (or_kept ev (mark_running now cid ev))
unfolding mark_running
mark_running-returns now cid ev known = ground arith

pub request_cancel-Keeps :
    (cid : ℕ) (ev : Event) → Keeps ev (or_kept ev (mark_cancel_requested cid ev))
unfolding mark_cancel_requested
request_cancel-Keeps cid ev j h = grind (arith, has_key-insert)

pub decrement_pending-Keeps : (ev : Event) → Keeps ev (decrement_pending ev)
unfolding decrement_pending
decrement_pending-Keeps ev j h = h

pub set_cancel_callback-Keeps :
    (cid : ℕ) (callback : ℕ × ℕ) (ev : Event) → Keeps ev (set_cancel_callback cid callback ev)
unfolding set_cancel_callback
set_cancel_callback-Keeps cid callback ev j h = h

pub prepared-Keeps :
    (now : ℕ) (c : Receiver) (source_id : ℕ) (l : Loop) (ev : Event)
    → Keeps ev (prepared now c source_id l ev)
unfolding prepared notify_changed
prepared-Keeps now c source_id l ev j h = grind (arith, has_key-insert)

has_key-insert_self :
    (k : ℕ) (r : EventResult) (d : Dict EventResult) → has_key k (insert k r d) ≡ true
has_key-insert_self k r d = ap is_some (lookup-insert_self k r d)

prepare_delivery-has_key :
    (now : ℕ) (c : Receiver) (source_id scope_id : ℕ) (ev : Event)
    → has_key c.id (prepare_delivery now c source_id scope_id true ev).event_results ≡ true
unfolding prepare_delivery
prepare_delivery-has_key now c source_id scope_id ev = has_key-insert_self c.id _ ev.event_results

-- The record that an admission rests on.
pub prepared-has_key :
    (now : ℕ) (c : Receiver) (source_id : ℕ) (l : Loop) (ev : Event)
    → has_key c.id (prepared now c source_id l ev).event_results ≡ true
unfolding prepared
prepared-has_key now c source_id l ev = elim (Bool-cases (has_key c.id ev.event_results)) [
  | inl h ↦ rw h h
  | inr h ↦ rw h (prepare_delivery-has_key now c source_id l.scope_id ev)
]
