-- ===== src/Scope/Cancellation/Standing.antt =====
-- Cancelling a delivery in a queue leaves the records alone that are settled (`Cancellation`).
use mathlib.Core.Path.{subst}
use agent_cdp.Prelude.{
  ℕ, ◌≡◌, sym, ap, ◌∙◌, Bool, true, Option, none, some, inl, inr, ◌==◌, lookup, has_key,
  lookup-insert, Bool-cases, if_ind, ==_iff, arith,
}
use agent_cdp.Events.Values.{Value, Exc, cancelled_error}
use agent_cdp.Events.Delivery.{ResultStatus, EventResult, is_terminal}
use agent_cdp.Events.Event.{
  Event, mark_cancel_requested, record_result, decrement_pending, notify_changed,
}
use agent_cdp.Events.Event.Frame.{record_result_others}
use agent_cdp.Events.Event.Settlement.{record_result_settled}
use agent_cdp.Scope.Queue.{
  System, Delivery, put, or_kept, leave_with, finish_delivery, request_cancel, cancel_queued,
  cancel_active, cancel_pending, cancel_delivery,
}

-- The settled records of an event stand.
abbrev pub Stands : Event → Event → Type 0
Stands old new =
    (j : ℕ) (r : EventResult)
    → lookup j old.event_results ≡ some r
    → is_terminal r ≡ true
    → lookup j new.event_results ≡ some r

-- Those of every event.
pub record AllStand (old new : ℕ → Event) : Type 0 where
  pub stands : (e : ℕ) → Stands (old e) (new e)

pub AllStand-refl : (events : ℕ → Event) → AllStand events events
AllStand-refl events = record { stands = λ e j r h t. h }

pub AllStand-trans : {a b c : ℕ → Event} → AllStand a b → AllStand b c → AllStand a c
AllStand-trans h g = record { stands = λ e j r k t. g.stands e j r (h.stands e j r k t) t }

pub put-AllStand :
    (e : ℕ) (ev : Event) (events : ℕ → Event)
    → Stands (events e) ev
    → AllStand events (put e ev events)
put-AllStand e ev events h = record {
  stands = λ k.
      if_ind (λ new. Stands (events k) new) (k == e) ev (events k)
        (λ same. subst (λ i. Stands (events i) ev) (sym ((==_iff k e).0 same)) h) (λ _ j r g t. g);
}

pub record_result-Stands :
    (now cid name : ℕ) (result : Option Value) (error : Option Exc) (status : Option ResultStatus)
    (ev : Event)
    → Stands ev (record_result now cid name result error status ev)
record_result-Stands now cid name result error status ev j r h t = elim (Bool-cases (j == cid)) [
  | inl same ↦
      let here = ap (λ i. lookup i ev.event_results) (sym ((==_iff j cid).0 same)) ∙ h in
      ap (λ (new : Event). lookup j new.event_results)
        (record_result_settled now cid name result error status r ev here t)
      ∙ h
  | inr other ↦ (record_result_others now cid name j result error status ev other).result ∙ h
]

pub request_cancel-Stands :
    (cid : ℕ) (ev : Event) → Stands ev (or_kept ev (mark_cancel_requested cid ev))
unfolding mark_cancel_requested notify_changed
request_cancel-Stands cid ev j r h t = grind (arith, lookup-insert)

request_cancel-AllStand :
    (d : Delivery) (s : System) → AllStand s.events (request_cancel d s).events
request_cancel-AllStand d s =
    put-AllStand d.event _ s.events (request_cancel-Stands d.connection.id (s.events d.event))

leave_with-AllStand :
    (now : ℕ) (d : Delivery) (o : Option EventResult) (s : System)
    → AllStand s.events (leave_with now d o s).events
unfolding decrement_pending
leave_with-AllStand now d none s = AllStand-refl s.events
leave_with-AllStand now d (some r) s =
    put-AllStand d.event (decrement_pending (s.events d.event)) s.events (λ j r h t. h)

finish_delivery-AllStand :
    (now : ℕ) (d : Delivery) (s : System) → AllStand s.events (finish_delivery now d s).events
unfolding finish_delivery
finish_delivery-AllStand now d s =
    if_ind (λ (t : System). AllStand s.events t.events) (has_key d.sequence s.loop.pending) _ s
      (λ _. leave_with-AllStand now d (lookup d.connection.id (s.events d.event).event_results) s)
      (λ _. AllStand-refl s.events)

-- A queued delivery: asked, settled, gone.
cancel_queued-AllStand :
    (now : ℕ) (d : Delivery) (s : System) → AllStand s.events (cancel_queued now d s).events
unfolding cancel_queued
cancel_queued-AllStand now d s =
    let asked = request_cancel d s in
    let ended =
      record_result now d.connection.id d.connection.handler_name none (some cancelled_error)
        (some ResultStatus.cancelled) (asked.events d.event) in
    let settled : System = record asked { events = put d.event ended asked.events } in
    AllStand-trans (request_cancel-AllStand d s) (
      AllStand-trans
        (put-AllStand d.event ended asked.events (
          record_result-Stands now d.connection.id d.connection.handler_name none
            (some cancelled_error) (some ResultStatus.cancelled) (asked.events d.event)))
        (finish_delivery-AllStand now d settled))

cancel_active-AllStand : (d : Delivery) (s : System) → AllStand s.events (cancel_active d s).events
unfolding cancel_active
cancel_active-AllStand d s =
    if_ind (λ (t : System). AllStand s.events t.events) d.cancel_sent s _
      (λ _. AllStand-refl s.events) (λ _. request_cancel-AllStand d s)

cancel_pending-AllStand :
    (now : ℕ) (d : Delivery) (include_running : Bool) (a : Option Delivery) (s : System)
    → AllStand s.events (cancel_pending now d include_running a s).events
cancel_pending-AllStand now d include_running none s = cancel_queued-AllStand now d s
cancel_pending-AllStand now d include_running (some a) s =
    if_ind (λ (t : System). AllStand s.events t.events) (d.sequence == a.sequence) _ _
      (λ _.
        if_ind (λ (t : System). AllStand s.events t.events) include_running _ s
          (λ _. cancel_active-AllStand a s) (λ _. AllStand-refl s.events))
      (λ _. cancel_queued-AllStand now d s)

pub cancel_delivery-AllStand :
    (now : ℕ) (d : Delivery) (include_running : Bool) (s : System)
    → AllStand s.events (cancel_delivery now d include_running s).events
unfolding cancel_delivery
cancel_delivery-AllStand now d include_running s =
    if_ind (λ (t : System). AllStand s.events t.events) (has_key d.sequence s.loop.pending) _ s
      (λ _. cancel_pending-AllStand now d include_running s.loop.active s)
      (λ _. AllStand-refl s.events)
