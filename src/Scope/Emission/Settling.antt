-- ===== src/Scope/Emission/Settling.antt =====
-- What direct dispatch and the end of `emit` leave on the event.
use mathlib.Core.Path.{subst}
use agent_cdp.Prelude.{
  ℕ, ◌≡◌, refl, sym, true, Option, none, some, List, [], ◌∷◌, All, lookup, ◌==◌, ==_refl, if_true,
  if_ind, arith,
}
use agent_cdp.Events.Values.{cancelled_error, async_handler_error, is_cancelled, return}
use agent_cdp.Events.Delivery.{EventResult, ResultStatus, is_terminal}
use agent_cdp.Events.Event.{Event, Receiver, EmitPolicy, mark_running}
use agent_cdp.Events.Event.Settlement.{EndsDelivery, record_result_terminal}
use agent_cdp.Scope.Cancellation.Standing.{record_result-Stands}
use agent_cdp.Connection.{Connection}
use agent_cdp.Scope.Queue.{or_kept, direct_started}
use agent_cdp.Scope.Emission.{
  World, Handled, returned, coroutine, awaitable, raised, record_handled, cancel_skipped,
  dispatch_direct, count_direct, target_of, put_event, put_loop,
}

abbrev pub Settled : ℕ → Event → Type 0
Settled cid ev = (r : EventResult) × (lookup cid ev.event_results ≡ some r) × (is_terminal r ≡ true)

pub cancel_skipped_stays :
    (now : ℕ) (cs : List Connection) (ev : Event) (j : ℕ) (r : EventResult)
    → lookup j ev.event_results ≡ some r
    → is_terminal r ≡ true
    → lookup j (cancel_skipped now cs ev).event_results ≡ some r
unfolding cancel_skipped
cancel_skipped_stays now [] ev j r e t = e
cancel_skipped_stays now (c ∷ cs) ev j r e t =
    cancel_skipped_stays now cs _ j r
      (record_result-Stands now c.id c.handler_name none (some cancelled_error)
        (some ResultStatus.cancelled) ev j r e t)
      t

pub settled_stays :
    (now j : ℕ) (cs : List Connection) (ev : Event)
    → Settled j ev
    → Settled j (cancel_skipped now cs ev)
settled_stays now j cs ev (r, e, t) = (r, cancel_skipped_stays now cs ev j r e t, t)

pub cancel_skipped-Settled :
    (now : ℕ) (cs : List Connection) (ev : Event)
    → All (λ (c : Connection). Settled c.id (cancel_skipped now cs ev)) cs
unfolding cancel_skipped
cancel_skipped-Settled now [] ev = tt
cancel_skipped-Settled now (c ∷ cs) ev = (
  settled_stays now c.id cs _ (
      record_result_terminal now c.id c.handler_name none (some cancelled_error)
        (some ResultStatus.cancelled) ev refl),
  cancel_skipped-Settled now cs _,
)

-- The receivers that an emission did not reach are cancelled at its end: each has a settled delivery,
-- and the deliveries that were settled before still are, with the first result that they had.
pub cancel_skipped_lem :
    (now : ℕ) (cs : List Connection) (ev : Event)
    → All (λ (c : Connection). Settled c.id (cancel_skipped now cs ev)) cs
      × ((j : ℕ) (r : EventResult)
          → lookup j ev.event_results ≡ some r
          → is_terminal r ≡ true
          → lookup j (cancel_skipped now cs ev).event_results ≡ some r)
cancel_skipped_lem now cs ev = (cancel_skipped-Settled now cs ev, cancel_skipped_stays now cs ev)

handled-Settled :
    (now : ℕ) (c : Receiver) (h : Handled) (ev : Event) → Settled c.id (record_handled now c h ev)
unfolding record_handled
handled-Settled now c (returned v) ev =
    record_result_terminal now c.id c.handler_name v none none ev tt
handled-Settled now c coroutine ev =
    record_result_terminal now c.id c.handler_name none (some async_handler_error) none ev tt
handled-Settled now c awaitable ev =
    record_result_terminal now c.id c.handler_name none (some async_handler_error) none ev tt
handled-Settled now c (raised e) ev =
    record_result_terminal now c.id c.handler_name none (some e) _ ev (
      if_ind EndsDelivery (is_cancelled e) (some ResultStatus.cancelled) none (λ _. refl) (λ _. tt))

ended-Settled :
    (now t e cid : ℕ) (started : ℕ × ℕ) (o : Option EventResult) (ev : Event) (w : World)
    → Settled cid ev
    → Settled cid ((count_direct now t started o (put_event e ev w)).events e)
ended-Settled now t e cid started none ev w h =
    subst (Settled cid) (sym (if_true (e == e) ev (w.events e) (==_refl e))) h
ended-Settled now t e cid started (some r) ev w h =
    subst (Settled cid) (sym (if_true (e == e) ev (w.events e) (==_refl e))) h

marks_known :
    (now cid : ℕ) (r : EventResult) (ev : Event)
    → lookup cid ev.event_results ≡ some r
    → (marked : Event) × (mark_running now cid ev ≡ return marked)
unfolding mark_running
marks_known now cid r ev known = (or_kept ev (mark_running now cid ev), ground arith)

-- A direct dispatch of a delivery that is there settles it, whatever the handler does to the event
-- and to anything else, and however it ends.
pub dispatch_direct-Settled :
    (handlers : ℕ → ℕ → World → World × Handled) (now later source e : ℕ) (c : Connection)
    (policy : EmitPolicy) (w : World) (r : EventResult)
    → lookup c.id (w.events e).event_results ≡ some r
    → Settled c.id ((dispatch_direct handlers now later source e c policy w).0.events e)
unfolding dispatch_direct
dispatch_direct-Settled handlers now later source e c policy w r known =
    let (marked, m) = marks_known now c.id r (w.events e) known in
    let t = target_of source c.target_scope in
    let begun = put_loop t (direct_started now (w.scopes t).event_loop).0 w in
    let (w', handled) = handlers c.id e (put_event e marked begun) in
    rw m (
      ended-Settled later t e c.id _ _ (record_handled later c.receiver handled (w'.events e)) w'
        (handled-Settled later c.receiver handled (w'.events e)))
