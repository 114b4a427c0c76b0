-- ===== src/Scope/Emission/Evolution.antt =====
-- The steps of an emission lose no delivery record and change none that is settled.
use mathlib.Core.Path.{subst}
use agent_cdp.Prelude.{
  ℕ, ◌+◌, ◌≡◌, refl, sym, Option, none, some, lookup, if_ind, if◌then◌else◌, lookup-insert, arith,
}
use agent_cdp.Events.Values.{Exc, Value, Outcome, return, raise, is_cancelled, async_handler_error}
use agent_cdp.Events.Delivery.{EventResult, ResultStatus}
use agent_cdp.Events.Event.{
  Event, Receiver, EmitPolicy, increment_pending, decrement_pending, notify_changed, mark_running,
  record_result, set_cancel_callback,
}
use agent_cdp.Connection.{Connection, is_direct}
use agent_cdp.Scope.Queue.{
  System, Loop, put, or_kept, prepared, refuses, rejection, reject, admit, enqueue, direct_started,
}
use agent_cdp.Scope.Queue.Records.{
  Keeps, record_result-Keeps, mark_running-Keeps, decrement_pending-Keeps, prepared-Keeps,
}
use agent_cdp.Scope.Queue.Growth.{Grows, put-Grows, Grows-trans}
use agent_cdp.Scope.Cancellation.Standing.{
  Stands, AllStand, AllStand-refl, AllStand-trans, put-AllStand, record_result-Stands,
}
use agent_cdp.Scope.Emission.{
  World, Handled, returned, coroutine, awaitable, raised, put_event, put_loop, record_handled,
  count_direct, target_of, resolve_mode, dispatch_marked, dispatch_direct, dispatch_queued,
  dispatch,
}

pub record Evolves (old new : ℕ → Event) : Type 0 where
  pub stand : AllStand old new
  pub grow : Grows old new

pub Evolves-refl : (events : ℕ → Event) → Evolves events events
Evolves-refl events = record { stand = AllStand-refl events; grow = λ e j h. h }

pub Evolves-trans : {a b c : ℕ → Event} → Evolves a b → Evolves b c → Evolves a c
Evolves-trans {a} {b} {c} h g = record {
  stand = AllStand-trans h.stand g.stand;
  grow = Grows-trans a b c h.grow g.grow;
}

pub put-Evolves :
    (e : ℕ) (ev : Event) (events : ℕ → Event)
    → Stands (events e) ev
    → Keeps (events e) ev
    → Evolves events (put e ev events)
put-Evolves e ev events h k = record {
  stand = put-AllStand e ev events h;
  grow = put-Grows e ev events k;
}

mark_running-Stands : (now cid : ℕ) (ev : Event) → Stands ev (or_kept ev (mark_running now cid ev))
unfolding mark_running notify_changed
mark_running-Stands now cid ev j r h t = grind (arith, lookup-insert)

prepared-Stands :
    (now : ℕ) (c : Receiver) (source_id : ℕ) (l : Loop) (ev : Event)
    → Stands ev (prepared now c source_id l ev)
unfolding prepared notify_changed
prepared-Stands now c source_id l ev j r h t = grind (arith, lookup-insert)

record_result-Evolves :
    (now e cid name : ℕ) (result : Option Value) (error : Option Exc) (status : Option ResultStatus)
    (events : ℕ → Event)
    → Evolves events (put e (record_result now cid name result error status (events e)) events)
record_result-Evolves now e cid name result error status events =
    put-Evolves e _ events (record_result-Stands now cid name result error status (events e))
      (record_result-Keeps now cid name result error status (events e))

pub record_handled-Evolves :
    (now e : ℕ) (c : Receiver) (h : Handled) (events : ℕ → Event)
    → Evolves events (put e (record_handled now c h (events e)) events)
unfolding record_handled
record_handled-Evolves now e c (returned v) events =
    record_result-Evolves now e c.id c.handler_name v none none events
record_handled-Evolves now e c coroutine events =
    record_result-Evolves now e c.id c.handler_name none (some async_handler_error) none events
record_handled-Evolves now e c awaitable events =
    record_result-Evolves now e c.id c.handler_name none (some async_handler_error) none events
record_handled-Evolves now e c (raised x) events =
    record_result-Evolves now e c.id c.handler_name none (some x)
      (if is_cancelled x then some ResultStatus.cancelled else none) events

reject-Evolves :
    (now e : ℕ) (c : Receiver) (error : Exc) (s : System)
    → Evolves s.events (reject now e c error s).events
unfolding reject decrement_pending
reject-Evolves now e c error s =
    let ev =
      record_result now c.id c.handler_name none (some error) (some ResultStatus.rejected)
        (s.events e) in
    put-Evolves e (decrement_pending ev) s.events
      (record_result-Stands now c.id c.handler_name none (some error) (some ResultStatus.rejected)
        (s.events e))
      (λ j h. decrement_pending-Keeps ev j (
        record_result-Keeps now c.id c.handler_name none (some error) (some ResultStatus.rejected)
          (s.events e) j h))

admit-Evolves : (now e : ℕ) (c : Receiver) (s : System) → Evolves s.events (admit now e c s).events
unfolding admit set_cancel_callback
admit-Evolves now e c s = put-Evolves e _ s.events (λ j r h t. h) (λ j h. h)

enqueue-Evolves :
    (now e : ℕ) (c : Receiver) (source_id : ℕ) (s : System)
    → Evolves s.events (enqueue now e c source_id s).0.events
unfolding enqueue
enqueue-Evolves now e c source_id s =
    let ready : System = record {
      loop = record (s.loop) { sequence = s.loop.sequence + 1 };
      events = put e (prepared now c source_id s.loop (s.events e)) s.events;
    } in
    let first =
      put-Evolves e (prepared now c source_id s.loop (s.events e)) s.events
        (prepared-Stands now c source_id s.loop (s.events e))
        (prepared-Keeps now c source_id s.loop (s.events e)) in
    if_ind (λ (x : System × Option Exc). Evolves s.events x.0.events) (refuses ready.loop) _ _
      (λ _.
        Evolves-trans first
          (reject-Evolves now e c (rejection ready.loop (ready.events e) c) ready))
      (λ _. Evolves-trans first (admit-Evolves now e c ready))

-- Handlers that lose no record and change none that is settled.
abbrev pub Orderly : (ℕ → ℕ → World → World × Handled) → Type 0
Orderly handlers = (cid e : ℕ) (w : World) → Evolves w.events (handlers cid e w).0.events

count_direct-events :
    (now t : ℕ) (started : ℕ × ℕ) (o : Option EventResult) (w : World)
    → (count_direct now t started o w).events ≡ w.events
count_direct-events now t started none w = refl
count_direct-events now t started (some r) w = refl

module _ (handlers : ℕ → ℕ → World → World × Handled) (now later source : ℕ) where
  dispatch_marked-Evolves :
      Orderly handlers
      → (e : ℕ) (c : Connection) (policy : EmitPolicy) (started : ℕ × ℕ) (o : Outcome Event)
        (w : World)
      → Evolves w.events (put e (or_kept (w.events e) o) w.events)
      → Evolves w.events (dispatch_marked handlers now later source e c policy started o w).0.events
  dispatch_marked-Evolves orderly e c policy started (raise x) w h = Evolves-refl w.events
  dispatch_marked-Evolves orderly e c policy started (return ev) w h =
      let (w', handled) = handlers c.id e (put_event e ev w) in
      let ended = put_event e (record_handled later c.receiver handled (w'.events e)) w' in
      subst (Evolves w.events)
        (sym (
          count_direct-events later (target_of source c.target_scope) started
            (lookup c.id (ended.events e).event_results) ended))
        (Evolves-trans h (
          Evolves-trans (orderly c.id e (put_event e ev w))
            (record_handled-Evolves later e c.receiver handled w'.events)))

  dispatch_direct-Evolves :
      Orderly handlers
      → (e : ℕ) (c : Connection) (policy : EmitPolicy) (w : World)
      → Evolves w.events (dispatch_direct handlers now later source e c policy w).0.events
  unfolding dispatch_direct
  dispatch_direct-Evolves orderly e c policy w =
      let t = target_of source c.target_scope in
      let (l, n, began) = direct_started now (w.scopes t).event_loop in
      dispatch_marked-Evolves orderly e c policy (n, began) (mark_running now c.id (w.events e))
        (put_loop t l w)
        (put-Evolves e _ w.events (mark_running-Stands now c.id (w.events e))
          (mark_running-Keeps now c.id (w.events e)))

  dispatch_queued-Evolves :
      (e : ℕ) (c : Connection) (w : World)
      → Evolves w.events (dispatch_queued handlers now later source e c w).0.events
  unfolding dispatch_queued increment_pending
  dispatch_queued-Evolves e c w =
      let s : System = record {
        loop = (w.scopes (target_of source c.target_scope)).event_loop;
        events = put e (increment_pending (w.events e)) w.events;
      } in
      Evolves-trans
        (put-Evolves e (increment_pending (w.events e)) w.events (λ j r h t. h) (λ j h. h))
        (enqueue-Evolves now e c.receiver source s)

  pub dispatch-Evolves :
      Orderly handlers
      → (e : ℕ) (c : Connection) (policy : EmitPolicy) (w : World)
      → Evolves w.events (dispatch handlers now later source e c policy w).0.events
  unfolding dispatch
  dispatch-Evolves orderly e c policy w =
      if_ind (λ (x : World × Option Exc × Option Exc). Evolves w.events x.0.events)
        (is_direct (resolve_mode source c.mode c.target_scope)) _ _
        (λ _. dispatch_direct-Evolves orderly e c policy w) (λ _. dispatch_queued-Evolves e c w)
