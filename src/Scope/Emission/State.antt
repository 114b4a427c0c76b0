-- ===== src/Scope/Emission/State.antt =====
-- scope.py: the state that an emission changes, and the steps around the calls of handlers.
use agent_cdp.Prelude.{
  ℕ, ◌-◌, Bool, true, not, ◌&&◌, Option, none, some, List, [], ◌∷◌, ◌++◌, length, ltb, ◌==◌,
  if◌then◌else◌, drop, or_else,
}
use agent_cdp.Events.Values.{
  Value, Exc, cancelled_error, async_handler_error, is_cancelled, Outcome, return, raise,
}
use agent_cdp.Events.Delivery.{ResultStatus, EventResult}
use agent_cdp.Events.Event.{
  EmitPolicy, Receiver, Event, prepare_delivery, set_delivery_scope, record_result,
}
use agent_cdp.Connection.{is_direct, ConnectionType, FilterVerdict, Connection}
use agent_cdp.Scope.Matching.{Matcher}
use agent_cdp.Scope.Queue.{Loop, put, direct_finished}

-- The fields of `EventScope` that emission uses.
pub record EventScope : Type 0 where
  pub event_loop : Loop
  pub matcher : Matcher
  pub incoming : List Connection
  pub closed : Bool
  pub event_history : List ℕ
  pub max_history_size : ℕ

-- The state of the program, with the context variables `_emit_depth` and `_current_event`.
pub record World : Type 0 where
  pub scopes : ℕ → EventScope
  pub events : ℕ → Event
  pub active : ℕ → Bool
  pub emit_depth : ℕ
  pub current_event : Option ℕ

-- What calling a direct handler did.
pub data Handled : Type 0 where
  returned : Option Value → Handled
  coroutine awaitable : Handled
  raised : Exc → Handled

abbrev pub put_scope : ℕ → EventScope → World → World
put_scope t scope w = record w { scopes = λ k. if k == t then scope else w.scopes k }

abbrev pub put_loop : ℕ → Loop → World → World
put_loop t l w = put_scope t (record (w.scopes t) { event_loop = l }) w

abbrev pub put_event : ℕ → Event → World → World
put_event e ev w = record w { events = put e ev w.events }

-- `_record_history`
unfoldable pub record_history : ℕ → EventScope → EventScope
record_history e s =
    if s.max_history_size == 0
    then s
    else let history = s.event_history ++ e ∷ [] in
      record s {
        event_history =
            if ltb s.max_history_size (length history)
            then drop (length history - s.max_history_size) history
            else history;
      }

-- `_resolve_mode` of the scope `source`.
unfoldable pub resolve_mode : ℕ → ConnectionType → Option ℕ → ConnectionType
resolve_mode source ConnectionType.auto none = ConnectionType.direct
resolve_mode source ConnectionType.auto (some target) =
    if target == source then ConnectionType.direct else ConnectionType.queued
resolve_mode source mode target = mode

-- The scope whose queue serves a connection.
abbrev pub target_of : ℕ → Option ℕ → ℕ
target_of source none = source
target_of source (some target) = target

abbrev pub is_open_target : World → Option ℕ → Bool
is_open_target w none = true
is_open_target w (some t) = not (w.scopes t).closed

abbrev pub filtered : Option (Event → FilterVerdict) → Event → FilterVerdict
filtered none ev = FilterVerdict.passes
filtered (some f) ev = f ev

-- A connection is kept, skipped, or its filter's cancellation leaves `emit`.
abbrev pub keep : Connection → FilterVerdict → Outcome (List Connection) → Outcome (List Connection)
keep c FilterVerdict.passes (return cs) = return (c ∷ cs)
keep c FilterVerdict.passes (raise e) = raise e
keep c FilterVerdict.cancels rest = raise cancelled_error
keep c _ rest = rest

-- The connections that apply: active, with an open target, and past their filters.
unfoldable pub applicable : World → Event → List Connection → Outcome (List Connection)
applicable w ev [] = return []
applicable w ev (c ∷ cs) =
    let rest = applicable w ev cs in
    if w.active c.id && is_open_target w c.target_scope
    then keep c (filtered c.filter ev) rest
    else rest

-- The records of all the connections, made before any handler runs.
unfoldable pub prepare_all : ℕ → ℕ → List Connection → Event → Event
unfolding prepare_delivery set_delivery_scope resolve_mode
prepare_all now source [] ev = ev
prepare_all now source (c ∷ cs) ev = prepare_all now source cs (
    set_delivery_scope c.id (target_of source c.target_scope) (
      prepare_delivery now c.receiver source (target_of source c.target_scope)
        (not (is_direct (resolve_mode source c.mode c.target_scope))) ev))

-- An exception is raised again under FAIL_FAST, and only recorded otherwise.
abbrev pub by_policy : EmitPolicy → Exc → Option Exc
by_policy EmitPolicy.fail_fast e = some e
by_policy EmitPolicy.collect_errors e = none

-- What `_dispatch_direct` records of the call.
unfoldable pub record_handled : ℕ → Receiver → Handled → Event → Event
unfolding record_result
record_handled now c (returned v) ev = record_result now c.id c.handler_name v none none ev
record_handled now c coroutine ev =
    record_result now c.id c.handler_name none (some async_handler_error) none ev
record_handled now c awaitable ev =
    record_result now c.id c.handler_name none (some async_handler_error) none ev
record_handled now c (raised e) ev =
    record_result now c.id c.handler_name none (some e)
      (if is_cancelled e then some ResultStatus.cancelled else none) ev

-- What it raises.
abbrev pub error_handled : EmitPolicy → Handled → Option Exc
error_handled policy (returned v) = none
error_handled policy coroutine = by_policy policy async_handler_error
error_handled policy awaitable = by_policy policy async_handler_error
error_handled policy (raised e) = by_policy policy e

abbrev pub count_direct : ℕ → ℕ → ℕ × ℕ → Option EventResult → World → World
count_direct now t started none w = w
count_direct now t (n, began) (some r) w =
    put_loop t (direct_finished now r n began (w.scopes t).event_loop) w

-- `_MAX_DIRECT_DEPTH`
abbrev pub max_direct_depth : ℕ
max_direct_depth = 16

-- Where the loop of `emit` ended.
pub record Dispatched : Type 0 where
  pub world : World
  pub rejection : Option Exc
  pub error : Option Exc
  pub skipped : List Connection

-- The receivers that dispatch did not reach.
unfoldable pub cancel_skipped : ℕ → List Connection → Event → Event
unfolding record_result
cancel_skipped now [] ev = ev
cancel_skipped now (c ∷ cs) ev = cancel_skipped now cs (
    record_result now c.id c.handler_name none (some cancelled_error) (some ResultStatus.cancelled)
      ev)

abbrev pub with_parent : World → Option ℕ → Event → Event
with_parent w none ev = ev
with_parent w (some parent) ev = record ev { event_parent_id = some (w.events parent).event_id }

-- What `emit` raises: a direct handler's exception, or a rejection of an event that is not to be
-- dropped.
abbrev pub raised_at_end : Dispatched → Event → Option Exc
raised_at_end ran ev = or_else ran.error (if ev.non_droppable then ran.rejection else none)
