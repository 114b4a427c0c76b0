-- ===== src/Connection.antt =====
-- src/agent_cdp/connection: dispatch modes, the link between a source scope, an event type and a
-- handler, and the check of a handler against its mode. A class is a number, `BaseEvent` is 0. What
-- `inspect` reports of a callable is a parameter of the model.
pub mod Modes
use agent_cdp.Prelude.{
  ℕ, Bool, true, false, not, ◌&&◌, ◌||◌, Option, none, some, List, if◌then◌else◌, ◌==◌, ℤ, is_key,
}
use agent_cdp.Events.Values.{
  Exc, type_error, runtime_error, async_handler_error, Outcome, return, raise, ◌>>=◌,
}
use agent_cdp.Events.Contracts.{Participation, ResultContract}
use agent_cdp.Events.Event.{Event, Receiver}

pub data ConnectionType : Type 0 where
  direct queued auto : ConnectionType

-- What a filter did when it was called: it returned a value that is true or false, or raised an
-- Exception, or a cancellation, which is none.
pub data FilterVerdict : Type 0 where
  passes blocks raises cancels : FilterVerdict

pub record Connection : Type 0 where
  pub receiver : Receiver
  pub open receiver use *
  pub source_scope : ℕ
  pub event_type : ℕ
  pub target_scope : Option ℕ
  pub mode : ConnectionType
  pub filter : Option (Event → FilterVerdict)
  pub priority : ℤ

-- `target is not None and target is not source`, for references that may be dead.
abbrev pub crosses : ℕ → Option ℕ → Bool
crosses source none = false
crosses source (some target) = not (target == source)

-- The mode that `__post_init__` checks a handler for.
unfoldable pub effective_mode : ConnectionType → ℕ → Option ℕ → ConnectionType
effective_mode ConnectionType.auto source target =
    if crosses source target then ConnectionType.queued else ConnectionType.direct
effective_mode mode source target = mode

-- The return annotation of a callable, as far as the check tells annotations apart.
pub data Annotation : Type 0 where
  unreadable missing any text awaitable plain custom : Annotation

-- What `inspect` says of a handler and, where it is an object, of its `__call__`.
pub record Shape : Type 0 where
  pub callable : Bool
  pub is_async_generator : Bool
  pub is_coroutine : Bool
  pub annotation : Annotation

abbrev pub is_direct : ConnectionType → Bool
is_direct ConnectionType.direct = true
is_direct _ = false

abbrev is_queued : ConnectionType → Bool
is_queued ConnectionType.queued = true
is_queued _ = false

-- A return type of which no value is awaitable.
abbrev is_plain : Annotation → Bool
is_plain Annotation.plain = true
is_plain _ = false

-- `validate_handler_mode`
unfoldable pub validate_handler_mode : Shape → ConnectionType → Outcome (Unit {0})
validate_handler_mode shape mode =
    if not shape.callable
    then raise type_error
    else if shape.is_async_generator
    then raise async_handler_error
    else if is_direct mode && shape.is_coroutine
    then raise async_handler_error
    else if not (is_queued mode) || shape.is_coroutine
    then return tt
    else if is_plain shape.annotation
    then raise async_handler_error
    else return tt

-- The checks of `connect` before a connection is made. `is_event` says whether a class derives
-- from BaseEvent; `closed` is the scope's flag.
unfoldable pub check_connect :
    (is_event : ℕ → Bool) (closed : ℕ → Bool) (event_type source : ℕ) (target : Option ℕ)
    → Outcome (Unit {0})
check_connect is_event closed event_type source target =
    if event_type == 0
    then raise type_error
    else if not (is_event event_type)
    then raise type_error
    else if closed source || (elim target [ none ↦ false | some t ↦ closed t ])
    then raise runtime_error
    else return tt
