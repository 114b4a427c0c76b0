-- ===== src/Events/Delivery.antt =====
-- src/agent_cdp/events/result.py: the record of one delivery and its diagnostic snapshot.
-- Times are whole microseconds; `now` is the clock at the call.
pub mod Durations
pub mod Transitions
use agent_cdp.Prelude.{
  ℕ, ◌-◌, Bool, true, false, not, ◌&&◌, ◌||◌, Option, none, some, List, [], is_some, or_else,
  get_or_else, if◌then◌else◌,
}
use agent_cdp.Events.Values.{Value, Exc, value_error, Outcome, return, raise, ◌>>=◌}
use agent_cdp.Events.Contracts.{Participation}

pub data ResultStatus : Type 0 where
  pending queued running completed failed timeout cancelled rejected : ResultStatus

pub record EventResult : Type 0 where
  pub handler_name : ℕ
  pub connection_id : ℕ
  pub result : Option Value
  pub error : Option Exc
  pub status : ResultStatus
  pub event_children : List ℕ
  pub started_at : Option ℕ
  pub completed_at : Option ℕ
  pub event_id : ℕ
  pub event_type : ℕ
  pub source_scope_id : ℕ
  pub scope_id : ℕ
  pub participation : Participation
  pub receiver_key : Option ℕ
  pub queued_at : Option ℕ
  pub cancel_requested : Bool
  pub business_error : Option Exc

-- The status part of `is_terminal`.
abbrev pub is_open : ResultStatus → Bool
is_open ResultStatus.pending = true
is_open ResultStatus.queued = true
is_open ResultStatus.running = true
is_open _ = false

abbrev pub is_completed : ResultStatus → Bool
is_completed ResultStatus.completed = true
is_completed _ = false

abbrev pub is_failed : ResultStatus → Bool
is_failed ResultStatus.failed = true
is_failed _ = false

abbrev pub is_timed_out : ResultStatus → Bool
is_timed_out ResultStatus.timeout = true
is_timed_out _ = false

abbrev pub is_cancelled_status : ResultStatus → Bool
is_cancelled_status ResultStatus.cancelled = true
is_cancelled_status _ = false

abbrev pub is_running : ResultStatus → Bool
is_running ResultStatus.running = true
is_running _ = false

unfoldable pub is_terminal : EventResult → Bool
is_terminal r = not (is_open r.status)

unfoldable pub queue_duration : ℕ → EventResult → ℕ
queue_duration now r = elim r.queued_at [
  | none ↦ 0
  | some q ↦ get_or_else (or_else r.started_at r.completed_at) now - q
]

unfoldable pub execution_duration : ℕ → EventResult → ℕ
execution_duration now r = elim r.started_at [
  | none ↦ 0
  | some s ↦ get_or_else r.completed_at now - s
]

unfoldable pub cancelled_before_start : EventResult → Bool
cancelled_before_start r = is_cancelled_status r.status && not (is_some r.started_at)

unfoldable pub is_success : EventResult → Bool
is_success r = is_completed r.status && not (is_some r.error) && not (is_some r.business_error)

-- `_check_pending`
unfoldable pub check_pending : EventResult → Outcome EventResult
unfolding is_terminal
check_pending r = if is_terminal r then raise value_error else return r

unfoldable pub mark_completed : ℕ → Option Value → EventResult → Outcome EventResult
unfolding check_pending
mark_completed now value r = check_pending r >>= λ r.
    return (record r { status = ResultStatus.completed; result = value; completed_at = some now })

unfoldable pub mark_failed : ℕ → Exc → EventResult → Outcome EventResult
unfolding check_pending
mark_failed now e r = check_pending r >>= λ r.
    return (record r { status = ResultStatus.failed; error = some e; completed_at = some now })

unfoldable pub mark_timeout : ℕ → Exc → EventResult → Outcome EventResult
unfolding check_pending
mark_timeout now e r = check_pending r >>= λ r.
    return (record r { status = ResultStatus.timeout; error = some e; completed_at = some now })

pub record DeliveryDiagnostic : Type 0 where
  pub event_id : ℕ
  pub event_type : ℕ
  pub connection_id : ℕ
  pub handler_name : ℕ
  pub source_scope_id : ℕ
  pub scope_id : ℕ
  pub status : ResultStatus
  pub queue_duration : ℕ
  pub execution_duration : ℕ
  pub cancel_requested : Bool

-- `DeliveryDiagnostic.from_result`
unfoldable pub diagnostic : ℕ → EventResult → DeliveryDiagnostic
unfolding queue_duration execution_duration
diagnostic now r = record {
  event_id = r.event_id;
  event_type = r.event_type;
  connection_id = r.connection_id;
  handler_name = r.handler_name;
  source_scope_id = r.source_scope_id;
  scope_id = r.scope_id;
  status = r.status;
  queue_duration = queue_duration now r;
  execution_duration = execution_duration now r;
  cancel_requested = r.cancel_requested;
}
