-- ===== src/Events/Event/Results.antt =====
-- events/base.py: the methods of `BaseEvent` that make, change and settle delivery records.
use agent_cdp.Prelude.{
  ℕ, Bool, true, false, Option, none, some, List, [], ◌∷◌, ◌++◌, lookup, insert, erase,
  if◌then◌else◌,
}
use agent_cdp.Events.Values.{
  Value, Exc, key_error, is_cancelled, is_timeout, Outcome, return, raise,
}
use agent_cdp.Events.Contracts.{handler, is_handler, ResultContract, RequestContract}
use agent_cdp.Events.Contracts.Rules.{run_rules}
use agent_cdp.Events.Delivery.{ResultStatus, EventResult, is_terminal}
use agent_cdp.Events.Event.State.{Event, Receiver, notify_changed}

abbrev pub to_list : Option ResultContract → List ResultContract
to_list none = []
to_list (some rule) = rule ∷ []

-- The rules of the connection, then, for a handler, those of the request.
abbrev pub delivery_rules : Option RequestContract → Receiver → List ResultContract
delivery_rules none c = to_list c.result_contract
delivery_rules (some request) c =
    to_list c.result_contract
    ++ (if is_handler c.participation then to_list request.result_contract else [])

-- The record that `_prepare_delivery` makes. `source_id` is the scope id of the source, empty
-- (0) where it is gone.
unfoldable pub new_delivery : ℕ → Receiver → ℕ → ℕ → Bool → Event → EventResult
new_delivery now c source_id scope_id queued ev = record {
  handler_name = c.handler_name;
  connection_id = c.id;
  result = none;
  error = none;
  status = if queued then ResultStatus.queued else ResultStatus.pending;
  event_children = [];
  started_at = none;
  completed_at = none;
  event_id = ev.event_id;
  event_type = ev.event_type;
  source_scope_id = source_id;
  scope_id = scope_id;
  participation = c.participation;
  receiver_key = c.receiver_key;
  queued_at = if queued then some now else none;
  cancel_requested = false;
  business_error = none;
}

unfoldable pub prepare_delivery : ℕ → Receiver → ℕ → ℕ → Bool → Event → Event
unfolding notify_changed new_delivery
prepare_delivery now c source_id scope_id queued ev = notify_changed (record ev {
  event_results = insert c.id (new_delivery now c source_id scope_id queued ev) ev.event_results;
  result_contracts = insert c.id (delivery_rules ev.request_contract c) ev.result_contracts;
})

-- `_mark_running`: a connection without a delivery is a KeyError, a settled one stays.
unfoldable pub mark_running : ℕ → ℕ → Event → Outcome Event
unfolding is_terminal notify_changed
mark_running now cid ev = elim (lookup cid ev.event_results) [
  | none ↦ raise key_error
  | some current ↦
      if is_terminal current
      then return ev
      else return (
          notify_changed (record ev {
            event_results =
                insert cid (record current { status = ResultStatus.running; started_at = some now })
                  ev.event_results;
          }))
]

unfoldable pub mark_cancel_requested : ℕ → Event → Outcome Event
unfolding is_terminal notify_changed
mark_cancel_requested cid ev = elim (lookup cid ev.event_results) [
  | none ↦ raise key_error
  | some current ↦
      if is_terminal current
      then return ev
      else return (
          notify_changed (record ev {
            event_results =
                insert cid (record current { cancel_requested = true }) ev.event_results;
          }))
]

unfoldable pub set_delivery_scope : ℕ → ℕ → Event → Event
set_delivery_scope cid token ev = record ev {
  delivery_scope_tokens = insert cid token ev.delivery_scope_tokens;
}

unfoldable pub set_cancel_callback : ℕ → ℕ × ℕ → Event → Event
set_cancel_callback cid callback ev = record ev {
  cancel_callbacks = insert cid callback ev.cancel_callbacks;
}

-- `_finish`
unfoldable pub finish : ℕ → Event → Event
unfolding notify_changed
finish cid ev = notify_changed (record ev {
  delivery_scope_tokens = erase cid ev.delivery_scope_tokens;
  cancel_callbacks = erase cid ev.cancel_callbacks;
  result_contracts = erase cid ev.result_contracts;
})

-- The status that `record_result` reads off the error where none is given.
unfoldable pub classify : Option Exc → ResultStatus
classify none = ResultStatus.completed
classify (some e) =
    if is_cancelled e
    then ResultStatus.cancelled
    else if is_timeout e
    then ResultStatus.timeout
    else ResultStatus.failed

abbrev pub given_or_classified : Option ResultStatus → Option Exc → ResultStatus
given_or_classified none error = classify error
given_or_classified (some status) error = status

-- What a settlement writes.
pub record Settled : Type 0 where
  pub status : ResultStatus
  pub error : Option Exc
  pub business_error : Option Exc

-- The business check of a completed result. A rule that cancels itself turns the settlement
-- into a cancellation.
unfoldable pub judge_result :
    List ResultContract → Option Value → Option Exc → ResultStatus → Settled
unfolding run_rules
judge_result rules result error ResultStatus.completed = elim (run_rules rules result) [
  | none ↦ record { status = ResultStatus.completed; error = error; business_error = none }
  | some e ↦
      if is_cancelled e
      then record { status = ResultStatus.cancelled; error = some e; business_error = some e }
      else record { status = ResultStatus.completed; error = error; business_error = some e }
]
judge_result rules result error status = record {
  status = status;
  error = error;
  business_error = none;
}

-- The record that a result for a connection with no delivery starts from.
unfoldable pub bare_delivery : ℕ → ℕ → Event → EventResult
bare_delivery cid handler_name ev = record {
  handler_name = handler_name;
  connection_id = cid;
  result = none;
  error = none;
  status = ResultStatus.pending;
  event_children = [];
  started_at = none;
  completed_at = none;
  event_id = ev.event_id;
  event_type = ev.event_type;
  source_scope_id = 0;
  scope_id = 0;
  participation = handler;
  receiver_key = none;
  queued_at = none;
  cancel_requested = false;
  business_error = none;
}

abbrev pub rules_of : ℕ → Event → List ResultContract
rules_of cid ev = elim (lookup cid ev.result_contracts) [ none ↦ [] | some rules ↦ rules ]

-- `existing` with a settlement written into it.
abbrev pub settle : ℕ → Option Value → Settled → EventResult → EventResult
settle now result s existing = record existing {
  status = s.status;
  result = result;
  error = s.error;
  business_error = s.business_error;
  completed_at = some now;
}

-- The end of `record_result`, once it is known that the delivery is not settled.
unfoldable pub settle_delivery :
    ℕ → ℕ → Option Value → Option Exc → Option ResultStatus → EventResult → Event → Event
unfolding finish judge_result classify
settle_delivery now cid result error status existing ev =
    let s = judge_result (rules_of cid ev) result error (given_or_classified status error) in
    finish cid
      (record ev { event_results = insert cid (settle now result s existing) ev.event_results })

unfoldable pub record_result :
    ℕ → ℕ → ℕ → Option Value → Option Exc → Option ResultStatus → Event → Event
unfolding is_terminal settle_delivery bare_delivery
record_result now cid handler_name result error status ev = elim (lookup cid ev.event_results) [
  | none ↦ settle_delivery now cid result error status (bare_delivery cid handler_name ev) ev
  | some existing ↦
      if is_terminal existing then ev else settle_delivery now cid result error status existing ev
]
