-- ===== src/Samples.antt =====
-- Concrete events, connections and queues, and the theorems at them.
mod Results
mod Scopes
mod Closings
mod Groups
mod Watchdogs
mod Bridges
mod Logs
mod Queues
mod Waiters
mod Emissions
mod Cancellations
use agent_cdp.Prelude.{
  ℕ, ◌+◌, ◌<◌, ◌≡◌, ◌↔◌, ◌⊎◌, refl, Bool, true, false, Option, none, some, List, [], ◌∷◌, All, Dict,
  lookup, is_some, ℤ, ◌==◌, arith,
}
use agent_cdp.Events.Values.{
  Value, opaque, mapping, Exc, cancelled_error, value_error, event_timeout_error, Phase, Outcome,
  return, ◌>>=◌,
}
use agent_cdp.Events.Contracts.{
  Participation, handler, observer, Verdict, accepted, ResultContract, WaitFor, RequestContract,
}
use agent_cdp.Events.Contracts.Rules.{run_rules, run_rules_iff}
use agent_cdp.Events.Delivery.{
  ResultStatus, EventResult, is_success, is_terminal, queue_duration, execution_duration,
  mark_completed, mark_failed, mark_timeout,
}
use agent_cdp.Events.Delivery.Transitions.{Settles, mark-Settles}
use agent_cdp.Events.Delivery.Durations.{durations_add}
use agent_cdp.Events.Event.{
  EmitPolicy, Receiver, ReceiverFailure, Event, preflight, prepare_delivery, mark_running,
  increment_pending, record_result, rules_of,
}
use agent_cdp.Events.Event.Settlement.{record_result_once, record_result_success}
use agent_cdp.Events.Event.Frame.{SameDelivery, record_result_others}
use agent_cdp.Events.Event.Completion.{Call, run, run-completion, SameToWaiters, run_wakes}
use agent_cdp.Events.Event.Preflight.{Satisfies, Untouched, preflight_iff, preflight_refused}
use agent_cdp.Events.Success.{check_success}
use agent_cdp.Events.Success.Verdicts.{Succeeded, check_success_iff}
use agent_cdp.Events.Waiting.{
  WaitTimeout, Caller, Look, returned, raised, effective, selection, wait_for_results,
}
use agent_cdp.Events.Waiting.Outcomes.{
  SettlesInTime, StaysUnsettled, wait_for_results-returned_iff, wait_for_results-timeout_iff,
}

-- A new event, which asks for the handler with the key 7.
abbrev request : RequestContract
request = record {
  min_receivers = 1;
  required_receivers = 7 ∷ [];
  wait_for = WaitFor.required;
  result_contract = some (record { validator = λ v. accepted (is_some v); description = 1 });
}

abbrev new_event : Event
new_event = record {
  event_id = 100;
  event_type = 5;
  event_timeout = some 300;
  execution_timeout = some 300;
  non_droppable = false;
  request_contract = some request;
  consumed = false;
  event_parent_id = none;
  event_results = [];
  emit_policy = EmitPolicy.fail_fast;
  completion = true;
  changed = 0;
  pending_count = 0;
  cancel_callbacks = [];
  result_contracts = [];
  required_ids = [];
  preflight_error = none;
  delivery_scope_tokens = [];
}

abbrev saver : Receiver
saver = record {
  id = 11;
  handler_name = 21;
  participation = handler;
  receiver_key = some 7;
  result_contract = none;
}

abbrev logger : Receiver
logger = record {
  id = 12;
  handler_name = 22;
  participation = observer;
  receiver_key = some 7;
  result_contract = none;
}

-- The event with a queued delivery for each of the two.
abbrev pub queued_event : Event
unfolding prepare_delivery preflight
queued_event =
    prepare_delivery 3 saver 1 1 true
      (prepare_delivery 2 logger 1 1 true (preflight (saver ∷ logger ∷ []) new_event).0)

abbrev saved : Event → Event
unfolding record_result
saved ev = record_result 9 11 21 (some (opaque 4)) none none ev

abbrev queued_record : EventResult
queued_record = record {
  handler_name = 21;
  connection_id = 11;
  result = none;
  error = none;
  status = ResultStatus.queued;
  event_children = [];
  started_at = none;
  completed_at = none;
  event_id = 100;
  event_type = 5;
  source_scope_id = 1;
  scope_id = 1;
  participation = handler;
  receiver_key = some 7;
  queued_at = some 3;
  cancel_requested = false;
  business_error = none;
}

abbrev outsider : Caller
outsider = record { scope_id = none; scope_token = none; connection = none }

abbrev look_at : Event → Look
look_at ev = record { event = ev; current_event = none }

abbrev rules : List ResultContract
rules = record { validator = λ v. accepted (is_some v); description = 1 } ∷ []

run_rules_iff_example :
    (run_rules rules (some (opaque 4)) ≡ none)
    ↔ All (λ rule. rule.validator (some (opaque 4)) ≡ accepted true) rules
run_rules_iff_example = run_rules_iff rules (some (opaque 4))

record_result_once_example :
    record_result 12 11 21 none
      (some cancelled_error)
      none
      (record_result 9 11 21 (some (opaque 4)) none none queued_event)
    ≡ record_result 9 11 21 (some (opaque 4)) none none queued_event
record_result_once_example =
    record_result_once 9 11 21 (some (opaque 4)) none none 12 21 none (some cancelled_error) none
      queued_event tt

record_result_success_example :
    (s : EventResult) × (lookup 11
        (record_result 9 11 21 (some (opaque 4)) none none queued_event).event_results
      ≡ some s)
    × ((is_success s ≡ true) ↔ (
        ◌≡◌ {A = Option Exc} none none
        × All
            (λ (rule : ResultContract). rule.validator (some (opaque 4)) ≡ accepted true)
            (rules_of 11 queued_event)))
unfolding queued_event is_terminal
record_result_success_example =
    record_result_success 9 11 21 (some (opaque 4)) none queued_record queued_event refl refl

abbrev calls : List Call
calls =
    Call.increments
    ∷ Call.marks_running 4 11
    ∷ Call.records 9 11 21 (some (opaque 4)) none none
    ∷ Call.decrements
    ∷ []

run-completion_example :
    (run queued_event calls).completion ≡ ((run queued_event calls).pending_count == 0)
unfolding queued_event
run-completion_example = run-completion calls queued_event refl

run_wakes_example :
    SameToWaiters queued_event (run queued_event calls)
    ⊎ (queued_event.changed < (run queued_event calls).changed)
run_wakes_example = run_wakes calls queued_event

preflight_iff_example :
    ((preflight (saver ∷ logger ∷ []) new_event).1 ≡ none) ↔ Satisfies request (saver ∷ logger ∷ [])
preflight_iff_example = preflight_iff (saver ∷ logger ∷ []) request new_event refl

-- An observer does not answer for the key 7.
abbrev failure : ReceiverFailure
failure = record { missing_receivers = 7 ∷ []; required_count = 1; actual_count = 0 }

check_success_iff_example :
    (check_success (record_result 9 11 21 (some (opaque 4)) none none queued_event)
      ≡ return (record_result 9 11 21 (some (opaque 4)) none none queued_event).event_results)
    ↔ Succeeded (record_result 9 11 21 (some (opaque 4)) none none queued_event)
check_success_iff_example =
    check_success_iff (record_result 9 11 21 (some (opaque 4)) none none queued_event)

wait_for_results-returned_iff_example :
    (wait_for_results WaitTimeout.default outsider
        (look_at queued_event)
        (look_at (saved queued_event) ∷ [])
      ≡ returned)
    ↔ SettlesInTime
        (selection queued_event)
        outsider
        (look_at queued_event ∷ look_at (saved queued_event) ∷ [])
unfolding queued_event
wait_for_results-returned_iff_example =
    wait_for_results-returned_iff WaitTimeout.default outsider (look_at queued_event)
      (look_at (saved queued_event) ∷ []) refl

wait_for_results-timeout_iff_example :
    (wait_for_results WaitTimeout.default outsider (look_at queued_event) []
      ≡ raised (event_timeout_error Phase.wait))
    ↔ ((is_some (effective WaitTimeout.default queued_event) ≡ true)
        × StaysUnsettled (selection queued_event) outsider (look_at queued_event ∷ []))
unfolding queued_event
wait_for_results-timeout_iff_example =
    wait_for_results-timeout_iff WaitTimeout.default outsider (look_at queued_event) [] refl
