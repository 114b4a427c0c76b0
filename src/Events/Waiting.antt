-- ===== src/Events/Waiting.antt =====
-- src/agent_cdp/events/base.py: `wait_for_results`. A wait is the list of the states that its loop
-- sees: at the call, and after each change that wakes it before its budget ends. It only reads
-- events.
pub mod Outcomes
use agent_cdp.Prelude.{
  ℕ, Bool, true, false, not, ◌&&◌, ◌||◌, Option, none, some, List, [], ◌∷◌, Dict, lookup, values,
  select, contains, is_empty, is_some, is_key, length, map, ◌==◌, if◌then◌else◌, ℤ, is_negative,
}
use agent_cdp.Events.Values.{Exc, value_error, event_timeout_error, self_wait_error, Phase}
use agent_cdp.Events.Contracts.{RequestContract, WaitFor}
use agent_cdp.Events.Delivery.{
  EventResult, is_terminal, is_running, is_completed, is_failed, is_timed_out, DeliveryDiagnostic,
  diagnostic,
}
use agent_cdp.Events.Event.{Event}

pub data WaitTimeout : Type 0 where
  default unlimited : WaitTimeout
  budget : ℤ → WaitTimeout

-- The context variables of the task that waits.
pub record Caller : Type 0 where
  pub scope_id : Option ℕ
  pub scope_token : Option ℕ
  pub connection : Option ℕ

-- What the loop sees at one look: the event, and the event that the calling handler serves.
pub record Look : Type 0 where
  pub event : Event
  pub current_event : Option Event

pub data Waited : Type 0 where
  returned waiting : Waited
  raised : Exc → Waited

-- The budget in force; `none` is unlimited.
abbrev pub effective : WaitTimeout → Event → Option ℤ
effective WaitTimeout.default ev = elim ev.event_timeout [ none ↦ none | some t ↦ some (ℤ.pos t) ]
effective WaitTimeout.unlimited ev = none
effective (WaitTimeout.budget t) ev = some t

abbrev is_required : WaitFor → Bool
is_required WaitFor.required = true
is_required WaitFor.all = false

-- The connections that the wait is for; `none` is all.
unfoldable pub selection : Event → Option (List ℕ)
selection ev = elim ev.request_contract [
  | none ↦ none
  | some request ↦ if is_required request.wait_for then some ev.required_ids else none
]

abbrev pub in_selection : Option (List ℕ) → ℕ → Bool
in_selection none id = true
in_selection (some ids) id = contains id ids

-- `outstanding()`
unfoldable pub outstanding : Option (List ℕ) → Event → List EventResult
outstanding selected ev =
    select (λ r. not (is_terminal r) && in_selection selected r.connection_id)
      (values ev.event_results)

-- The test under which a wait ends.
unfoldable pub is_settled : Option (List ℕ) → Event → Bool
unfolding outstanding
is_settled selected ev =
    is_empty (outstanding selected ev) && (is_some selected || ev.pending_count == 0)

-- `event._delivery_scope_tokens.get(id) is scope_token`
abbrev waits_on : Event → ℕ → EventResult → Bool
waits_on ev token r = is_key token (lookup r.connection_id ev.delivery_scope_tokens)

abbrev pub blocking : Option (List ℕ) → Caller → Event → List EventResult
blocking selected caller ev = elim caller.scope_token [
  | none ↦ []
  | some token ↦ select (waits_on ev token) (outstanding selected ev)
]

abbrev pub current_result : Caller → Look → Option EventResult
current_result caller look = elim look.current_event [
  | none ↦ none
  | some ev ↦ elim caller.connection [ none ↦ none | some cid ↦ lookup cid ev.event_results ]
]

abbrev pub is_running_result : Option EventResult → Bool
is_running_result none = false
is_running_result (some r) = is_running r.status

-- The caller is a running handler of a queue that it would wait for.
unfoldable pub is_self_wait : Option (List ℕ) → Caller → Look → Bool
unfolding outstanding
is_self_wait selected caller look =
    is_some caller.scope_id
    && not (is_empty (blocking selected caller look.event))
    && is_running_result (current_result caller look)

-- `wait_until_settled` under `asyncio.timeout`. After the last look the budget ends the wait.
unfoldable pub wait_loop : Option (List ℕ) → Caller → Option ℤ → List Look → Waited
unfolding is_settled is_self_wait
wait_loop selected caller limit [] = elim limit [
  | none ↦ waiting
  | some t ↦ raised (event_timeout_error Phase.wait)
]
wait_loop selected caller limit (look ∷ looks) =
    if is_settled selected look.event
    then returned
    else if is_self_wait selected caller look
    then raised self_wait_error
    else wait_loop selected caller limit looks

abbrev pub is_negative_budget : Option ℤ → Bool
is_negative_budget none = false
is_negative_budget (some t) = is_negative t

unfoldable pub wait_for_results : WaitTimeout → Caller → Look → List Look → Waited
wait_for_results timeout caller look looks =
    let limit = effective timeout look.event in
    let selected = selection look.event in
    if is_negative_budget limit
    then raised value_error
    else if is_settled selected look.event
    then returned
    else wait_loop selected caller limit (look ∷ looks)

pub record TimeoutReport : Type 0 where
  pub pending_count : ℕ
  pub pending : List DeliveryDiagnostic
  pub completed_handlers : List ℕ
  pub failed_handlers : List ℕ
  pub timed_out_handlers : List ℕ

abbrev handler_names : List EventResult → List ℕ
handler_names rs = map (λ r. r.handler_name) rs

-- `_timeout_diagnostics`
unfoldable pub timeout_diagnostics : ℕ → Option (List ℕ) → Event → TimeoutReport
unfolding outstanding
timeout_diagnostics now selected ev =
    let records = values ev.event_results in
    let pending = map (diagnostic now) (outstanding selected ev) in
    record {
      pending_count = if is_empty pending then ev.pending_count else length pending;
      pending = pending;
      completed_handlers = handler_names (select (λ r. is_completed r.status) records);
      failed_handlers = handler_names (select (λ r. is_failed r.status) records);
      timed_out_handlers = handler_names (select (λ r. is_timed_out r.status) records);
    }
