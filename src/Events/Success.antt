-- ===== src/Events/Success.antt =====
-- src/agent_cdp/events/base.py: `check_success`, which tells success from mere settlement.
pub mod Verdicts
use agent_cdp.Prelude.{
  ℕ, Bool, true, false, not, ◌&&◌, ◌||◌, Option, none, some, List, [], ◌∷◌, Dict, values, select,
  contains, is_empty, length, map, ltb, leb, if◌then◌else◌,
}
use agent_cdp.Events.Values.{
  Exc, receiver_contract_error, event_execution_error, Outcome, return, raise, ◌>>=◌,
}
use agent_cdp.Events.Contracts.{is_handler, RequestContract}
use agent_cdp.Events.Delivery.{EventResult, is_success}
use agent_cdp.Events.Event.{Event, ReceiverFailure, answers, unanswered, add_all}

-- `sorted` of a set of identifiers.
abbrev pub place : ℕ → List ℕ → List ℕ
place k [] = k ∷ []
place k (x ∷ xs) = if leb k x then k ∷ x ∷ xs else x ∷ place k xs

abbrev pub sorted : List ℕ → List ℕ
sorted [] = []
sorted (x ∷ xs) = place x (sorted xs)

-- `set - set`
abbrev pub without : List ℕ → List ℕ → List ℕ
without known xs = select (λ x. not (contains x known)) xs

abbrev pub handler_records : Event → List EventResult
handler_records ev = select (λ r. is_handler r.participation) (values ev.event_results)

abbrev pub names_record : ℕ → EventResult → Bool
names_record name r = answers name r.connection_id r.receiver_key

abbrev pub connection_ids : List EventResult → List ℕ
connection_ids rs = map (λ r. r.connection_id) rs

-- `self._required_ids or {r.connection_id for r in records}`
abbrev pub selected_ids : Event → List EventResult → List ℕ
selected_ids ev records =
    if is_empty ev.required_ids then add_all [] (connection_ids records) else ev.required_ids

-- The two guards on receivers.
unfoldable pub check_preflight : Event → Outcome (Unit {0})
check_preflight ev = elim ev.preflight_error [
  | none ↦ return tt
  | some f ↦ raise (receiver_contract_error f.missing_receivers f.required_count f.actual_count)
]

unfoldable pub check_receivers : Event → Outcome (Unit {0})
check_receivers ev = elim ev.request_contract [
  | none ↦ return tt
  | some contract ↦
      let records = handler_records ev in
      let missing = unanswered names_record contract.required_receivers records in
      if not (is_empty missing) || ltb (length records) contract.min_receivers
      then raise (receiver_contract_error missing contract.min_receivers (length records))
      else return tt
]

-- The selected records that are no success, and the selected connections with no record.
abbrev pub failures_of : List ℕ → List EventResult → List EventResult
failures_of selected records =
    select (λ r. contains r.connection_id selected && not (is_success r)) records

unfoldable pub check_results : Event → Outcome (Dict EventResult)
unfolding is_success
check_results ev =
    let records = handler_records ev in
    let selected = selected_ids ev records in
    let failures = failures_of selected records in
    let missing_ids = sorted (without (connection_ids records) selected) in
    if is_empty failures && is_empty missing_ids
    then return ev.event_results
    else raise (event_execution_error (connection_ids failures) missing_ids)

unfoldable pub check_success : Event → Outcome (Dict EventResult)
unfolding check_preflight check_receivers check_results
check_success ev = check_preflight ev >>= λ _. check_receivers ev >>= λ _. check_results ev
