-- ===== src/Events/Success/Verdicts.antt =====
-- When `check_success` returns.
use agent_cdp.Prelude.{
  ℕ, ◌≤◌, ◌≡◌, ◌↔◌, ◌⊎◌, inl, inr, refl, Bool, true, false, not, ◌||◌, Option, none, some, List, [],
  ◌∷◌, Dict, All, Any, is_empty, length, ltb, contains, Bool-cases, Option-cases, arith,
}
use agent_cdp.Events.Values.{Outcome-cases, return}
use agent_cdp.Events.Contracts.{RequestContract}
use agent_cdp.Events.Delivery.{EventResult, is_success}
use agent_cdp.Events.Event.{Event, unanswered}
use agent_cdp.Events.Event.Preflight.{answers_iff, unanswered_iff}
use agent_cdp.Events.Success.{
  sorted, place, without, handler_records, connection_ids, selected_ids, failures_of, names_record,
  check_preflight, check_receivers, check_results, check_success,
}

-- A delivery answers to a name by its connection id or its receiver key.
abbrev pub Named : ℕ → EventResult → Type 0
Named name r = (r.connection_id ≡ name) ⊎ (r.receiver_key ≡ some name)

-- The recorded handler deliveries answer the request, where there is one.
abbrev pub Answered : Option RequestContract → List EventResult → Type 0
Answered none records = Unit {0}
Answered (some contract) records =
    All (λ name. Any (Named name) records) contract.required_receivers
    × (contract.min_receivers ≤ length records)

pub record Succeeded (ev : Event) : Type 0 where
  pub accepted : ev.preflight_error ≡ none
  pub answered : Answered ev.request_contract (handler_records ev)
  pub successful :
      All
        (λ r.
          contains r.connection_id (selected_ids ev (handler_records ev)) ≡ true
          → is_success r ≡ true)
        (handler_records ev)
  pub recorded :
      All
        (λ id. contains id (connection_ids (handler_records ev)) ≡ true)
        (selected_ids ev (handler_records ev))

place_ne : (k : ℕ) (xs : List ℕ) → is_empty (place k xs) ≡ false
place_ne k [] = refl
place_ne k (x ∷ xs) = ground arith

sorted_empty : (xs : List ℕ) → is_empty (sorted xs) ≡ is_empty xs
sorted_empty [] = refl
sorted_empty (x ∷ xs) = place_ne x (sorted xs)

failures_iff :
    (selected : List ℕ) (rs : List EventResult)
    → (is_empty (failures_of selected rs) ≡ true)
      ↔ All (λ r. contains r.connection_id selected ≡ true → is_success r ≡ true) rs
failures_iff selected [] = (λ _. tt, λ _. refl)
failures_iff selected (r ∷ rs) =
    let ih = failures_iff selected rs in
    (λ h. ((λ c. ground arith), ih.0 (ground arith)), λ h. ground (arith, ih.1 h.1, h.0))

without_iff :
    (known xs : List ℕ)
    → (is_empty (without known xs) ≡ true) ↔ All (λ x. contains x known ≡ true) xs
without_iff known [] = (λ _. tt, λ _. refl)
without_iff known (x ∷ xs) =
    let ih = without_iff known xs in
    (λ h. (ground arith, ih.0 (ground arith)), λ h. ground (arith, ih.1 h.1))

-- The test by which `check_receivers` raises.
module _ (contract : RequestContract) (records : List EventResult) where
  abbrev short : Bool
  short =
      not (is_empty (unanswered names_record contract.required_receivers records))
      || ltb (length records) contract.min_receivers

  short_iff : (short ≡ false) ↔ Answered (some contract) records
  short_iff =
      let names =
        unanswered_iff names_record Named
          (λ name r. answers_iff name r.connection_id r.receiver_key) contract.required_receivers
          records in
      (λ h. (names.0 (ground arith), ground arith), λ a. passes (names.1 a.0) a.1)
    where
      passes :
          is_empty (unanswered names_record contract.required_receivers records) ≡ true
          → contract.min_receivers ≤ length records
          → short ≡ false
      passes h k = ground arith

accepted_iff : (ev : Event) → (check_preflight ev ≡ return tt) ↔ (ev.preflight_error ≡ none)
unfolding check_preflight
accepted_iff ev = (λ h. ground arith, λ h. ground arith)

receivers_iff :
    (ev : Event)
    → (check_receivers ev ≡ return tt) ↔ Answered ev.request_contract (handler_records ev)
unfolding check_receivers
receivers_iff ev = elim (Option-cases ev.request_contract) [
  | inl e ↦ rw (e, check_receivers) (λ _. tt, λ _. refl)
  | inr (contract, e) ↦
      let test = short_iff contract (handler_records ev) in
      rw (e, check_receivers)
        (elim (Bool-cases (short contract (handler_records ev))) [
          | inl r ↦ rw r (λ h. cc, λ h. cc (r, test.1 h))
          | inr r ↦ rw r (λ _. test.0 r, λ _. refl)
        ])
]

module _ (ev : Event) where
  abbrev records : List EventResult
  records = handler_records ev

  abbrev chosen : List ℕ
  chosen = selected_ids ev records

  results_iff : (check_results ev ≡ return ev.event_results) ↔ (
      All (λ r. contains r.connection_id chosen ≡ true → is_success r ≡ true) records
      × All (λ id. contains id (connection_ids records) ≡ true) chosen)
  unfolding check_results
  results_iff =
      let fails = failures_iff chosen records in
      let lacks = without_iff (connection_ids records) chosen in
      rw (sorted_empty (without (connection_ids records) chosen))
        (elim (Bool-cases (is_empty (failures_of chosen records))) [
          | inl f ↦ elim (Bool-cases (is_empty (without (connection_ids records) chosen))) [
            | inl l ↦ rw (f, l) (λ _. (fails.0 f, lacks.0 l), λ _. refl)
            | inr l ↦ rw (f, l) (λ h. cc, λ h. cc (l, lacks.1 h.1))
          ]
          | inr f ↦ rw f (λ h. cc, λ h. cc (f, fails.1 h.0))
        ])

-- `check_success` returns the results exactly when the preflight was not refused, the recorded
-- handlers answer the request, every selected handler record is a success, and every selected
-- connection has a handler record. Selected are the required connections, or all the recorded
-- handlers where none is required. Observers play no part.
pub check_success_iff : (ev : Event) → (check_success ev ≡ return ev.event_results) ↔ Succeeded ev
unfolding check_success
check_success_iff ev = elim (Outcome-cases (check_preflight ev)) [
  | inr (x, p) ↦ rw p (λ h. cc, λ h. cc (p, (accepted_iff ev).1 h.accepted))
  | inl (x, p) ↦ elim (Outcome-cases (check_receivers ev)) [
    | inr (x, r) ↦ rw (p, r) (λ h. cc, λ h. cc (r, (receivers_iff ev).1 h.answered))
    | inl (x, r) ↦
        rw (p, r)
          (
            λ h. record {
              accepted = (accepted_iff ev).0 p;
              answered = (receivers_iff ev).0 r;
              successful = ((results_iff ev).0 h).0;
              recorded = ((results_iff ev).0 h).1;
            },
            λ h. (results_iff ev).1 (h.successful, h.recorded),
          )
  ]
]

-- What `check_success` returns is always the results of the event.
pub check_success_value :
    (ev : Event) {d : Dict EventResult}
    → check_success ev ≡ return d
    → check_success ev ≡ return ev.event_results
unfolding check_success check_results
check_success_value ev h = ground arith
