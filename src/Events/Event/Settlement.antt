-- ===== src/Events/Event/Settlement.antt =====
-- How `record_result` settles a delivery.
use agent_cdp.Prelude.{
  ℕ, ◌≡◌, ◌↔◌, inl, inr, ap, true, false, not, Option, none, some, List, All, lookup,
  lookup-insert_self, Option-cases, Bool-cases, arith,
}
use agent_cdp.Events.Values.{Value, Exc}
use agent_cdp.Events.Contracts.{ResultContract, accepted}
use agent_cdp.Events.Contracts.Rules.{run_rules, run_rules_iff}
use agent_cdp.Events.Delivery.{ResultStatus, EventResult, is_terminal, is_success, is_open}
use agent_cdp.Events.Event.State.{Event, notify_changed}
use agent_cdp.Events.Event.Results.{
  Settled, settle, rules_of, given_or_classified, classify, judge_result, finish, settle_delivery,
  bare_delivery, record_result,
}

-- A status that `record_result` may be given: none, or one that ends a delivery.
abbrev pub EndsDelivery : Option ResultStatus → Type 0
EndsDelivery none = Unit {0}
EndsDelivery (some status) = is_open status ≡ false

judge_result_closed :
    (rules : List ResultContract) (result : Option Value) (error : Option Exc)
    (status : ResultStatus)
    → is_open status ≡ false
    → is_open (judge_result rules result error status).status ≡ false
unfolding judge_result
judge_result_closed rules result error ResultStatus.completed h = ground arith
judge_result_closed rules result error _ h = h

given_closed :
    (status : Option ResultStatus) (error : Option Exc)
    → EndsDelivery status
    → is_open (given_or_classified status error) ≡ false
unfolding classify
given_closed none error h = ground arith
given_closed (some status) error h = h

-- The record that stands under a connection after it has been settled.
lookup-settle_delivery :
    (now cid : ℕ) (result : Option Value) (error : Option Exc) (status : Option ResultStatus)
    (r : EventResult) (ev : Event)
    → lookup cid (settle_delivery now cid result error status r ev).event_results
      ≡ some (
          settle now result
            (judge_result (rules_of cid ev) result error (given_or_classified status error))
            r)
unfolding settle_delivery finish notify_changed
lookup-settle_delivery now cid result error status r ev = lookup-insert_self cid _ ev.event_results

pub record_result_settled :
    (now cid name : ℕ) (result : Option Value) (error : Option Exc) (status : Option ResultStatus)
    (r : EventResult) (ev : Event)
    → lookup cid ev.event_results ≡ some r
    → is_terminal r ≡ true
    → record_result now cid name result error status ev ≡ ev
unfolding record_result
record_result_settled now cid name result error status r ev h t = rw (h, record_result) (rw t)

record_result_open :
    (now cid name : ℕ) (result : Option Value) (error : Option Exc) (status : Option ResultStatus)
    (r : EventResult) (ev : Event)
    → lookup cid ev.event_results ≡ some r
    → is_terminal r ≡ false
    → record_result now cid name result error status ev
      ≡ settle_delivery now cid result error status r ev
unfolding record_result
record_result_open now cid name result error status r ev h t = rw (h, record_result) (rw t)

settled_is_terminal :
    (now : ℕ) (result : Option Value) (s : Settled) (r : EventResult)
    → is_open s.status ≡ false
    → is_terminal (settle now result s r) ≡ true
unfolding is_terminal
settled_is_terminal now result s r h = ap not h

record_result_new :
    (now cid name : ℕ) (result : Option Value) (error : Option Exc) (status : Option ResultStatus)
    (ev : Event)
    → lookup cid ev.event_results ≡ none
    → record_result now cid name result error status ev
      ≡ settle_delivery now cid result error status (bare_delivery cid name ev) ev
unfolding record_result
record_result_new now cid name result error status ev h = rw (h, record_result)

settle_delivery_terminal :
    (now cid : ℕ) (result : Option Value) (error : Option Exc) (status : Option ResultStatus)
    (existing : EventResult) (ev : Event)
    → EndsDelivery status
    → (r : EventResult) × (lookup cid
          (settle_delivery now cid result error status existing ev).event_results
        ≡ some r)
      × (is_terminal r ≡ true)
settle_delivery_terminal now cid result error status existing ev ends = (
  _,
  lookup-settle_delivery now cid result error status existing ev,
  settled_is_terminal now result _ existing
      (judge_result_closed (rules_of cid ev) result error _ (given_closed status error ends)),
)

-- Whatever the delivery was before, a result settles it.
pub record_result_terminal :
    (now cid name : ℕ) (result : Option Value) (error : Option Exc) (status : Option ResultStatus)
    (ev : Event)
    → EndsDelivery status
    → (r : EventResult) × (lookup cid
          (record_result now cid name result error status ev).event_results
        ≡ some r)
      × (is_terminal r ≡ true)
record_result_terminal now cid name result error status ev ends =
    elim (Option-cases (lookup cid ev.event_results)) [
      | inl e ↦
          rw (record_result_new now cid name result error status ev e)
            (settle_delivery_terminal now cid result error status _ ev ends)
      | inr (r, e) ↦ elim (Bool-cases (is_terminal r)) [
        | inl t ↦ rw (record_result_settled now cid name result error status r ev e t) (r, e, t)
        | inr t ↦
            rw (record_result_open now cid name result error status r ev e t)
              (settle_delivery_terminal now cid result error status r ev ends)
      ]
    ]

-- The first settlement of a delivery stands, where the status given with it, if any, is a final
-- one: a second result for the same connection, whatever it says and whenever it comes, changes
-- nothing of the event.
pub record_result_once :
    (now cid name : ℕ) (result : Option Value) (error : Option Exc) (status : Option ResultStatus)
    (later name' : ℕ) (result' : Option Value) (error' : Option Exc) (status' : Option ResultStatus)
    (ev : Event)
    → EndsDelivery status
    → record_result later cid name' result' error' status'
        (record_result now cid name result error status ev)
      ≡ record_result now cid name result error status ev
record_result_once now cid name result error status later name' result' error' status' ev ends =
    let (r, e, t) = record_result_terminal now cid name result error status ev ends in
    record_result_settled later cid name' result' error' status' r _ e t

settle_success :
    (now : ℕ) (rules : List ResultContract) (result : Option Value) (error : Option Exc)
    (r : EventResult)
    → (is_success (settle now result (judge_result rules result error (classify error)) r) ≡ true)
      ↔ ((error ≡ none) × (run_rules rules result ≡ none))
unfolding is_success judge_result classify
settle_success now rules result none r = (λ h. ground arith, λ h. ground arith)
settle_success now rules result (some e) r = (λ h. ground arith, λ h. ground arith)

-- With no status given, an open delivery ends in success exactly when the handler raised nothing
-- and every rule kept for the connection returned `True` for the value.
pub record_result_success :
    (now cid name : ℕ) (result : Option Value) (error : Option Exc) (r : EventResult) (ev : Event)
    → lookup cid ev.event_results ≡ some r
    → is_terminal r ≡ false
    → (s : EventResult) × (lookup cid
          (record_result now cid name result error none ev).event_results
        ≡ some s)
      × ((is_success s ≡ true) ↔ (
          (error ≡ none)
          × All
              (λ (rule : ResultContract). rule.validator result ≡ accepted true)
              (rules_of cid ev)))
record_result_success now cid name result error r ev e t =
    rw (record_result_open now cid name result error none r ev e t) (
      _,
      lookup-settle_delivery now cid result error none r ev,
      let both = settle_success now (rules_of cid ev) result error r in
          let rules = run_rules_iff (rules_of cid ev) result in
          ((λ h. ((both.0 h).0, rules.0 (both.0 h).1)), (λ h. both.1 (h.0, rules.1 h.1))),
    )
