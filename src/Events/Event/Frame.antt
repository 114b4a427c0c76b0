-- ===== src/Events/Event/Frame.antt =====
-- What the methods of an event leave alone: the deliveries of other connections.
use agent_cdp.Prelude.{ℕ, ◌≡◌, false, Option, ◌==◌, lookup, lookup-insert, lookup-erase_ne, arith}
use agent_cdp.Events.Values.{Value, Exc}
use agent_cdp.Events.Delivery.{ResultStatus}
use agent_cdp.Events.Event.State.{Event, notify_changed}
use agent_cdp.Events.Event.Results.{finish, record_result}

-- All that an event keeps of the delivery to the connection `j`.
pub record SameDelivery (j : ℕ) (old new : Event) : Type 0 where
  pub result : lookup j new.event_results ≡ lookup j old.event_results
  pub rules : lookup j new.result_contracts ≡ lookup j old.result_contracts
  pub callback : lookup j new.cancel_callbacks ≡ lookup j old.cancel_callbacks
  pub token : lookup j new.delivery_scope_tokens ≡ lookup j old.delivery_scope_tokens

-- Settling one delivery touches no other connection's record, rules, cancel callback or queue.
pub record_result_others :
    (now cid name j : ℕ) (result : Option Value) (error : Option Exc) (status : Option ResultStatus)
    (ev : Event)
    → (j == cid) ≡ false
    → SameDelivery j ev (record_result now cid name result error status ev)
unfolding record_result finish notify_changed
record_result_others now cid name j result error status ev h =
    grind (arith, lookup-insert, lookup-erase_ne)
