-- ===== src/Scope/Cancellation.antt =====
-- src/agent_cdp/events/base.py: `cancel_execution`, on the queues of the scopes that hold the event's
-- deliveries. A scope stands in the store under its identifier. The cancel callback of a delivery
-- is the scope and the number of the delivery in its queue, where one that is done is not found.
pub mod Standing
pub mod Settled
use agent_cdp.Prelude.{
  ℕ, Bool, true, false, not, ◌&&◌, ◌||◌, Option, none, some, List, [], ◌∷◌, if◌then◌else◌, ◌==◌,
  Dict, lookup, contains,
}
use agent_cdp.Events.Values.{key_error, Outcome, return, raise, ◌>>=◌}
use agent_cdp.Events.Delivery.{ResultStatus, EventResult, is_terminal, is_running}
use agent_cdp.Events.Event.{Event, mark_cancel_requested}
use agent_cdp.Scope.Queue.{System, Delivery, cancel_delivery}
use agent_cdp.Scope.Emission.{World, put_loop, put_event}

-- The arguments of `cancel_execution`.
pub record Selection : Type 0 where
  pub include_running : Bool
  pub scope_id : Option ℕ
  pub connection_ids : Option (List ℕ)

abbrev is_other_scope : Option ℕ → ℕ → Bool
is_other_scope none scope = false
is_other_scope (some s) scope = not (scope == s)

abbrev is_unselected : Option (List ℕ) → ℕ → Bool
is_unselected none cid = false
is_unselected (some cids) cid = not (contains cid cids)

-- The tests of the loop, in their order.
abbrev pub is_passed_over : Selection → ℕ → EventResult → Bool
is_passed_over selection cid r =
    is_terminal r
    || is_other_scope selection.scope_id r.scope_id
    || is_unselected selection.connection_ids cid
    || (is_running r.status && not selection.include_running)
    || r.cancel_requested

-- A change of one queue and of the events.
abbrev pub on_queue : ℕ → (System → System) → World → World
on_queue t f w =
    let s = f (record { loop = (w.scopes t).event_loop; events = w.events }) in
    put_loop t s.loop (record w { events = s.events })

-- `callback(running)`
unfoldable pub call_back : ℕ → ℕ × ℕ → Bool → World → World
call_back now (t, n) running w = elim (lookup n (w.scopes t).event_loop.pending) [
  | none ↦ w
  | some d ↦ on_queue t (cancel_delivery now d running) w
]

unfoldable pub cancel_one : ℕ → ℕ → Selection → ℕ → ℕ × ℕ → World → Outcome World
unfolding call_back
cancel_one now e selection cid callback w = elim (lookup cid (w.events e).event_results) [
  | none ↦ raise key_error
  | some r ↦
      let asked = mark_cancel_requested cid (w.events e) >>= λ ev.
      return (call_back now callback (is_running r.status) (put_event e ev w)) in
      if is_passed_over selection cid r then return w else asked
]

unfoldable pub cancel_each : ℕ → ℕ → Selection → Dict (ℕ × ℕ) → World → Outcome World
unfolding cancel_one
cancel_each now e selection [] w = return w
cancel_each now e selection ((cid, callback) ∷ callbacks) w =
    cancel_one now e selection cid callback w >>= λ w'. cancel_each now e selection callbacks w'

-- `e` refers to the event.
unfoldable pub cancel_execution : ℕ → ℕ → Selection → World → Outcome World
unfolding cancel_each
cancel_execution now e selection w = cancel_each now e selection (w.events e).cancel_callbacks w
