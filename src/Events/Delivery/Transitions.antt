-- ===== src/Events/Delivery/Transitions.antt =====
-- What the transitions of result.py keep of a record, and what they refuse.
use agent_cdp.Prelude.{ℕ, ◌≡◌, true, false, Option, some, arith}
use agent_cdp.Events.Values.{Value, Exc, value_error, Outcome, return, raise}
use agent_cdp.Events.Delivery.{EventResult, is_terminal, mark_completed, mark_failed, mark_timeout}

-- The parts of a record that say which delivery it is about.
pub record SameIdentity (r s : EventResult) : Type 0 where
  pub connection : s.connection_id ≡ r.connection_id
  pub handler : s.handler_name ≡ r.handler_name
  pub event : s.event_id ≡ r.event_id
  pub source_scope : s.source_scope_id ≡ r.source_scope_id
  pub scope : s.scope_id ≡ r.scope_id
  pub participates : s.participation ≡ r.participation
  pub queue_time : s.queued_at ≡ r.queued_at
  pub start_time : s.started_at ≡ r.started_at

-- An open record `r` may end in `s`: the same delivery, settled at `now`.
abbrev pub Settles : ℕ → EventResult → Outcome EventResult → Type 0
Settles now r (return s) =
    SameIdentity r s
    × (is_terminal r ≡ false)
    × (is_terminal s ≡ true)
    × (s.completed_at ≡ some now)
Settles now r (raise e) = (is_terminal r ≡ true) × (e ≡ value_error)

-- Each of the three transitions settles an open record at the time of the call and keeps its
-- identity and its earlier times, and refuses a settled record with ValueError.
pub mark-Settles :
    (now : ℕ) (value : Option Value) (e : Exc) (r : EventResult)
    → Settles now r (mark_completed now value r)
      × Settles now r (mark_failed now e r)
      × Settles now r (mark_timeout now e r)
unfolding mark_completed mark_failed mark_timeout
mark-Settles now value e r = ground arith
