-- ===== src/Events/Delivery/Durations.antt =====
-- The two durations of a delivery, and its life.
use agent_cdp.Prelude.{ℕ, ◌+◌, ◌-◌, ◌≤◌, ◌≡◌, none, some, arith}
use agent_cdp.Events.Delivery.{EventResult, queue_duration, execution_duration}

-- Of a delivery that was queued, started and settled in this order, the queue time and the
-- execution time add up to its whole life, whenever they are asked for.
pub durations_add :
    (now q s c : ℕ) (r : EventResult)
    → r.queued_at ≡ some q
    → r.started_at ≡ some s
    → r.completed_at ≡ some c
    → q ≤ s
    → s ≤ c
    → queue_duration now r + execution_duration now r ≡ c - q
unfolding queue_duration execution_duration
durations_add now q s c r eq es ec h k = ground arith

-- Of a delivery that never started, only the queue counts: execution takes no time, and the
-- queue time ends at the settlement.
pub durations_unstarted :
    (now q c : ℕ) (r : EventResult)
    → r.queued_at ≡ some q
    → r.started_at ≡ none
    → r.completed_at ≡ some c
    → (queue_duration now r ≡ c - q) × (execution_duration now r ≡ 0)
unfolding queue_duration execution_duration
durations_unstarted now q c r eq es ec = ground arith
