-- ===== src/Scope/Queue/Reports.antt =====
-- event_loop.py: what a queue reports of itself.
use agent_cdp.Prelude.{
  ℕ, Option, none, some, List, [], ◌∷◌, Dict, lookup, values, length, is_some, if◌then◌else◌,
}
use agent_cdp.Events.Delivery.{DeliveryDiagnostic, diagnostic}
use agent_cdp.Events.Event.{Event}
use agent_cdp.Scope.Queue.State.{Delivery, Loop, System}

-- `rejected_stopped` and `rejected_full` are the two entries of `rejected_by_reason`.
pub record ScopeStats : Type 0 where
  pub queued : ℕ
  pub running : ℕ
  pub queue_peak : ℕ
  pub accepted : ℕ
  pub completed : ℕ
  pub failed : ℕ
  pub cancelled : ℕ
  pub rejected : ℕ
  pub queue_wait : ℕ
  pub execution_time : ℕ
  pub queue_wait_max : ℕ
  pub execution_max : ℕ
  pub rejected_by_event_type : Dict ℕ
  pub rejected_by_connection : Dict ℕ
  pub rejected_stopped : ℕ
  pub rejected_full : ℕ

unfoldable pub stats : Loop → ScopeStats
stats l = record {
  queued = length l.queue;
  running = if is_some l.active then 1 else 0;
  queue_peak = l.queue_peak;
  accepted = l.accepted;
  completed = l.completed;
  failed = l.failed;
  cancelled = l.cancelled;
  rejected = l.rejected;
  queue_wait = l.queue_wait;
  execution_time = l.execution_time;
  queue_wait_max = l.queue_wait_max;
  execution_max = l.execution_max;
  rejected_by_event_type = l.rejected_types;
  rejected_by_connection = l.rejected_connections;
  rejected_stopped = l.rejected_stopped;
  rejected_full = l.rejected_full;
}

-- The diagnostics of the deliveries, `none` where one has no record, which is a KeyError.
unfoldable pub diagnostics : ℕ → (ℕ → Event) → List Delivery → Option (List DeliveryDiagnostic)
diagnostics now events [] = some []
diagnostics now events (d ∷ ds) =
    let rest = diagnostics now events ds in
    elim (lookup d.connection.id (events d.event).event_results) [
      | none ↦ none
      | some r ↦ elim rest [ none ↦ none | some reports ↦ some (diagnostic now r ∷ reports) ]
    ]

-- `pending_diagnostics`
unfoldable pub pending_diagnostics : ℕ → System → Option (List DeliveryDiagnostic)
unfolding diagnostics
pending_diagnostics now s = diagnostics now s.events (values s.loop.pending)
