-- ===== src/Scope/Queue/Balance.antt =====
-- The reports of a queue under any sequence of steps.
use agent_cdp.Prelude.{
  ℕ, ◌+◌, ◌≡◌, refl, ap, Option, none, some, List, [], ◌∷◌, Dict, keys, length, length-append,
  is_some, if◌then◌else◌, ℤ, arith,
}
use agent_cdp.Events.Values.{return}
use agent_cdp.Events.Event.{Event}
use agent_cdp.Scope.Queue.{Loop, System, Delivery, new_loop, stats}
use agent_cdp.Scope.Queue.Invariant.{Inv, sequences, active_sequence}
use agent_cdp.Scope.Queue.Runs.{Action, run_queue, run_queue_books}

pub length-keys : {V : Type 0} (d : Dict V) → length (keys d) ≡ length d
length-keys [] = refl
length-keys ((k, v) ∷ d) = omega (arith, length-keys d)

length-sequences : (ds : List Delivery) → length (sequences ds) ≡ length ds
length-sequences [] = refl
length-sequences (d ∷ ds) = omega (arith, length-sequences ds)

length-active_sequence :
    (a : Option Delivery) → length (active_sequence a) ≡ (if is_some a then 1 else 0)
length-active_sequence none = refl
length-active_sequence (some d) = refl

Inv-stats :
    (directs : ℕ) (s : System)
    → Inv directs s
    → (stats s.loop).accepted
      ≡ (stats s.loop).completed
        + (stats s.loop).failed
        + (stats s.loop).cancelled
        + (stats s.loop).queued
        + (stats s.loop).running
        + directs
unfolding stats
Inv-stats directs s inv = omega (
  arith,
  inv.shape.counted,
  length-keys s.loop.pending,
  ap length inv.shape.order,
  length-append (active_sequence s.loop.active) (sequences s.loop.queue),
  length-active_sequence s.loop.active,
  length-sequences s.loop.queue,
)

-- The statistics of a queue balance after any steps of the consumer, the callers and whoever changes
-- the events: what was accepted is completed, failed, cancelled, queued or running, or is one of
-- the direct handlers under way.
pub run_queue-stats :
    (scope_id : ℕ) (maxsize interval : ℤ) (threshold : Option ℤ) (l : Loop) (events : ℕ → Event)
    (actions : List Action)
    → new_loop scope_id maxsize interval threshold ≡ return l
    → let (directs, s) = run_queue (0, record { loop = l; events = events }) actions in
      let report = stats s.loop in
      report.accepted
      ≡ report.completed + report.failed + report.cancelled + report.queued + report.running
        + directs
run_queue-stats scope_id maxsize interval threshold l events actions made =
    let w = run_queue (0, record { loop = l; events = events }) actions in
    Inv-stats w.0 w.1 (run_queue_books scope_id maxsize interval threshold l events actions made)
