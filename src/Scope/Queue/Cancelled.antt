-- ===== src/Scope/Queue/Cancelled.antt =====
-- `_cancel_delivery`, `_cancel_remaining`, the request to stop, and the books of the queue.
use mathlib.Core.Path.{subst}
use agent_cdp.Prelude.{
  ℕ, ◌≡◌, refl, sym, Bool, true, false, Option, none, some, List, [], ◌∷◌, All, if_ind, lookup,
  has_key, ◌==◌, values, arith,
}
use agent_cdp.Events.Values.{cancelled_error}
use agent_cdp.Events.Delivery.{EventResult, ResultStatus}
use agent_cdp.Events.Event.{record_result, decrement_pending}
use agent_cdp.Scope.Queue.{
  System, Delivery, put, leave, finish_delivery, request_cancel, purge, cancel_queued,
  cancel_pending, leave_with, cancel_active, cancel_delivery, cancel_all, cancel_remaining,
}
use agent_cdp.Scope.Queue.Lists.{others}
use agent_cdp.Scope.Queue.Records.{record_result-Keeps, decrement_pending-Keeps}
use agent_cdp.Scope.Queue.Growth.{
  Grows, put-Grows, Grows-trans, HasRecord-Grows, All-Grows, pending-values,
}
use agent_cdp.Scope.Queue.Invariant.{Shape, Inv, active_sequence, HasRecord}
use agent_cdp.Scope.Queue.Leaving.{leave-Left}
use agent_cdp.Scope.Queue.Changes.{
  Inv-Grows, request_cancel-Grows, cancel_active-Inv, finish_delivery-leave,
}
use agent_cdp.Scope.Queue.Ending.{leave-Recorded}
use agent_cdp.Scope.Queue.Cancelling.{cancelled_shape, purge-Recorded}

-- The system when a queued delivery has been settled as cancelled, before it leaves.
unfoldable pub settled : ℕ → Delivery → System → System
settled now d s = record s {
  events =
      put d.event
        (record_result now d.connection.id d.connection.handler_name none (some cancelled_error)
          (some ResultStatus.cancelled) ((request_cancel d s).events d.event))
        (request_cancel d s).events;
}

pub settled-Grows : (now : ℕ) (d : Delivery) (s : System) → Grows s.events (settled now d s).events
unfolding settled
settled-Grows now d s =
    let asked = request_cancel d s in
    Grows-trans s.events asked.events (settled now d s).events (request_cancel-Grows d s) (
      put-Grows d.event _ asked.events (
        record_result-Keeps now d.connection.id d.connection.handler_name none
          (some cancelled_error) (some ResultStatus.cancelled) (asked.events d.event)))

settled-Inv :
    (directs now : ℕ) (d : Delivery) (s : System) → Inv directs s → Inv directs (settled now d s)
unfolding settled
settled-Inv directs now d s inv =
    Inv-Grows directs s (settled now d s).events (unfold settled in settled-Grows now d s) inv

-- A pending delivery that is not in hand settles, leaves and gives its place back.
cancel_queued-Inv :
    (directs now : ℕ) (d : Delivery) (s : System)
    → has_key d.sequence s.loop.pending ≡ true
    → others d.sequence (active_sequence s.loop.active) ≡ active_sequence s.loop.active
    → HasRecord s.events d
    → Inv directs s
    → Inv directs (cancel_queued now d s)
unfolding cancel_queued settled
cancel_queued-Inv directs now d s present apart known inv =
    let (r, e) =
      finish_delivery-leave now d (settled now d s) present
        (HasRecord-Grows s.events (settled now d s).events d (settled-Grows now d s) known) in
    let left = leave-Left now d r (settled now d s) in
    rw e (record {
      shape =
          subst
            (λ a. Shape directs (active_sequence a) (purge (leave now d r (settled now d s)).loop))
            (sym left.active)
            (cancelled_shape directs d.sequence (active_sequence s.loop.active) s.loop _ inv.shape
              present apart left);
      recorded = purge-Recorded (leave now d r (settled now d s)) (
          leave-Recorded now d r (settled now d s) left (settled-Inv directs now d s inv).recorded);
    })

apart_from : (n k : ℕ) → (n == k) ≡ false → others n (k ∷ []) ≡ k ∷ []
apart_from n k h = ground arith

cancel_pending-Inv :
    (directs now : ℕ) (d : Delivery) (include_running : Bool) (a : Option Delivery) (s : System)
    → s.loop.active ≡ a
    → has_key d.sequence s.loop.pending ≡ true
    → HasRecord s.events d
    → Inv directs s
    → Inv directs (cancel_pending now d include_running a s)
cancel_pending-Inv directs now d include_running none s e present known inv =
    cancel_queued-Inv directs now d s present
      (subst (λ a. others d.sequence (active_sequence a) ≡ active_sequence a) (sym e) refl) known
      inv
cancel_pending-Inv directs now d include_running (some a) s e present known inv =
    if_ind (Inv directs) (d.sequence == a.sequence) _ _
      (λ _.
        if_ind (Inv directs) include_running _ _ (λ _. cancel_active-Inv directs a s e inv)
          (λ _. inv))
      (λ other.
        cancel_queued-Inv directs now d s present
          (subst (λ a. others d.sequence (active_sequence a) ≡ active_sequence a) (sym e)
            (apart_from d.sequence a.sequence other))
          known inv)

pub cancel_delivery-Inv :
    (directs now : ℕ) (d : Delivery) (include_running : Bool) (s : System)
    → HasRecord s.events d
    → Inv directs s
    → Inv directs (cancel_delivery now d include_running s)
unfolding cancel_delivery
cancel_delivery-Inv directs now d include_running s known inv =
    if_ind (Inv directs) (has_key d.sequence s.loop.pending) _ _
      (λ present.
        cancel_pending-Inv directs now d include_running s.loop.active s refl present known inv)
      (λ _. inv)

finish_delivery-Grows :
    (now : ℕ) (d : Delivery) (s : System) → Grows s.events (finish_delivery now d s).events
unfolding finish_delivery
finish_delivery-Grows now d s =
    if_ind (λ (t : System). Grows s.events t.events) (has_key d.sequence s.loop.pending) _ s
      (λ _. left (lookup d.connection.id (s.events d.event).event_results)) (λ _. λ e j h. h)
  where
    left : (o : Option EventResult) → Grows s.events (leave_with now d o s).events
    left none = λ e j h. h
    left (some r) =
        put-Grows d.event (decrement_pending (s.events d.event)) s.events
          (decrement_pending-Keeps (s.events d.event))

cancel_queued-Grows :
    (now : ℕ) (d : Delivery) (s : System) → Grows s.events (cancel_queued now d s).events
unfolding cancel_queued settled
cancel_queued-Grows now d s =
    Grows-trans s.events (settled now d s).events (finish_delivery now d (settled now d s)).events
      (settled-Grows now d s) (finish_delivery-Grows now d (settled now d s))

cancel_pending-Grows :
    (now : ℕ) (d : Delivery) (include_running : Bool) (a : Option Delivery) (s : System)
    → Grows s.events (cancel_pending now d include_running a s).events
unfolding cancel_active
cancel_pending-Grows now d include_running none s = cancel_queued-Grows now d s
cancel_pending-Grows now d include_running (some a) s =
    if_ind (λ (t : System). Grows s.events t.events) (d.sequence == a.sequence) _ _
      (λ _.
        if_ind (λ (t : System). Grows s.events t.events) include_running _ s
          (λ _.
            if_ind (λ (t : System). Grows s.events t.events) a.cancel_sent s _ (λ _. λ e j h. h)
              (λ _. request_cancel-Grows a s))
          (λ _. λ e j h. h))
      (λ _. cancel_queued-Grows now d s)

pub cancel_delivery-Grows :
    (now : ℕ) (d : Delivery) (include_running : Bool) (s : System)
    → Grows s.events (cancel_delivery now d include_running s).events
unfolding cancel_delivery
cancel_delivery-Grows now d include_running s =
    if_ind (λ (t : System). Grows s.events t.events) (has_key d.sequence s.loop.pending) _ s
      (λ _. cancel_pending-Grows now d include_running s.loop.active s) (λ _. λ e j h. h)

cancel_all-Inv :
    (directs now : ℕ) (ds : List Delivery) (s : System)
    → All (HasRecord s.events) ds
    → Inv directs s
    → Inv directs (cancel_all now ds s)
unfolding cancel_all
cancel_all-Inv directs now [] s known inv = inv
cancel_all-Inv directs now (d ∷ ds) s known inv =
    cancel_all-Inv directs now ds (cancel_delivery now d true s)
      (All-Grows s.events (cancel_delivery now d true s).events ds
        (cancel_delivery-Grows now d true s) known.1)
      (cancel_delivery-Inv directs now d true s known.0 inv)

pub cancel_remaining-Inv :
    (directs now : ℕ) (s : System) → Inv directs s → Inv directs (cancel_remaining now s)
unfolding cancel_remaining
cancel_remaining-Inv directs now s inv =
    cancel_all-Inv directs now (values s.loop.pending) s
      (pending-values s.events s.loop.pending inv.recorded.pending) inv
