-- ===== src/Scope/Queue/Changes.antt =====
-- Steps that change the events, the flags or the delivery in hand only.
use agent_cdp.Prelude.{
  ℕ, ◌≡◌, inl, inr, refl, ap, sym, ◌∙◌, Bool, true, Option, none, some, [], ◌∷◌, ◌++◌, some_eq,
  if_ind, if_true, lookup, has_key, Option-cases,
}
use agent_cdp.Events.Delivery.{EventResult}
use agent_cdp.Events.Event.{Event}
use agent_cdp.Scope.Queue.{
  ConsumerTask, System, Delivery, leave, finish_delivery, expire_for, leave_with, request_cancel,
  expire, cancel_active,
}
use agent_cdp.Scope.Queue.Records.{request_cancel-Keeps}
use agent_cdp.Scope.Queue.Growth.{
  Grows, put-Grows, HasRecord-Grows, All-Grows, pending-Grows, HasRecord-eq,
}
use agent_cdp.Scope.Queue.Invariant.{Recorded, Inv, sequences, active_sequence, HasRecord}

-- A step that leaves the queues alone and lets the records grow.
Recorded-Grows :
    (s : System) (events : ℕ → Event)
    → Grows s.events events
    → Recorded s
    → Recorded (record s { events = events })
Recorded-Grows s events g r = record {
  waiting = All-Grows s.events events s.loop.queue g r.waiting;
  pending = pending-Grows s.events events s.loop.pending g r.pending;
  in_hand = λ d e. HasRecord-Grows s.events events d g (r.in_hand d e);
}

pub request_cancel-Grows : (d : Delivery) (s : System) → Grows s.events (request_cancel d s).events
request_cancel-Grows d s =
    put-Grows d.event _ s.events (request_cancel-Keeps d.connection.id (s.events d.event))

-- Asking the delivery in hand to stop changes nothing that the invariant speaks of but the copy in
-- hand.
active_changes :
    (directs : ℕ) (d d' : Delivery) (s : System)
    → Inv directs s
    → s.loop.active ≡ some d
    → d'.sequence ≡ d.sequence
    → d'.event ≡ d.event
    → d'.connection ≡ d.connection
    → Inv directs (record s { loop = record (s.loop) { active = some d' } })
active_changes directs d d' s inv e n same_event same_connection = record {
  shape = record {
    order =
        inv.shape.order
        ∙ ap (λ a. a ++ sequences s.loop.queue) (ap active_sequence e ∙ ap (λ k. k ∷ []) (sym n));
    ascending = inv.shape.ascending;
    given_out = inv.shape.given_out;
    bounded = inv.shape.bounded;
    peak = inv.shape.peak;
    counted = inv.shape.counted;
  };
  recorded = record {
    waiting = inv.recorded.waiting;
    pending = inv.recorded.pending;
    in_hand = λ x h. HasRecord-eq s.events d' x (some_eq h) known;
  };
}
  where
    known : HasRecord s.events d'
    known = rw (same_event, same_connection) (inv.recorded.in_hand d e)

pub Inv-Grows :
    (directs : ℕ) (s : System) (events : ℕ → Event)
    → Grows s.events events
    → Inv directs s
    → Inv directs (record s { events = events })
Inv-Grows directs s events g inv = record {
  shape = inv.shape;
  recorded = Recorded-Grows s events g inv.recorded;
}

pub request_cancel-Inv :
    (directs : ℕ) (d : Delivery) (s : System) → Inv directs s → Inv directs (request_cancel d s)
request_cancel-Inv directs d s inv =
    Inv-Grows directs s (request_cancel d s).events (request_cancel-Grows d s) inv

expire_for-Inv :
    (directs : ℕ) (a : Option Delivery) (s : System)
    → s.loop.active ≡ a
    → Inv directs s
    → Inv directs (expire_for a s)
expire_for-Inv directs none s e inv = inv
expire_for-Inv directs (some d) s e inv = request_cancel-Inv directs d _ (
    active_changes directs d (record d { timed_out = true; cancel_sent = true }) s inv e refl refl
      refl)

pub expire-Inv : (directs : ℕ) (s : System) → Inv directs s → Inv directs (expire s)
unfolding expire
expire-Inv directs s inv = expire_for-Inv directs s.loop.active s refl inv

pub cancel_active-Inv :
    (directs : ℕ) (d : Delivery) (s : System)
    → s.loop.active ≡ some d
    → Inv directs s
    → Inv directs (cancel_active d s)
unfolding cancel_active
cancel_active-Inv directs d s e inv =
    if_ind (Inv directs) d.cancel_sent s _ (λ _. inv)
      (λ _.
        request_cancel-Inv directs d _
          (active_changes directs d (record d { cancel_sent = true }) s inv e refl refl refl))

-- `_finish` for a delivery that is pending and has its record.
pub finish_delivery-leave :
    (now : ℕ) (d : Delivery) (s : System)
    → has_key d.sequence s.loop.pending ≡ true
    → HasRecord s.events d
    → (r : EventResult) × (finish_delivery now d s ≡ leave now d r s)
unfolding finish_delivery
finish_delivery-leave now d s pending known =
    elim (Option-cases (lookup d.connection.id (s.events d.event).event_results)) [
      | inl e ↦ cc (known, e)
      | inr (r, e) ↦ (
        r,
        if_true (has_key d.sequence s.loop.pending) _ s pending ∙ ap (λ o. leave_with now d o s) e,
      )
    ]

pub flags-Inv :
    (directs : ℕ) (s : System) (running stopping wake consumer_cancelled : Bool)
    (task : ConsumerTask)
    → Inv directs s
    → Inv directs (record s {
      loop = record (s.loop) {
        running = running;
        stopping = stopping;
        wake = wake;
        task = task;
        consumer_cancelled = consumer_cancelled;
      };
    })
flags-Inv directs s running stopping wake consumer_cancelled task inv = record {
  shape = record {
    order = inv.shape.order;
    ascending = inv.shape.ascending;
    given_out = inv.shape.given_out;
    bounded = inv.shape.bounded;
    peak = inv.shape.peak;
    counted = inv.shape.counted;
  };
  recorded = record {
    waiting = inv.recorded.waiting;
    pending = inv.recorded.pending;
    in_hand = inv.recorded.in_hand;
  };
}
