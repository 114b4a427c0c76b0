-- ===== src/Scope/Queue/Taking.antt =====
-- The consumer takes the head of the queue.
use mathlib.Core.Path.{subst}
use agent_cdp.Events.Values.{return}
use agent_cdp.Prelude.{
  sym, ℕ, ◌+◌, ◌-◌, max, ◌≡◌, refl, ap, ◌∙◌, true, false, Option, none, some, List, [], ◌∷◌, ◌++◌,
  All, some_eq, if_ind, Dict, keys, has_key, contains, length, ==_refl, arith,
}
use agent_cdp.Events.Event.{Event, mark_running}
use agent_cdp.Scope.Queue.{
  System, begin_marked, ConsumerTask, System, Delivery, put, begin, take_next, take_from, or_kept,
}
use agent_cdp.Scope.Queue.Lists.{has_key-contains}
use agent_cdp.Scope.Queue.Records.{mark_running-Keeps, mark_running-returns}
use agent_cdp.Scope.Queue.Growth.{
  Grows, put-Grows, HasRecord-Grows, All-Grows, pending-Grows, HasRecord-eq,
}
use agent_cdp.Scope.Queue.Invariant.{Inv, sequences, active_sequence, HasRecord}
use agent_cdp.Scope.Queue.Changes.{flags-Inv}

-- The head of the queue, of an idle consumer, is the oldest pending delivery.
head_order :
    (directs : ℕ) (d : Delivery) (rest : List Delivery) (s : System)
    → s.loop.active ≡ none
    → s.loop.queue ≡ d ∷ rest
    → Inv directs s
    → keys s.loop.pending ≡ d.sequence ∷ sequences rest
head_order directs d rest s idle taken inv =
    inv.shape.order
    ∙ ap (λ a. active_sequence a ++ sequences s.loop.queue) idle
    ∙ ap sequences taken

pub first_pending :
    (n : ℕ) (ns : List ℕ) (pending : Dict Delivery)
    → keys pending ≡ n ∷ ns
    → has_key n pending ≡ true
first_pending n ns pending h =
    has_key-contains n pending ∙ ap (contains n) h ∙ ground (arith, ==_refl n)

-- The delivery taken from the head of the queue is the one in hand now.
begin-Inv :
    (directs now : ℕ) (d : Delivery) (rest : List Delivery) (s : System)
    → s.loop.active ≡ none
    → s.loop.queue ≡ d ∷ rest
    → Inv directs s
    → Inv directs (begin now d (record s { loop = record (s.loop) { queue = rest } }))
unfolding begin
begin-Inv directs now d rest s idle taken inv =
    if_ind (Inv directs) (has_key d.sequence s.loop.pending) _ _
      (λ _. subst (λ o. Inv directs (begin_marked now d o waiting)) (sym returns) begun)
      (λ absent. cc (absent, first_pending d.sequence (sequences rest) s.loop.pending order))
  where
    order : keys s.loop.pending ≡ d.sequence ∷ sequences rest
    order = head_order directs d rest s idle taken inv

    waiting : System
    waiting = record s { loop = record (s.loop) { queue = rest } }

    returns :
        mark_running now d.connection.id (s.events d.event)
        ≡ return (or_kept (s.events d.event) (mark_running now d.connection.id (s.events d.event)))
    returns =
        mark_running-returns now d.connection.id (s.events d.event)
          (subst (All (HasRecord s.events)) taken inv.recorded.waiting).0

    running : Event
    running = or_kept (s.events d.event) (mark_running now d.connection.id (s.events d.event))

    written : ℕ → Event
    written = put d.event running s.events

    grows : Grows s.events written
    grows =
        put-Grows d.event running s.events
          (mark_running-Keeps now d.connection.id (s.events d.event))

    waits : All (HasRecord s.events) (d ∷ rest)
    waits = subst (All (HasRecord s.events)) taken inv.recorded.waiting

    begun : Inv directs (record {
      loop = record (s.loop) {
        queue = rest;
        active = some (record d { started_at = some now });
        queue_wait = s.loop.queue_wait + (now - d.admitted_at);
        queue_wait_max = max s.loop.queue_wait_max (now - d.admitted_at);
      };
      events = written;
    })
    begun = record {
      shape = record {
        order = order;
        ascending = inv.shape.ascending;
        given_out = inv.shape.given_out;
        bounded = ground (arith, ap length taken, inv.shape.bounded);
        peak = omega (arith, ap length taken, inv.shape.peak);
        counted = inv.shape.counted;
      };
      recorded = record {
        waiting = All-Grows s.events written rest grows waits.1;
        pending = pending-Grows s.events written s.loop.pending grows inv.recorded.pending;
        in_hand = λ x h.
            HasRecord-eq written (record d { started_at = some now }) x (some_eq h)
              (HasRecord-Grows s.events written d grows waits.0);
      };
    }

take_from-Inv :
    (directs now : ℕ) (a : Option Delivery) (queue : List Delivery) (s : System)
    → s.loop.active ≡ a
    → s.loop.queue ≡ queue
    → Inv directs s
    → Inv directs (take_from now a queue s)
take_from-Inv directs now (some d) queue s e q inv = inv
take_from-Inv directs now none [] s e q inv =
    if_ind (Inv directs) s.loop.stopping _ _
      (λ _.
        flags-Inv directs s false s.loop.stopping s.loop.wake s.loop.consumer_cancelled
          ConsumerTask.ended inv)
      (λ _.
        flags-Inv directs s s.loop.running s.loop.stopping false s.loop.consumer_cancelled
          s.loop.task inv)
take_from-Inv directs now none (d ∷ rest) s e q inv = begin-Inv directs now d rest s e q inv

pub take_next-Inv : (directs now : ℕ) (s : System) → Inv directs s → Inv directs (take_next now s)
unfolding take_next
take_next-Inv directs now s inv =
    take_from-Inv directs now s.loop.active s.loop.queue s refl refl inv
