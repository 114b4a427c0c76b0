-- ===== src/Scope/Queue/Ending.antt =====
-- The delivery in hand ends.
use mathlib.Core.Path.{subst}
use agent_cdp.Prelude.{
  ℕ, ◌≡◌, refl, ap, sym, ◌∙◌, Option, none, some, List, [], ◌∷◌, ◌++◌, All, keys, length, ==_refl,
  arith,
}
use agent_cdp.Events.Delivery.{EventResult}
use agent_cdp.Events.Event.{Event, record_result, decrement_pending}
use agent_cdp.Scope.Queue.{
  Loop, System, Delivery, put, leave, TaskEnd, end_value, task_ends_for, end_error, end_status,
  conclude, task_ends,
}
use agent_cdp.Scope.Queue.Lists.{Above, others, others_above, Above-All}
use agent_cdp.Scope.Queue.Records.{record_result-Keeps, decrement_pending-Keeps}
use agent_cdp.Scope.Queue.Growth.{
  Grows, put-Grows, HasRecord-Grows, All-Grows, pending-Grows, pending-erase,
}
use agent_cdp.Scope.Queue.Invariant.{
  AllPending, Shape, Recorded, Inv, sequences, active_sequence, HasRecord,
}
use agent_cdp.Scope.Queue.Leaving.{Left, Left-Shrunk, Shrunk, leave-Left}
use agent_cdp.Scope.Queue.Changes.{finish_delivery-leave}
use agent_cdp.Scope.Queue.Taking.{first_pending}

pub leave-Recorded :
    (now : ℕ) (d : Delivery) (r : EventResult) (s : System)
    → Left d.sequence s.loop (leave now d r s).loop
    → Recorded s
    → Recorded (leave now d r s)
leave-Recorded now d r s left known = record {
  waiting =
      subst (All (HasRecord written)) (sym left.queue)
        (All-Grows s.events written s.loop.queue grows known.waiting);
  pending = subst (AllPending written) (sym left.pending) (
      pending-erase written d.sequence s.loop.pending
        (pending-Grows s.events written s.loop.pending grows known.pending));
  in_hand = λ x h. HasRecord-Grows s.events written x grows (known.in_hand x (sym left.active ∙ h));
}
  where
    written : ℕ → Event
    written = (leave now d r s).events

    grows : Grows s.events written
    grows =
        put-Grows d.event (decrement_pending (s.events d.event)) s.events
          (decrement_pending-Keeps (s.events d.event))

-- The delivery `n` was in hand: taking it out leaves the queue behind it.
taken_out : (n : ℕ) (ns : List ℕ) → Above 0 (n ∷ ns) → others n (n ∷ []) ++ others n ns ≡ ns
taken_out n ns up = ground (arith, ==_refl n, others_above n ns (Above-All n ns up.1))

ended_shape :
    (directs : ℕ) (d : Delivery) (l l' : Loop)
    → Shape directs (d.sequence ∷ []) l
    → l.active ≡ none
    → Left d.sequence l l'
    → Shape directs (active_sequence l'.active) l'
ended_shape directs d l l' h idle left = record {
  order =
      shrunk.order
      ∙ taken_out d.sequence (sequences l.queue) (subst (Above 0) h.order h.ascending)
      ∙ ap sequences (sym left.queue)
      ∙ ap (λ a. active_sequence a ++ sequences l'.queue) (sym (left.active ∙ idle));
  ascending = shrunk.ascending;
  given_out = shrunk.given_out;
  bounded = ground (arith, ap length left.queue, left.maxsize, h.bounded);
  peak = omega (arith, ap length left.queue, left.peak, h.peak);
  counted = shrunk.counted;
}
  where
    shrunk : Shrunk directs d.sequence (d.sequence ∷ []) l l'
    shrunk =
        Left-Shrunk directs d.sequence (d.sequence ∷ []) l l' h
          (first_pending d.sequence (sequences l.queue) l.pending h.order) left

-- The delivery in hand ends, and the queue behind it stays.
conclude-Inv :
    (directs now : ℕ) (end : TaskEnd) (d : Delivery) (s : System)
    → s.loop.active ≡ some d
    → Inv directs s
    → Inv directs (conclude now end d s)
unfolding conclude
conclude-Inv directs now end d s busy inv =
    let (r, e) =
      finish_delivery-leave now d ended
        (first_pending d.sequence (sequences s.loop.queue) s.loop.pending order)
        (HasRecord-Grows s.events ended.events d grows (inv.recorded.in_hand d busy)) in
    rw e (record {
      shape =
          ended_shape directs d ended.loop (leave now d r ended).loop shape refl
            (leave-Left now d r ended);
      recorded = leave-Recorded now d r ended (leave-Left now d r ended) known;
    })
  where
    order : keys s.loop.pending ≡ d.sequence ∷ sequences s.loop.queue
    order = inv.shape.order ∙ ap (λ a. active_sequence a ++ sequences s.loop.queue) busy

    settled : Event
    settled =
        record_result now d.connection.id d.connection.handler_name (end_value end)
          (end_error d.timed_out end) (end_status d.timed_out end) (s.events d.event)

    ended : System
    ended = record {
      loop = record (s.loop) { active = none };
      events = put d.event settled s.events;
    }

    grows : Grows s.events ended.events
    grows = put-Grows d.event settled s.events (
        record_result-Keeps now d.connection.id d.connection.handler_name (end_value end)
          (end_error d.timed_out end) (end_status d.timed_out end) (s.events d.event))

    shape : Shape directs (d.sequence ∷ []) ended.loop
    shape = record {
      order = order;
      ascending = inv.shape.ascending;
      given_out = inv.shape.given_out;
      bounded = inv.shape.bounded;
      peak = inv.shape.peak;
      counted = inv.shape.counted;
    }

    known : Recorded ended
    known = record {
      waiting = All-Grows s.events ended.events s.loop.queue grows inv.recorded.waiting;
      pending = pending-Grows s.events ended.events s.loop.pending grows inv.recorded.pending;
      in_hand = λ x h. cc;
    }

task_ends_for-Inv :
    (directs now : ℕ) (end : TaskEnd) (a : Option Delivery) (s : System)
    → s.loop.active ≡ a
    → Inv directs s
    → Inv directs (task_ends_for now end a s)
task_ends_for-Inv directs now end none s e inv = inv
task_ends_for-Inv directs now end (some d) s e inv = conclude-Inv directs now end d s e inv

pub task_ends-Inv :
    (directs now : ℕ) (end : TaskEnd) (s : System)
    → Inv directs s
    → Inv directs (task_ends now end s)
unfolding task_ends
task_ends-Inv directs now end s inv = task_ends_for-Inv directs now end s.loop.active s refl inv
