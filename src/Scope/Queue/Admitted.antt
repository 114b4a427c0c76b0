-- ===== src/Scope/Queue/Admitted.antt =====
-- `enqueue` and the direct handlers, and the books of the queue.
use mathlib.Core.Path.{subst}
use agent_cdp.Prelude.{
  ℕ, ◌+◌, ◌≡◌, ap, sym, ◌∙◌, true, false, Option, none, some, ◌++◌, All, if_ind, if_true, keys,
  has_key, length, ◌==◌, ==_refl, arith,
}
use agent_cdp.Events.Values.{Exc}
use agent_cdp.Events.Delivery.{EventResult, ResultStatus}
use agent_cdp.Events.Event.{Event, Receiver, record_result}
use agent_cdp.Scope.Queue.{
  Loop, System, put, is_full, refuses, prepared, reject, enqueue, direct_started, direct_finished,
}
use agent_cdp.Scope.Queue.Lists.{Above}
use agent_cdp.Scope.Queue.Records.{
  record_result-Keeps, decrement_pending-Keeps, prepared-Keeps, prepared-has_key,
}
use agent_cdp.Scope.Queue.Growth.{put-Grows}
use agent_cdp.Scope.Queue.Invariant.{AllPending, Inv, sequences, active_sequence, HasRecord}
use agent_cdp.Scope.Queue.Changes.{Inv-Grows}
use agent_cdp.Scope.Queue.Admitting.{numbered-Inv, admit-Inv}
use agent_cdp.Scope.Queue.Books.{SameBooks, SameBooks-Inv}

reject-SameBooks :
    (now e : ℕ) (c : Receiver) (error : Exc) (s : System)
    → SameBooks s.loop (reject now e c error s).loop
unfolding reject
reject-SameBooks now e c error s = ground arith

reject-Inv :
    (directs now e : ℕ) (c : Receiver) (error : Exc) (s : System)
    → Inv directs s
    → Inv directs (reject now e c error s)
unfolding reject
reject-Inv directs now e c error s inv =
    SameBooks-Inv directs s (reject now e c error s) inv
      (unfold reject in reject-SameBooks now e c error s)
      (put-Grows e _ s.events (λ j h. decrement_pending-Keeps recorded j (
        record_result-Keeps now c.id c.handler_name none (some error) (some ResultStatus.rejected)
          (s.events e) j h)))
  where
    recorded : Event
    recorded =
        record_result now c.id c.handler_name none (some error) (some ResultStatus.rejected)
          (s.events e)

put_self : (e : ℕ) (ev : Event) (events : ℕ → Event) → put e ev events e ≡ ev
put_self e ev events = if_true (e == e) ev (events e) (==_refl e)

pub enqueue-Inv :
    (directs now e : ℕ) (c : Receiver) (source_id : ℕ) (s : System)
    → Inv directs s
    → Inv directs (enqueue now e c source_id s).0
unfolding enqueue
enqueue-Inv directs now e c source_id s inv =
    if_ind (λ (t : System × Option Exc). Inv directs t.0) (refuses numbered.loop) _ _
      (λ _. reject-Inv directs now e c _ numbered (numbered-Inv directs ready begun))
      (λ takes. admit-Inv directs now e c ready begun (not_full takes) known)
  where
    ready : System
    ready = record s { events = put e (prepared now c source_id s.loop (s.events e)) s.events }

    numbered : System
    numbered = record ready { loop = record (s.loop) { sequence = s.loop.sequence + 1 } }

    begun : Inv directs ready
    begun =
        Inv-Grows directs s ready.events
          (put-Grows e (prepared now c source_id s.loop (s.events e)) s.events
            (prepared-Keeps now c source_id s.loop (s.events e)))
          inv

    not_full : refuses numbered.loop ≡ false → is_full s.loop ≡ false
    not_full h = ground arith

    known : has_key c.id (ready.events e).event_results ≡ true
    known =
        ap (λ ev. has_key c.id ev.event_results)
          (put_self e (prepared now c source_id s.loop (s.events e)) s.events)
        ∙ prepared-has_key now c source_id s.loop (s.events e)

pub direct_started-Inv :
    (directs now : ℕ) (s : System)
    → Inv directs s
    → Inv (directs + 1) (record s { loop = (direct_started now s.loop).0 })
unfolding direct_started
direct_started-Inv directs now s inv =
    let next = numbered-Inv directs s inv in
    record {
      shape = record {
        order = next.shape.order;
        ascending = next.shape.ascending;
        given_out = next.shape.given_out;
        bounded = next.shape.bounded;
        peak = next.shape.peak;
        counted = omega (arith, inv.shape.counted);
      };
      recorded = record {
        waiting = inv.recorded.waiting;
        pending = inv.recorded.pending;
        in_hand = inv.recorded.in_hand;
      };
    }

-- What the end of a direct handler writes into the loop.
record Counted (l l' : Loop) : Type 0 where
  queue : l'.queue ≡ l.queue
  pending : l'.pending ≡ l.pending
  active : l'.active ≡ l.active
  maxsize : l'.maxsize ≡ l.maxsize
  sequence : l'.sequence ≡ l.sequence
  peak : l'.queue_peak ≡ l.queue_peak
  accepted : l'.accepted ≡ l.accepted
  settled : l'.completed + l'.failed + l'.cancelled ≡ l.completed + l.failed + l.cancelled + 1

direct_finished-Counted :
    (now : ℕ) (r : EventResult) (n began : ℕ) (l : Loop)
    → Counted l (direct_finished now r n began l)
unfolding direct_finished
direct_finished-Counted now r n began l = ground arith

pub direct_finished-Inv :
    (directs now : ℕ) (r : EventResult) (n began : ℕ) (s : System)
    → Inv (directs + 1) s
    → Inv directs (record s { loop = direct_finished now r n began s.loop })
direct_finished-Inv directs now r n began s inv = record {
  shape = record {
    order =
        ap keys done.pending
        ∙ inv.shape.order
        ∙ ap (λ a. active_sequence a ++ sequences s.loop.queue) (sym done.active)
        ∙ ap (λ q. active_sequence after.active ++ sequences q) (sym done.queue);
    ascending = subst (λ p. Above 0 (keys p)) (sym done.pending) inv.shape.ascending;
    given_out = rw (done.pending, done.sequence) inv.shape.given_out;
    bounded = ground (arith, ap length done.queue, done.maxsize, inv.shape.bounded);
    peak = omega (arith, ap length done.queue, done.peak, inv.shape.peak);
    counted = omega (arith, ap length done.pending, done.accepted, done.settled, inv.shape.counted);
  };
  recorded = record {
    waiting = subst (All (HasRecord s.events)) (sym done.queue) inv.recorded.waiting;
    pending = subst (AllPending s.events) (sym done.pending) inv.recorded.pending;
    in_hand = λ x h. inv.recorded.in_hand x (sym done.active ∙ h);
  };
}
  where
    after : Loop
    after = direct_finished now r n began s.loop

    done : Counted s.loop after
    done = direct_finished-Counted now r n began s.loop
