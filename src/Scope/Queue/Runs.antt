-- ===== src/Scope/Queue/Runs.antt =====
-- The queue of a scope under any sequence of steps: its own, those of the code that calls it, and
-- those of whoever else changes the events.
use mathlib.Core.Path.{subst}
use agent_cdp.Scope.Queue.Lists.{Above}
use native.Mathlib.Numerals.{add-one}
use agent_cdp.Prelude.{
  ℕ, zero, suc, ◌+◌, ◌≤◌, ◌≡◌, inr, refl, Bool, Option, none, some, List, [], ◌∷◌, lookup, ℤ, pos,
  negsuc, ap, sym, ◌∙◌, ◌++◌, All, keys, length, arith,
}
use agent_cdp.Events.Values.{return}
use agent_cdp.Events.Delivery.{EventResult}
use agent_cdp.Events.Event.{
  Event, Receiver, consume, increment_pending, decrement_pending, preflight, prepare_delivery,
  set_delivery_scope, set_cancel_callback, finish,
}
use agent_cdp.Events.Event.Completion.{Call, call}
use agent_cdp.Scope.Queue.{
  start, finish_stop, cancel_consumer, handler_ends, or_kept, Loop, System, Delivery, new_loop, put,
  enqueue, take_next, TaskEnd, expire, cancel_delivery, cancel_remaining, request_stop,
  direct_started, direct_finished,
}
use agent_cdp.Scope.Queue.Records.{
  Keeps, has_key-insert, record_result-Keeps, mark_running-Keeps, request_cancel-Keeps,
}
use agent_cdp.Scope.Queue.Growth.{put-Grows, pending-lookup}
use agent_cdp.Scope.Queue.Invariant.{AllPending, Inv, sequences, active_sequence, HasRecord}
use agent_cdp.Scope.Queue.Changes.{Inv-Grows, expire-Inv}
use agent_cdp.Scope.Queue.Taking.{take_next-Inv}
use agent_cdp.Scope.Queue.Stopping.{
  start-Inv, request_stop-Inv, finish_stop-Inv, cancel_consumer-Inv, handler_ends-Inv,
}
use agent_cdp.Scope.Queue.Cancelled.{cancel_delivery-Inv, cancel_remaining-Inv}
use agent_cdp.Scope.Queue.Admitted.{enqueue-Inv, direct_started-Inv, direct_finished-Inv}

pub data Action : Type 0 where
  enqueues : (now e : ℕ) → Receiver → (source_id : ℕ) → Action
  takes : (now : ℕ) → Action
  ends : (now : ℕ) → TaskEnd → Action
  expires : Action
  cancels : (now n : ℕ) (include_running : Bool) → Action
  cancels_rest : (now : ℕ) → Action
  starts : Action
  stops : (now : ℕ) (drain : Bool) → Action
  stop_ends : (now : ℕ) → Action
  consumer_is_cancelled : (now : ℕ) → Action
  direct_starts : (now : ℕ) → Action
  direct_ends : (now : ℕ) → EventResult → (n began : ℕ) → Action
  event_changes : (e : ℕ) → Call → Action

-- The system, and how many direct handlers are under way.
abbrev pub World : Type 0
World = ℕ × System

-- A cancel callback of a delivery that is done does nothing.
abbrev pub cancel_numbered : ℕ → Bool → Option Delivery → System → System
cancel_numbered now include_running none s = s
cancel_numbered now include_running (some d) s = cancel_delivery now d include_running s

abbrev pub direct_end : ℕ → EventResult → ℕ → ℕ → World → World
direct_end now r n began (zero, s) = (zero, s)
direct_end now r n began (suc directs, s) =
    (directs, record s { loop = direct_finished now r n began s.loop })

unfoldable pub act : Action → World → World
act (Action.enqueues now e c source_id) (directs, s) = (directs, (enqueue now e c source_id s).0)
act (Action.takes now) (directs, s) = (directs, take_next now s)
act (Action.ends now end) (directs, s) = (directs, handler_ends now end s)
act Action.expires (directs, s) = (directs, expire s)
act (Action.cancels now n include_running) (directs, s) =
    (directs, cancel_numbered now include_running (lookup n s.loop.pending) s)
act (Action.cancels_rest now) (directs, s) = (directs, cancel_remaining now s)
act (Action.stops now drain) (directs, s) = (directs, request_stop now drain s)
act Action.starts (directs, s) = (directs, record s { loop = or_kept s.loop (start s.loop) })
act (Action.stop_ends now) (directs, s) = (directs, (finish_stop now s).0)
act (Action.consumer_is_cancelled now) (directs, s) = (directs, cancel_consumer now s)
act (Action.direct_starts now) (directs, s) =
    (directs + 1, record s { loop = (direct_started now s.loop).0 })
act (Action.direct_ends now r n began) w = direct_end now r n began w
act (Action.event_changes e c) (directs, s) =
    (directs, record s { events = put e (call (s.events e) c) s.events })

unfoldable pub run_queue : World → List Action → World
run_queue w [] = w
run_queue w (a ∷ rest) = run_queue (act a w) rest

-- Where a queue comes to from the loop that its constructor made.
abbrev pub reached : Loop → (ℕ → Event) → List Action → World
reached l events actions = run_queue (0, record { loop = l; events = events }) actions

call-Keeps : (c : Call) (ev : Event) → Keeps ev (call ev c)
unfolding call consume increment_pending decrement_pending preflight prepare_delivery
    set_delivery_scope set_cancel_callback finish
call-Keeps (Call.marks_running now cid) ev = mark_running-Keeps now cid ev
call-Keeps (Call.requests_cancel cid) ev = request_cancel-Keeps cid ev
call-Keeps (Call.records now cid name result error status) ev =
    record_result-Keeps now cid name result error status ev
call-Keeps (Call.prepares now c source_id scope_id queued) ev =
    λ j h. has_key-insert j c.id _ ev.event_results h
call-Keeps (Call.preflights cs) ev = λ j h. ground arith
call-Keeps _ ev = λ j h. h

cancel_numbered-Inv :
    (directs now n : ℕ) (include_running : Bool) (o : Option Delivery) (s : System)
    → lookup n s.loop.pending ≡ o
    → Inv directs s
    → Inv directs (cancel_numbered now include_running o s)
cancel_numbered-Inv directs now n include_running none s e inv = inv
cancel_numbered-Inv directs now n include_running (some d) s e inv =
    cancel_delivery-Inv directs now d include_running s
      (pending-lookup s.events n d s.loop.pending inv.recorded.pending e) inv

direct_end-Inv :
    (now : ℕ) (r : EventResult) (n began : ℕ) (w : World)
    → Inv w.0 w.1
    → Inv (direct_end now r n began w).0 (direct_end now r n began w).1
direct_end-Inv now r n began (zero, s) inv = inv
direct_end-Inv now r n began (suc directs, s) inv =
    direct_finished-Inv directs now r n began s (rw add-one inv)

act-Inv : (a : Action) (w : World) → Inv w.0 w.1 → Inv (act a w).0 (act a w).1
unfolding act
act-Inv (Action.enqueues now e c source_id) (directs, s) inv =
    enqueue-Inv directs now e c source_id s inv
act-Inv (Action.takes now) (directs, s) inv = take_next-Inv directs now s inv
act-Inv (Action.ends now end) (directs, s) inv = handler_ends-Inv directs now end s inv
act-Inv Action.expires (directs, s) inv = expire-Inv directs s inv
act-Inv (Action.cancels now n include_running) (directs, s) inv =
    cancel_numbered-Inv directs now n include_running (lookup n s.loop.pending) s refl inv
act-Inv (Action.cancels_rest now) (directs, s) inv = cancel_remaining-Inv directs now s inv
act-Inv (Action.stops now drain) (directs, s) inv = request_stop-Inv directs now drain s inv
act-Inv Action.starts (directs, s) inv = start-Inv directs s inv
act-Inv (Action.stop_ends now) (directs, s) inv = finish_stop-Inv directs now s inv
act-Inv (Action.consumer_is_cancelled now) (directs, s) inv = cancel_consumer-Inv directs now s inv
act-Inv (Action.direct_starts now) (directs, s) inv = direct_started-Inv directs now s inv
act-Inv (Action.direct_ends now r n began) w inv = direct_end-Inv now r n began w inv
act-Inv (Action.event_changes e c) (directs, s) inv =
    Inv-Grows directs s (put e (call (s.events e) c) s.events)
      (put-Grows e (call (s.events e) c) s.events (call-Keeps c (s.events e))) inv

pub run_queue-Inv :
    (actions : List Action) (w : World)
    → Inv w.0 w.1
    → Inv (run_queue w actions).0 (run_queue w actions).1
unfolding run_queue
run_queue-Inv [] w inv = inv
run_queue-Inv (a ∷ actions) w inv = run_queue-Inv actions (act a w) (act-Inv a w inv)

-- What the constructor leaves empty.
pub record Fresh (l : Loop) : Type 0 where
  pub queue : l.queue ≡ []
  pending : l.pending ≡ []
  active : l.active ≡ none
  accepted : l.accepted ≡ 0
  settled : l.completed + l.failed + l.cancelled ≡ 0

pub new_loop-Fresh :
    (scope_id : ℕ) (maxsize interval : ℤ) (threshold : Option ℤ) (l : Loop)
    → new_loop scope_id maxsize interval threshold ≡ return l
    → Fresh l
unfolding new_loop
new_loop-Fresh scope_id (negsuc m) interval threshold l h = cc
new_loop-Fresh scope_id (pos m) (negsuc i) threshold l h = cc
new_loop-Fresh scope_id (pos m) (pos i) threshold l h = ground arith

Fresh-Inv : (l : Loop) (events : ℕ → Event) → Fresh l → Inv 0 (record { loop = l; events = events })
Fresh-Inv l events new = record {
  shape = record {
    order =
        ap keys new.pending
        ∙ ap (λ a. active_sequence a ++ []) (sym new.active)
        ∙ ap (λ q. active_sequence l.active ++ sequences q) (sym new.queue);
    ascending = subst (λ p. Above 0 (keys p)) (sym new.pending) tt;
    given_out = subst (λ p. All (λ k. k ≤ l.sequence) (keys p)) (sym new.pending) tt;
    bounded = inr (omega (arith, ap length new.queue));
    peak = omega (arith, ap length new.queue);
    counted = omega (arith, ap length new.pending, new.accepted, new.settled);
  };
  recorded = record {
    waiting = subst (All (HasRecord events)) (sym new.queue) tt;
    pending = subst (AllPending events) (sym new.pending) tt;
    in_hand = λ d h. absurd (nothing_in_hand d (sym new.active ∙ h));
  };
}
  where
    nothing_in_hand : (d : Delivery) → ¬ (◌≡◌ {A = Option Delivery} none (some d))
    nothing_in_hand d h = cc

-- A queue that was made by its constructor keeps its books through any steps of the consumer, the
-- callers and whoever changes the events: pending is the delivery in hand and then the queue, in
-- the order of admission and each under a number of its own; the queue never exceeds its bound, nor
-- its recorded peak; every accepted delivery is counted once as completed, failed or cancelled, or
-- is pending, or is a direct handler under way; and every delivery has its record on its event.
pub run_queue_books :
    (scope_id : ℕ) (maxsize interval : ℤ) (threshold : Option ℤ) (l : Loop) (events : ℕ → Event)
    (actions : List Action)
    → new_loop scope_id maxsize interval threshold ≡ return l
    → let (directs, s) = run_queue (0, record { loop = l; events = events }) actions in
      Inv directs s
run_queue_books scope_id maxsize interval threshold l events actions made =
    run_queue-Inv actions (0, record { loop = l; events = events })
      (Fresh-Inv l events (new_loop-Fresh scope_id maxsize interval threshold l made))
