-- ===== src/Scope/Queue/Verdicts.antt =====
-- What `enqueue` decides, on both branches.
use agent_cdp.Prelude.{
  ℕ, ◌+◌, ◌-◌, ◌≡◌, ◌⊎◌, refl, ap, ◌∙◌, true, false, Option, none, some, [], ◌∷◌, ◌++◌, lookup,
  if◌then◌else◌, if_true, Bool-cases, inl, inr, ◌==◌, ==_refl, arith,
}
use agent_cdp.Events.Values.{Value, Exc, runtime_error, queue_full_error}
use agent_cdp.Events.Delivery.{EventResult, ResultStatus, is_terminal}
use agent_cdp.Events.Event.{
  Event, Receiver, record_result, decrement_pending, notify_changed, finish, set_cancel_callback,
}
use agent_cdp.Events.Event.Settlement.{record_result_terminal}
use agent_cdp.Scope.Queue.{
  Loop, System, put, refuses, rejection, prepared, reject, new_admission, admit, enqueue,
}

-- The outcome of an admission: it goes to the end of the queue under the next number, bound to
-- the event and the connection, and the event can cancel it.
pub record Admitted (now e : ℕ) (c : Receiver) (s t : System) : Type 0 where
  pub queue :
      t.loop.queue
      ≡ s.loop.queue
        ++ new_admission now e c (record (s.loop) { sequence = s.loop.sequence + 1 }) ∷ []
  pub accepted : t.loop.accepted ≡ s.loop.accepted + 1
  pub rejected : t.loop.rejected ≡ s.loop.rejected
  pub pending_count : (t.events e).pending_count ≡ (s.events e).pending_count

-- The outcome of a rejection: the queue stays, the rejection is counted, and the event's delivery is
-- settled and no longer pending.
pub record Rejected (e : ℕ) (c : Receiver) (s t : System) : Type 0 where
  pub queue : t.loop.queue ≡ s.loop.queue
  pub pending : t.loop.pending ≡ s.loop.pending
  pub accepted : t.loop.accepted ≡ s.loop.accepted
  pub rejected : t.loop.rejected ≡ s.loop.rejected + 1
  pub pending_count : (t.events e).pending_count ≡ (s.events e).pending_count - 1
  pub settled :
      (r : EventResult) × (lookup c.id (t.events e).event_results ≡ some r) × (is_terminal r ≡ true)

prepared_count :
    (now : ℕ) (c : Receiver) (source_id : ℕ) (l : Loop) (ev : Event)
    → (prepared now c source_id l ev).pending_count ≡ ev.pending_count
unfolding prepared notify_changed
prepared_count now c source_id l ev = ground arith

put_at : (e : ℕ) (ev : Event) (events : ℕ → Event) → put e ev events e ≡ ev
put_at e ev events = if_true (e == e) ev (events e) (==_refl e)

admit-Admitted :
    (now e : ℕ) (c : Receiver) (source_id : ℕ) (s : System)
    → Admitted now e c s (
        admit now e c (record {
          loop = record (s.loop) { sequence = s.loop.sequence + 1 };
          events = put e (prepared now c source_id s.loop (s.events e)) s.events;
        }))
unfolding admit
admit-Admitted now e c source_id s = record {
  queue = refl;
  accepted = refl;
  rejected = refl;
  pending_count =
      ap count (put_at e (marked (ready e)) ready)
      ∙ ap count (put_at e (prepared now c source_id s.loop (s.events e)) s.events)
      ∙ prepared_count now c source_id s.loop (s.events e);
}
  where
    count : Event → ℕ
    count ev = ev.pending_count

    ready : ℕ → Event
    ready = put e (prepared now c source_id s.loop (s.events e)) s.events

    marked : Event → Event
    marked ev = set_cancel_callback c.id (s.loop.scope_id, s.loop.sequence + 1) ev

decrement_count : (ev : Event) → (decrement_pending ev).pending_count ≡ ev.pending_count - 1
unfolding decrement_pending
decrement_count ev = ground arith

record_result_count :
    (now cid name : ℕ) (result : Option Value) (error : Option Exc) (status : Option ResultStatus)
    (ev : Event)
    → (record_result now cid name result error status ev).pending_count ≡ ev.pending_count
unfolding record_result finish notify_changed
record_result_count now cid name result error status ev = ground arith

-- The event of a rejected delivery.
rejected_event : ℕ → Receiver → Exc → Event → Event
rejected_event now c error ev =
    decrement_pending
      (record_result now c.id c.handler_name none (some error) (some ResultStatus.rejected) ev)

rejected_event_settled :
    (now : ℕ) (c : Receiver) (error : Exc) (ev : Event)
    → (r : EventResult) × (lookup c.id (rejected_event now c error ev).event_results ≡ some r)
      × (is_terminal r ≡ true)
unfolding rejected_event decrement_pending
rejected_event_settled now c error ev =
    record_result_terminal now c.id c.handler_name none (some error) (some ResultStatus.rejected) ev
      refl

reject-Rejected :
    (now e : ℕ) (c : Receiver) (error : Exc) (s : System) → Rejected e c s (reject now e c error s)
unfolding reject rejected_event
reject-Rejected now e c error s = record {
  queue = ground arith;
  pending = ground arith;
  accepted = ground arith;
  rejected = ground arith;
  pending_count =
      ap (λ (ev : Event). ev.pending_count) here
      ∙ decrement_count (
          record_result now c.id c.handler_name none (some error) (some ResultStatus.rejected)
            (s.events e))
      ∙ ap (λ k. k - 1)
          (record_result_count now c.id c.handler_name none (some error)
            (some ResultStatus.rejected) (s.events e));
  settled =
      let (r, found, t) = rejected_event_settled now c error (s.events e) in
      (r, ap (λ (ev : Event). lookup c.id ev.event_results) here ∙ found, t);
}
  where
    here :
        put e (rejected_event now c error (s.events e)) s.events e
        ≡ rejected_event now c error (s.events e)
    here = put_at e (rejected_event now c error (s.events e)) s.events

prepared_id :
    (now : ℕ) (c : Receiver) (source_id : ℕ) (l : Loop) (ev : Event)
    → (prepared now c source_id l ev).event_id ≡ ev.event_id
unfolding prepared notify_changed
prepared_id now c source_id l ev = ground arith

numbered : ℕ → ℕ → Receiver → ℕ → System → System
numbered now e c source_id s = record {
  loop = record (s.loop) { sequence = s.loop.sequence + 1 };
  events = put e (prepared now c source_id s.loop (s.events e)) s.events;
}

-- What `enqueue` may come to.
pub Verdict : ℕ → ℕ → Receiver → System → System × Option Exc → Type 0
Verdict now e c s (t, error) =
    ((refuses s.loop ≡ false) × (error ≡ none) × Admitted now e c s t)
    ⊎ ((refuses s.loop ≡ true)
        × (error ≡ some (rejection s.loop (s.events e) c))
        × Rejected e c s t)

refused_Rejected :
    (now e : ℕ) (c : Receiver) (source_id : ℕ) (error : Exc) (s : System)
    → Rejected e c s (reject now e c error (numbered now e c source_id s))
unfolding numbered
refused_Rejected now e c source_id error s =
    let rejected = reject-Rejected now e c error (numbered now e c source_id s) in
    record {
      queue = rejected.queue;
      pending = rejected.pending;
      accepted = rejected.accepted;
      rejected = rejected.rejected;
      pending_count =
          rejected.pending_count
          ∙ ap (λ (ev : Event). ev.pending_count - 1)
              (put_at e (prepared now c source_id s.loop (s.events e)) s.events)
          ∙ ap (λ k. k - 1) (prepared_count now c source_id s.loop (s.events e));
      settled = rejected.settled;
    }

refused_error :
    (now e : ℕ) (c : Receiver) (source_id : ℕ) (s : System)
    → rejection s.loop (put e (prepared now c source_id s.loop (s.events e)) s.events e) c
      ≡ rejection s.loop (s.events e) c
refused_error now e c source_id s =
    ap (λ n. if s.loop.stopping then runtime_error else queue_full_error n c.id s.loop.scope_id)
      (ap (λ (ev : Event). ev.event_id)
          (put_at e (prepared now c source_id s.loop (s.events e)) s.events)
        ∙ prepared_id now c source_id s.loop (s.events e))

-- `enqueue` refuses a delivery exactly when the queue is stopping or full. A delivery that it
-- accepts is put at the end of the queue with no error, and stays pending on its event. For one that
-- it refuses it gives the error of the stopped or of the full queue, leaves the queue and the
-- pending deliveries alone, counts the rejection, and settles the delivery's record on its event,
-- which has one pending delivery less.
pub enqueue_verdict :
    (now e : ℕ) (c : Receiver) (source_id : ℕ) (s : System)
    → Verdict now e c s (enqueue now e c source_id s)
unfolding enqueue numbered Verdict
enqueue_verdict now e c source_id s = elim (Bool-cases (refuses s.loop)) [
  | inl refused ↦ rw refused (
      inr
        (refl, ap some (refused_error now e c source_id s), refused_Rejected now e c source_id _ s))
  | inr free ↦ rw free (inl (refl, refl, admit-Admitted now e c source_id s))
]
