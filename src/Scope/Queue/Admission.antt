-- ===== src/Scope/Queue/Admission.antt =====
-- event_loop.py: `enqueue`, which admits a delivery or records its rejection.
use agent_cdp.Prelude.{
  ℕ, ◌+◌, max, Bool, true, false, ◌||◌, Option, none, some, [], ◌∷◌, ◌++◌, lookup, insert, has_key,
  length, if◌then◌else◌,
}
use agent_cdp.Events.Values.{Exc, runtime_error, queue_full_error}
use agent_cdp.Events.Delivery.{ResultStatus, EventResult}
use agent_cdp.Events.Event.{
  Event, Receiver, prepare_delivery, set_delivery_scope, set_cancel_callback, record_result,
  decrement_pending,
}
use agent_cdp.Scope.Queue.State.{Loop, System, Delivery, summary, is_full, put, bump}

-- The event with a record for the connection and the queue's token, before the queue is asked.
unfoldable pub prepared : ℕ → Receiver → ℕ → Loop → Event → Event
unfolding prepare_delivery set_delivery_scope
prepared now c source_id l ev = set_delivery_scope c.id l.scope_id (
    if has_key c.id ev.event_results
    then ev
    else prepare_delivery now c source_id l.scope_id true ev)

abbrev pub refuses : Loop → Bool
refuses l = is_full l || l.stopping

abbrev pub rejection : Loop → Event → Receiver → Exc
rejection l ev c =
    if l.stopping then runtime_error else queue_full_error ev.event_id c.id l.scope_id

-- What a rejection adds to the facts that the next flush reports.
abbrev pub note_rejection : ℕ → ℕ → Option EventResult → Loop → Loop
note_rejection now n none l = l
note_rejection now n (some r) l = record l {
  settled_since_flush = insert n (summary now r) l.settled_since_flush;
}

unfoldable pub reject : ℕ → ℕ → Receiver → Exc → System → System
unfolding record_result decrement_pending summary
reject now e c error s =
    let l = s.loop in
    let ev = decrement_pending (
      record_result now c.id c.handler_name none (some error) (some ResultStatus.rejected)
        (s.events e)) in
    record {
      loop = note_rejection now l.sequence (lookup c.id ev.event_results) (record l {
        rejected = l.rejected + 1;
        rejected_types = bump ev.event_type l.rejected_types;
        rejected_connections = bump c.id l.rejected_connections;
        rejected_stopped = if l.stopping then l.rejected_stopped + 1 else l.rejected_stopped;
        rejected_full = if l.stopping then l.rejected_full else l.rejected_full + 1;
      });
      events = put e ev s.events;
    }

abbrev pub new_admission : ℕ → ℕ → Receiver → Loop → Delivery
new_admission now e c l = record {
  sequence = l.sequence;
  event = e;
  connection = c;
  admitted_at = now;
  started_at = none;
  timed_out = false;
  cancel_sent = false;
}

unfoldable pub admit : ℕ → ℕ → Receiver → System → System
unfolding set_cancel_callback
admit now e c s =
    let l = s.loop in
    let d = new_admission now e c l in
    record {
      loop = record l {
        pending = insert l.sequence d l.pending;
        queue = l.queue ++ d ∷ [];
        accepted = l.accepted + 1;
        queue_peak = max l.queue_peak (length (l.queue ++ d ∷ []));
        wake = true;
      };
      events = put e (set_cancel_callback c.id (l.scope_id, l.sequence) (s.events e)) s.events;
    }

-- `enqueue`, and the error that it returns. `e` refers to the event.
unfoldable pub enqueue : ℕ → ℕ → Receiver → ℕ → System → System × Option Exc
unfolding prepared reject admit
enqueue now e c source_id s =
    let ready : System = record {
      loop = record (s.loop) { sequence = s.loop.sequence + 1 };
      events = put e (prepared now c source_id (s.loop) (s.events e)) s.events;
    } in
    let error = rejection ready.loop (ready.events e) c in
    if refuses ready.loop
    then (reject now e c error ready, some error)
    else (admit now e c ready, none)
