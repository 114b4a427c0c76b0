-- ===== src/Scope/Queue/State.antt =====
-- event_loop.py: the records, the fields of `ScopeEventLoop`, and its counters. The events are a
-- store, since several deliveries share one event.
use agent_cdp.Prelude.{
  ℕ, ◌+◌, ◌-◌, max, Bool, true, false, not, ◌&&◌, ◌||◌, Option, none, some, List, [], Dict, lookup,
  insert, erase, has_key, length, or_else, leb, ◌==◌, if◌then◌else◌, ℤ, is_negative,
}
use agent_cdp.Events.Values.{Exc, value_error, Outcome, return, raise}
use agent_cdp.Events.Delivery.{
  ResultStatus, EventResult, is_success, is_completed, is_cancelled_status, queue_duration,
  execution_duration,
}
use agent_cdp.Events.Event.{Event, Receiver, decrement_pending}

pub record DeliverySummary : Type 0 where
  pub event_id : ℕ
  pub event_type : ℕ
  pub connection_id : ℕ
  pub handler_name : ℕ
  pub source_scope_id : ℕ
  pub scope_id : ℕ
  pub status : ResultStatus
  pub cancel_requested : Bool
  pub is_success : Bool
  pub queue_duration : ℕ
  pub execution_duration : ℕ
  pub error : Option Exc

-- `DeliverySummary.from_result`. The type and the message of the error stand by the error.
unfoldable pub summary : ℕ → EventResult → DeliverySummary
unfolding is_success queue_duration execution_duration
summary now r = record {
  event_id = r.event_id;
  event_type = r.event_type;
  connection_id = r.connection_id;
  handler_name = r.handler_name;
  source_scope_id = r.source_scope_id;
  scope_id = r.scope_id;
  status = r.status;
  cancel_requested = r.cancel_requested;
  is_success = is_success r;
  queue_duration = queue_duration now r;
  execution_duration = execution_duration now r;
  error = or_else r.business_error r.error;
}

-- `_Delivery`. The event is a reference into the store.
pub record Delivery : Type 0 where
  pub sequence : ℕ
  pub event : ℕ
  pub connection : Receiver
  pub admitted_at : ℕ
  pub started_at : Option ℕ
  pub timed_out : Bool
  pub cancel_sent : Bool

-- `_task`: there is none, it runs, or it is done.
pub data ConsumerTask : Type 0 where
  absent alive ended : ConsumerTask

abbrev pub is_absent : ConsumerTask → Bool
is_absent ConsumerTask.absent = true
is_absent _ = false

abbrev pub is_alive : ConsumerTask → Bool
is_alive ConsumerTask.alive = true
is_alive _ = false

-- `consumer_cancelled` is whether `_execute_handler` holds a cancellation of the consumer.
pub record Loop : Type 0 where
  pub scope_id : ℕ
  pub maxsize : ℕ
  pub queue : List Delivery
  pub pending : Dict Delivery
  pub active : Option Delivery
  pub sequence : ℕ
  pub settled_since_flush : Dict DeliverySummary
  pub running : Bool
  pub stopping : Bool
  pub wake : Bool
  pub task : ConsumerTask
  pub consumer_cancelled : Bool
  pub accepted : ℕ
  pub completed : ℕ
  pub failed : ℕ
  pub cancelled : ℕ
  pub rejected : ℕ
  pub queue_peak : ℕ
  pub queue_wait : ℕ
  pub execution_time : ℕ
  pub queue_wait_max : ℕ
  pub execution_max : ℕ
  pub rejected_types : Dict ℕ
  pub rejected_connections : Dict ℕ
  pub rejected_stopped : ℕ
  pub rejected_full : ℕ

pub record System : Type 0 where
  pub loop : Loop
  pub events : ℕ → Event

-- `ScopeEventLoop.__init__`, with its checks. Durations are signed where they are checked.
unfoldable pub new_loop : ℕ → ℤ → ℤ → Option ℤ → Outcome Loop
new_loop scope_id (ℤ.negsuc n) interval threshold = raise value_error
new_loop scope_id (ℤ.pos n) (ℤ.negsuc i) threshold = raise value_error
new_loop scope_id (ℤ.pos n) (ℤ.pos i) threshold =
    if i == 0 || (elim threshold [ none ↦ false | some t ↦ is_negative t ])
    then raise value_error
    else return (record {
      scope_id = scope_id;
      maxsize = n;
      queue = [];
      pending = [];
      active = none;
      sequence = 0;
      settled_since_flush = [];
      running = false;
      stopping = false;
      wake = false;
      task = ConsumerTask.absent;
      consumer_cancelled = false;
      accepted = 0;
      completed = 0;
      failed = 0;
      cancelled = 0;
      rejected = 0;
      queue_peak = 0;
      queue_wait = 0;
      execution_time = 0;
      queue_wait_max = 0;
      execution_max = 0;
      rejected_types = [];
      rejected_connections = [];
      rejected_stopped = 0;
      rejected_full = 0;
    })

-- `asyncio.Queue.full`: a bound of 0 is none.
abbrev pub is_full : Loop → Bool
is_full l = not (l.maxsize == 0) && leb l.maxsize (length l.queue)

-- A write into the store.
abbrev pub put : ℕ → Event → (ℕ → Event) → ℕ → Event
put e ev events k = if k == e then ev else events k

-- `Counter[k] += 1`
abbrev pub bump : ℕ → Dict ℕ → Dict ℕ
bump k d = insert k (elim (lookup k d) [ none ↦ 1 | some n ↦ n + 1 ]) d

-- `_count_result`
unfoldable pub count_result : EventResult → Loop → Loop
unfolding is_success
count_result r l =
    if is_completed r.status && is_success r
    then record l { completed = l.completed + 1 }
    else if is_cancelled_status r.status
    then record l { cancelled = l.cancelled + 1 }
    else record l { failed = l.failed + 1 }

-- `direct_started`, which also gives the sequence number and the time.
unfoldable pub direct_started : ℕ → Loop → Loop × ℕ × ℕ
direct_started now l =
    (record l { accepted = l.accepted + 1; sequence = l.sequence + 1 }, l.sequence + 1, now)

unfoldable pub direct_finished : ℕ → EventResult → ℕ → ℕ → Loop → Loop
unfolding summary count_result
direct_finished now r sequence began l = count_result r (record l {
  settled_since_flush = insert sequence (summary now r) l.settled_since_flush;
  execution_time = l.execution_time + (now - began);
  execution_max = max l.execution_max (now - began);
})

-- The time that an execution took, 0 where there was none.
abbrev pub elapsed : ℕ → Option ℕ → ℕ
elapsed now none = 0
elapsed now (some began) = now - began

-- The rest of `_finish`, with the record of the delivery.
abbrev pub leave : ℕ → Delivery → EventResult → System → System
leave now d r s =
    let timed = count_result r (record (s.loop) {
      settled_since_flush = insert d.sequence (summary now r) s.loop.settled_since_flush;
      execution_time = s.loop.execution_time + elapsed now d.started_at;
      execution_max = max s.loop.execution_max (elapsed now d.started_at);
    }) in
    record {
      loop = record timed { pending = erase d.sequence timed.pending };
      events = put d.event (decrement_pending (s.events d.event)) s.events;
    }

-- A delivery with no record is a KeyError, before anything is written.
abbrev pub leave_with : ℕ → Delivery → Option EventResult → System → System
leave_with now d none s = s
leave_with now d (some r) s = leave now d r s

-- `_finish`: nothing for a delivery that is done.
unfoldable pub finish_delivery : ℕ → Delivery → System → System
finish_delivery now d s =
    if has_key d.sequence s.loop.pending
    then leave_with now d (lookup d.connection.id (s.events d.event).event_results) s
    else s
