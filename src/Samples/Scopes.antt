-- ===== src/Samples/Scopes.antt =====
-- A scope with three connections, and its queue.
use agent_cdp.Scope.Queue.Balance.{run_queue-stats}
use agent_cdp.Prelude.{
  ◌+◌, ℕ, ◌≡◌, refl, true, false, none, some, List, [], ◌∷◌, pos, ◌==◌, if◌then◌else◌,
}
use agent_cdp.Prelude.{ℤ}
use agent_cdp.Events.Event.{Receiver, mark_running}
use agent_cdp.Events.Contracts.{validate}
use agent_cdp.Events.Event.Completion.{Call}
use agent_cdp.Connection.{ConnectionType, Connection, Annotation, Shape}
use agent_cdp.Scope.Matching.{
  no_connections, matching, only_active, by_priority, get_matching_connections,
}
use agent_cdp.Scope.Matching.Order.{Descending, of_priority}
use agent_cdp.Scope.Matching.History.{Change, changes, get_matching_connections_lem, dispatch_order}
use agent_cdp.Scope.Queue.{
  ConsumerTask, Loop, new_loop, stats, TaskEnd, enqueue, start, take_next, begin, handler_ends,
  conclude, finish_delivery, count_result,
}
use agent_cdp.Scope.Queue.Invariant.{Inv}
use agent_cdp.Scope.Queue.Runs.{Action, run_queue, run_queue_books}
use agent_cdp.Scope.Queue.Lists.{Above}
use agent_cdp.Scope.Queue.Starting.Order.{started, started-ascending}
use agent_cdp.Scope.Queue.Verdicts.{Verdict, enqueue_verdict}
use agent_cdp.Samples.{new_event, saver, logger}

abbrev async_handler : Shape
async_handler = record {
  callable = true;
  is_async_generator = false;
  is_coroutine = true;
  annotation = Annotation.missing;
}

abbrev pub link : Receiver → ℕ → ℤ → Connection
link c event_type priority = record {
  receiver = c;
  source_scope = 1;
  event_type = event_type;
  target_scope = none;
  mode = ConnectionType.auto;
  filter = none;
  priority = priority;
}

-- Class 5 derives from class 4, and every class from `BaseEvent`.
abbrev pub mro : ℕ → List ℕ
mro n = if n == 5 then 5 ∷ 4 ∷ 0 ∷ [] else n ∷ 0 ∷ []

abbrev pub history : List Change
history =
    Change.adds (link saver 4 (pos 1))
    ∷ Change.looks_up (λ n. true) 5
    ∷ Change.adds_catch_all (link logger 0 (pos 2))
    ∷ Change.removes (link saver 4 (pos 1))
    ∷ Change.adds (link saver 5 (pos 2))
    ∷ []

get_matching_connections_lem_example :
    let m = changes mro no_connections history in
    let (m', cs) = get_matching_connections mro (λ n. true) 5 m in
    (cs ≡ only_active (λ n. true) (by_priority (matching mro 5 m)))
    × (m'.connections_by_type ≡ m.connections_by_type)
    × (m'.catch_all_connections ≡ m.catch_all_connections)
get_matching_connections_lem_example = get_matching_connections_lem mro (λ n. true) 5 history

dispatch_order_example :
    let m = changes mro no_connections history in
    let cs = (get_matching_connections mro (λ n. true) 5 m).1 in
    Descending cs
    × ((p : ℤ) → of_priority p cs ≡ only_active (λ n. true) (of_priority p (matching mro 5 m)))
dispatch_order_example = dispatch_order mro (λ n. true) 5 history

abbrev pub empty_loop : Loop
empty_loop = record {
  scope_id = 1;
  maxsize = 1;
  queue = [];
  pending = [];
  active = none;
  sequence = 0;
  settled_since_flush = [];
  running = false;
  stopping = false;
  wake = false;
  task = ConsumerTask.absent;
  consumer_cancelled = false;
  accepted = 0;
  completed = 0;
  failed = 0;
  cancelled = 0;
  rejected = 0;
  queue_peak = 0;
  queue_wait = 0;
  execution_time = 0;
  queue_wait_max = 0;
  execution_max = 0;
  rejected_types = [];
  rejected_connections = [];
  rejected_stopped = 0;
  rejected_full = 0;
}

-- The second delivery finds the queue full; the first one runs and is cancelled.
abbrev pub actions : List Action
actions =
    Action.event_changes 0 Call.increments
    ∷ Action.enqueues 1 0 saver 1
    ∷ Action.event_changes 0 Call.increments
    ∷ Action.enqueues 2 0 logger 1
    ∷ Action.takes 3
    ∷ Action.cancels 4 1 true
    ∷ Action.ends 5 TaskEnd.was_cancelled
    ∷ Action.stops 6 true
    ∷ []

run_queue_books_example :
    let (directs, s) =
      run_queue (0, record { loop = empty_loop; events = λ n. new_event }) actions in
    Inv directs s
unfolding new_loop
run_queue_books_example =
    run_queue_books 1 (pos 1) (pos 5) (some (pos 15)) empty_loop (λ n. new_event) actions refl

-- Two deliveries, the second one admitted while the first one runs.
abbrev longer : List Action
longer =
    Action.starts
    ∷ Action.enqueues 1 0 saver 1
    ∷ Action.takes 2
    ∷ Action.enqueues 3 0 logger 1
    ∷ Action.ends 4 (TaskEnd.returned none)
    ∷ Action.takes 5
    ∷ []

started-ascending_example :
    Above 0 (started (0, record { loop = empty_loop; events = λ n. new_event }) longer)
unfolding new_loop
started-ascending_example =
    started-ascending 1 (pos 1) (pos 5) (some (pos 15)) empty_loop (λ n. new_event) longer refl

started_two : started (0, record { loop = empty_loop; events = λ n. new_event }) longer ≡ 1 ∷ 2 ∷ []
unfolding started start enqueue take_next begin mark_running handler_ends conclude finish_delivery
    count_result validate
started_two = refl

enqueue_verdict_example :
    Verdict 1 0 saver
      (record { loop = empty_loop; events = λ n. new_event })
      (enqueue 1 0 saver 1 (record { loop = empty_loop; events = λ n. new_event }))
enqueue_verdict_example =
    enqueue_verdict 1 0 saver 1 (record { loop = empty_loop; events = λ n. new_event })

run_queue-stats_example :
    let (directs, s) =
      run_queue (0, record { loop = empty_loop; events = λ n. new_event }) actions in
    let report = stats s.loop in
    report.accepted
    ≡ report.completed + report.failed + report.cancelled + report.queued + report.running + directs
unfolding new_loop
run_queue-stats_example =
    run_queue-stats 1 (pos 1) (pos 5) (some (pos 15)) empty_loop (λ n. new_event) actions refl
