-- ===== src/Scope/Queue/Lifecycle.antt =====
-- event_loop.py: `start` and `stop`, and the cancellation of the consumer task. `stop` waits for the
-- consumer between its two parts, while other steps go on.
use agent_cdp.Prelude.{
  ℕ, zero, suc, Bool, true, false, not, ◌&&◌, Option, none, some, is_empty, if◌then◌else◌, ℤ,
  is_negative,
}
use agent_cdp.Events.Values.{runtime_error, value_error, Outcome, return, raise}
use agent_cdp.Scope.Queue.State.{ConsumerTask, is_absent, is_alive, Delivery, Loop, System}
use agent_cdp.Scope.Queue.Execution.{or_kept, TaskEnd, task_ends, cancel_active, cancel_remaining}

unfoldable pub start : Loop → Outcome Loop
start l =
    if l.running
    then return l
    else if is_alive l.task
    then raise runtime_error
    else return (record l { stopping = false; running = true; task = ConsumerTask.alive })

-- A scope that was never started is, to drain what it has accepted.
unfoldable pub started_to_drain : Bool → Loop → Loop
unfolding start
started_to_drain drain l =
    if not (is_empty l.pending) && is_absent l.task && drain then or_kept l (start l) else l

-- `stop` up to its wait for the consumer.
unfoldable pub request_stop : ℕ → Bool → System → System
unfolding started_to_drain
request_stop now drain s =
    let told = record s {
      loop = record (started_to_drain drain s.loop) {
        stopping = true;
        running = false;
        wake = true;
      };
    } in
    if drain then told else cancel_remaining now told

-- The rest of `stop`, after the wait: `False` where the consumer still runs.
unfoldable pub finish_stop : ℕ → System → System × Bool
finish_stop now s =
    let asked = cancel_remaining now s in
    if is_alive s.loop.task
    then (asked, false)
    else let left = if is_empty s.loop.pending then s else asked in
      (
        record left { loop = record (left.loop) { task = ConsumerTask.absent } },
        is_empty left.loop.pending,
      )

abbrev is_positive : ℤ → Bool
is_positive (ℤ.pos zero) = false
is_positive (ℤ.pos (suc n)) = true
is_positive (ℤ.negsuc n) = false

-- Whether `stop` waits for the consumer.
abbrev pub waits_for : ℤ → Loop → Bool
waits_for timeout l = is_alive l.task && is_positive timeout

-- `stop`. `others` is what the consumer, its handlers and everybody else do during the wait, which
-- ends with the consumer's task or with the timeout; nobody starts the queue again meanwhile.
unfoldable pub stop :
    (now later : ℕ) → Bool → ℤ → (System → System) → System → System × Outcome Bool
unfolding request_stop finish_stop
stop now later drain timeout others s =
    let asked = request_stop now drain s in
    let waited = if waits_for timeout asked.loop then others asked else asked in
    let (t, stopped) = finish_stop later waited in
    if is_negative timeout then (s, raise value_error) else (t, return stopped)

-- `_run` when its task is cancelled outside of a handler.
unfoldable pub shut_down : ℕ → System → System
shut_down now s =
    let told = record s {
      loop = record (s.loop) {
        running = false;
        stopping = true;
        consumer_cancelled = false;
        task = ConsumerTask.ended;
      };
    } in
    cancel_remaining now told

-- A cancellation of the consumer task. During a handler it is held until the handler has ended.
abbrev pub cancel_consumer_for : ℕ → Option Delivery → System → System
cancel_consumer_for now none s = shut_down now s
cancel_consumer_for now (some d) s =
    cancel_active d (record s { loop = record (s.loop) { consumer_cancelled = true } })

unfoldable pub cancel_consumer : ℕ → System → System
unfolding shut_down cancel_active
cancel_consumer now s = if is_alive s.loop.task then cancel_consumer_for now s.loop.active s else s

-- The end of a handler, and of the consumer where it was cancelled meanwhile.
unfoldable pub handler_ends : ℕ → TaskEnd → System → System
unfolding task_ends shut_down
handler_ends now end s =
    let t = task_ends now end s in if t.loop.consumer_cancelled then shut_down now t else t
