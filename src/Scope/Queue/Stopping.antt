-- ===== src/Scope/Queue/Stopping.antt =====
-- `start`, `stop` and the cancellation of the consumer, and the books of the queue.
use agent_cdp.Prelude.{
  ℕ, ◌≡◌, refl, Bool, true, false, not, ◌&&◌, Option, none, some, is_empty, if_ind, arith,
}
use agent_cdp.Scope.Queue.{
  is_absent, is_alive, Delivery, Loop, System, or_kept, TaskEnd, task_ends, start, started_to_drain,
  request_stop, finish_stop, shut_down, cancel_consumer, cancel_consumer_for, handler_ends,
}
use agent_cdp.Scope.Queue.Invariant.{Inv}
use agent_cdp.Scope.Queue.Books.{SameBooks, SameBooks-Inv}
use agent_cdp.Scope.Queue.Changes.{cancel_active-Inv}
use agent_cdp.Scope.Queue.Ending.{task_ends-Inv}
use agent_cdp.Scope.Queue.Cancelled.{cancel_remaining-Inv}

-- Any loop with the same books.
loop-Inv :
    (directs : ℕ) (s : System) (l : Loop)
    → Inv directs s
    → SameBooks s.loop l
    → Inv directs (record s { loop = l })
loop-Inv directs s l inv same =
    SameBooks-Inv directs s (record s { loop = l }) inv same (λ e j h. h)

start-SameBooks : (l : Loop) → SameBooks l (or_kept l (start l))
unfolding start
start-SameBooks l = ground arith

pub start-Inv :
    (directs : ℕ) (s : System)
    → Inv directs s
    → Inv directs (record s { loop = or_kept s.loop (start s.loop) })
start-Inv directs s inv = loop-Inv directs s _ inv (start-SameBooks s.loop)

pub started_to_drain-SameBooks : (drain : Bool) (l : Loop) → SameBooks l (started_to_drain drain l)
unfolding started_to_drain
started_to_drain-SameBooks drain l =
    if_ind (SameBooks l) (not (is_empty l.pending) && is_absent l.task && drain) _ l
      (λ _. start-SameBooks l) (λ _. ground arith)

pub told-SameBooks :
    (l l' : Loop)
    → SameBooks l l'
    → SameBooks l (record l' { stopping = true; running = false; wake = true })
told-SameBooks l l' same = ground arith

-- The system once it has been told to stop.
abbrev pub told : Bool → System → System
told drain s = record s {
  loop = record (started_to_drain drain s.loop) { stopping = true; running = false; wake = true };
}

pub told-Inv :
    (directs : ℕ) (drain : Bool) (s : System) → Inv directs s → Inv directs (told drain s)
told-Inv directs drain s inv = loop-Inv directs s (told drain s).loop inv (
    told-SameBooks s.loop (started_to_drain drain s.loop) (started_to_drain-SameBooks drain s.loop))

pub request_stop-Inv :
    (directs now : ℕ) (drain : Bool) (s : System)
    → Inv directs s
    → Inv directs (request_stop now drain s)
unfolding request_stop
request_stop-Inv directs now drain s inv =
    if_ind (Inv directs) drain _ _ (λ _. told-Inv directs drain s inv)
      (λ _. cancel_remaining-Inv directs now (told drain s) (told-Inv directs drain s inv))

pub finish_stop-Inv :
    (directs now : ℕ) (s : System) → Inv directs s → Inv directs (finish_stop now s).0
unfolding finish_stop
finish_stop-Inv directs now s inv =
    let asked = cancel_remaining-Inv directs now s inv in
    if_ind (λ (t : System × Bool). Inv directs t.0) (is_alive s.loop.task) _ _ (λ _. asked)
      (λ _.
        loop-Inv directs _ _
          (if_ind (Inv directs) (is_empty s.loop.pending) s _ (λ _. inv) (λ _. asked))
          (ground arith))

pub shut_down-Inv : (directs now : ℕ) (s : System) → Inv directs s → Inv directs (shut_down now s)
unfolding shut_down
shut_down-Inv directs now s inv =
    cancel_remaining-Inv directs now _ (loop-Inv directs s _ inv (ground arith))

cancel_consumer_for-Inv :
    (directs now : ℕ) (a : Option Delivery) (s : System)
    → s.loop.active ≡ a
    → Inv directs s
    → Inv directs (cancel_consumer_for now a s)
cancel_consumer_for-Inv directs now none s e inv = shut_down-Inv directs now s inv
cancel_consumer_for-Inv directs now (some d) s e inv =
    cancel_active-Inv directs d _ e (loop-Inv directs s _ inv (ground arith))

pub cancel_consumer-Inv :
    (directs now : ℕ) (s : System) → Inv directs s → Inv directs (cancel_consumer now s)
unfolding cancel_consumer
cancel_consumer-Inv directs now s inv =
    if_ind (Inv directs) (is_alive s.loop.task) _ s
      (λ _. cancel_consumer_for-Inv directs now s.loop.active s refl inv) (λ _. inv)

pub handler_ends-Inv :
    (directs now : ℕ) (end : TaskEnd) (s : System)
    → Inv directs s
    → Inv directs (handler_ends now end s)
unfolding handler_ends
handler_ends-Inv directs now end s inv =
    let ended = task_ends-Inv directs now end s inv in
    if_ind (Inv directs) (task_ends now end s).loop.consumer_cancelled _ _
      (λ _. shut_down-Inv directs now (task_ends now end s) ended) (λ _. ended)
