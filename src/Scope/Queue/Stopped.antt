-- ===== src/Scope/Queue/Stopped.antt =====
-- How `stop` ends.
use mathlib.Core.Path.{subst}
use agent_cdp.Prelude.{
  ℕ, ◌+◌, ◌≡◌, refl, ap, sym, ◌∙◌, Bool, true, false, ◌⊎◌, inl, inr, Option, none, some, List, [],
  ◌∷◌, ◌++◌, Dict, keys, length, is_empty, if_ind, if◌then◌else◌, ℤ, is_negative, arith,
}
use agent_cdp.Events.Values.{value_error, Outcome, return, raise}
use agent_cdp.Events.Event.{Event}
use agent_cdp.Scope.Queue.{
  ConsumerTask, is_alive, Delivery, Loop, System, new_loop, cancel_remaining, request_stop,
  finish_stop, waits_for, stop, started_to_drain,
}
use agent_cdp.Scope.Queue.Invariant.{Inv, sequences, active_sequence}
use agent_cdp.Scope.Queue.Stopping.{
  told, told-Inv, told-SameBooks, started_to_drain-SameBooks, request_stop-Inv,
}
use agent_cdp.Scope.Queue.Books.{SameBooks}
use agent_cdp.Scope.Queue.Halted.{Halted, cancel_remaining-Halted}
use agent_cdp.Scope.Queue.Runs.{Action, World, reached, run_queue, run_queue-Inv, run_queue_books}

-- A queue at rest: it has no consumer, nothing is queued, in hand or pending, and the books are
-- closed.
pub record AtRest (directs : ℕ) (s : System) : Type 0 where
  pub task : s.loop.task ≡ ConsumerTask.absent
  pub queue : s.loop.queue ≡ []
  pub active : s.loop.active ≡ none
  pub pending : s.loop.pending ≡ []
  pub counted : s.loop.accepted ≡ s.loop.completed + s.loop.failed + s.loop.cancelled + directs

-- The queue when the wait of a `stop` ends, with `during` for what happens in it.
abbrev pub after_wait : ℕ → Bool → ℤ → List Action → World → World
after_wait now drain timeout during w =
    let asked = request_stop now drain w.1 in
    if waits_for timeout asked.loop then run_queue (w.0, asked) during else (w.0, asked)

-- What the wait of a `stop` of the queue `s` begins with: a draining one has cancelled nothing, and
-- another one has cancelled all but the delivery in hand.
abbrev pub Asked : Bool → ℕ → System → System → Type 0
Asked true directs s t = SameBooks s.loop t.loop × (t.events ≡ s.events)
Asked false directs s t = Halted directs t

-- How a `stop` ends whose wait came to `u`.
abbrev pub Finished : World → System × Bool → Type 0
Finished u (t, true) = AtRest u.0 t
Finished u (t, false) =
    Halted u.0 t
    × ((u.1.loop.task ≡ ConsumerTask.alive) ⊎ ((d : Delivery) × (t.loop.active ≡ some d)))

-- How a `stop` of the queue `s` ends.
abbrev pub StopVerdict : ℤ → World → System → System × Outcome Bool → Type 0
StopVerdict timeout u s (t, return stopped) =
    (is_negative timeout ≡ false) × Finished u (t, stopped)
StopVerdict timeout u s (t, raise e) = (is_negative timeout ≡ true) × (e ≡ value_error) × (t ≡ s)

nothing_in_hand : (a : Option Delivery) → [] ≡ active_sequence a → a ≡ none
nothing_in_hand none h = refl
nothing_in_hand (some d) h = cc

something_in_hand :
    (k : ℕ) (ks : List ℕ) (a : Option Delivery)
    → k ∷ ks ≡ active_sequence a
    → (d : Delivery) × (a ≡ some d)
something_in_hand k ks none h = cc
something_in_hand k ks (some d) h = (d, refl)

none_left :
    (a : Option Delivery) (ds : List Delivery)
    → [] ≡ active_sequence a ++ sequences ds
    → (active_sequence a ≡ []) × (ds ≡ [])
none_left none [] h = (refl, refl)
none_left none (d ∷ ds) h = cc
none_left (some a) ds h = cc

-- A queue with nothing pending is halted.
empty-Halted : (directs : ℕ) (s : System) → Inv directs s → s.loop.pending ≡ [] → Halted directs s
empty-Halted directs s inv empty =
    let left = none_left s.loop.active s.loop.queue (ap keys (sym empty) ∙ inv.shape.order) in
    record {
      queue = left.1;
      pending = ap keys empty ∙ sym left.0;
      counted = omega (arith, inv.shape.counted, ap length empty, ap length left.0);
    }

let_go : System → System
let_go s = record s { loop = record (s.loop) { task = ConsumerTask.absent } }

let_go-Finished :
    (u : World) (s : System) (p : Dict Delivery)
    → s.loop.pending ≡ p
    → Halted u.0 s
    → Finished u (let_go s, is_empty p)
unfolding let_go
let_go-Finished u s [] e h =
    let idle = ap keys (sym e) ∙ h.pending in
    record {
      task = refl;
      queue = h.queue;
      active = nothing_in_hand s.loop.active idle;
      pending = e;
      counted = omega (arith, h.counted, ap length idle);
    }
let_go-Finished u s ((k, d) ∷ p) e h = (
  record { queue = h.queue; pending = h.pending; counted = h.counted },
  inr (something_in_hand k (keys p) s.loop.active (ap keys (sym e) ∙ h.pending)),
)

is_empty-nil {ℓ} : {A : Type ℓ} (xs : List A) → is_empty xs ≡ true → xs ≡ []
is_empty-nil [] h = refl
is_empty-nil (x ∷ xs) h = cc

still_alive : (c : ConsumerTask) → is_alive c ≡ true → c ≡ ConsumerTask.alive
still_alive ConsumerTask.absent h = cc
still_alive ConsumerTask.alive h = refl
still_alive ConsumerTask.ended h = cc

finish_stop-Finished : (now : ℕ) (u : World) → Inv u.0 u.1 → Finished u (finish_stop now u.1)
unfolding finish_stop let_go
finish_stop-Finished now u inv =
    let halted = cancel_remaining-Halted u.0 now u.1 inv in
    if_ind (Finished u) (is_alive u.1.loop.task) _ _
      (λ e. (halted, inl (still_alive u.1.loop.task e)))
      (λ _.
        if_ind (λ (s : System). Finished u (let_go s, is_empty s.loop.pending))
          (is_empty u.1.loop.pending) u.1 (cancel_remaining now u.1)
          (λ e.
            let_go-Finished u u.1 u.1.loop.pending refl
              (empty-Halted u.0 u.1 inv (is_empty-nil u.1.loop.pending e)))
          (λ _.
            let_go-Finished u (cancel_remaining now u.1) (cancel_remaining now u.1).loop.pending
              refl halted))

after_wait-Inv :
    (now : ℕ) (drain : Bool) (timeout : ℤ) (during : List Action) (w : World)
    → Inv w.0 w.1
    → Inv (after_wait now drain timeout during w).0 (after_wait now drain timeout during w).1
after_wait-Inv now drain timeout during w inv =
    let asked = request_stop now drain w.1 in
    let kept = request_stop-Inv w.0 now drain w.1 inv in
    if_ind (λ (u : World). Inv u.0 u.1) (waits_for timeout asked.loop) _ _
      (λ _. run_queue-Inv during (w.0, asked) kept) (λ _. kept)

-- The state of the queue after the wait is that of the system.
waited : (b : Bool) (u v : World) → (if b then u.1 else v.1) ≡ (if b then u else v).1
waited true u v = refl
waited false u v = refl

stop-StopVerdict :
    (now later : ℕ) (drain : Bool) (timeout : ℤ) (during : List Action) (w : World)
    → Inv w.0 w.1
    → StopVerdict timeout
        (after_wait now drain timeout during w)
        w.1
        (stop now later drain timeout (λ s. (run_queue (w.0, s) during).1) w.1)
unfolding stop
stop-StopVerdict now later drain timeout during w inv =
    let asked = request_stop now drain w.1 in
    let u = after_wait now drain timeout during w in
    if_ind (StopVerdict timeout u w.1) (is_negative timeout) _ _ (λ e. (e, refl, refl))
      (λ e. (
        e,
        subst (λ s. Finished u (finish_stop later s))
            (sym
              (waited (waits_for timeout asked.loop) (run_queue (w.0, asked) during) (w.0, asked)))
            (finish_stop-Finished later u (after_wait-Inv now drain timeout during w inv)),
      ))

request_stop-Asked :
    (directs now : ℕ) (drain : Bool) (s : System)
    → Inv directs s
    → Asked drain directs s (request_stop now drain s)
unfolding request_stop
request_stop-Asked directs now true s inv = (
  told-SameBooks s.loop (started_to_drain true s.loop) (started_to_drain-SameBooks true s.loop),
  refl,
)
request_stop-Asked directs now false s inv =
    cancel_remaining-Halted directs now (told false s) (told-Inv directs false s inv)

-- How `stop` goes, draining or not, on a queue that was made by its constructor and has been through
-- any steps, whatever the consumer, its handlers, the callers and whoever changes the events do
-- while it waits. A draining `stop` begins its wait with the queue, the delivery in hand, what is
-- pending, the numbers of accepted and of settled deliveries and the events as they were; another
-- one with nothing queued and only the delivery in hand still pending. With a negative timeout it
-- raises `ValueError` and changes nothing. Where it returns `True` the queue is at rest: it has no
-- consumer, nothing is queued, in hand or pending, and what was accepted is completed, failed or
-- cancelled, or is one of the direct handlers under way. Where it returns `False`, the consumer's
-- task still ran when the wait was over, or a delivery is still in hand; then all other deliveries
-- have left: nothing is queued, only the delivery in hand is pending, and the others are completed,
-- failed or cancelled, or direct handlers under way.
pub stop_verdict :
    (scope_id : ℕ) (maxsize interval : ℤ) (threshold : Option ℤ) (l : Loop) (events : ℕ → Event)
    (actions : List Action) (now later : ℕ) (drain : Bool) (timeout : ℤ) (during : List Action)
    → new_loop scope_id maxsize interval threshold ≡ return l
    → let w = reached l events actions in
      Asked drain w.0 w.1 (request_stop now drain w.1)
      × StopVerdict timeout
          (after_wait now drain timeout during w)
          w.1
          (stop now later drain timeout (λ s. (run_queue (w.0, s) during).1) w.1)
stop_verdict scope_id maxsize interval threshold l events actions now later drain timeout during
      made =
    let w = reached l events actions in
    let inv = run_queue_books scope_id maxsize interval threshold l events actions made in
    (
      request_stop-Asked w.0 now drain w.1 inv,
      stop-StopVerdict now later drain timeout during w inv,
    )
