-- ===== src/Scope/Queue/Starting.antt =====
-- The order in which a queue starts its deliveries.
pub mod Order
use agent_cdp.Prelude.{
  ℕ, ◌+◌, ◌≤◌, ◌<◌, ◌≡◌, refl, ap, sym, ◌∙◌, Bool, true, false, not, ◌&&◌, Option, none, some, List,
  [], ◌∷◌, ◌++◌, All, map, lookup, has_key, is_empty, if_ind, if◌then◌else◌, ◌==◌, arith, All-snoc,
}
use agent_cdp.Events.Values.{Exc, Outcome, return, raise}
use agent_cdp.Events.Delivery.{EventResult}
use agent_cdp.Events.Event.{Event, Receiver, mark_running}
use agent_cdp.Scope.Queue.{
  Loop, System, Delivery, ConsumerTask, TaskEnd, put, prepared, refuses, rejection, reject,
  note_rejection, new_admission, admit, enqueue, begin_marked, begin, take_from, take_next,
  conclude, task_ends, task_ends_for, handler_ends, expire, expire_for, cancel_remaining, start,
  is_absent, is_alive, or_kept, started_to_drain, request_stop, finish_stop, shut_down,
  cancel_consumer, cancel_consumer_for, direct_started, direct_finished, count_result,
}
use agent_cdp.Scope.Queue.Lists.{Above, Above-weaken, Above-append}
use agent_cdp.Scope.Queue.Invariant.{sequences}
use agent_cdp.Scope.Queue.Admitting.{All-le_lt, All-le_suc, sequences-snoc}
use agent_cdp.Scope.Queue.Tame.{
  Ordered, Tame, Tame-refl, Tame-trans, same-Ordered, same-Tame, some_busy, finish_delivery-Tame,
  cancel_active-Tame, cancel_delivery-Tame, cancel_remaining-Tame,
}

numbered-Ordered :
    (m : ℕ) (l l' : Loop)
    → l'.queue ≡ l.queue
    → l'.sequence ≡ l.sequence + 1
    → Ordered m l
    → Ordered m l'
numbered-Ordered m l l' q n h = record {
  above = rw q h.above;
  given = rw (q, n) (All-le_suc l.sequence (sequences l.queue) h.given);
  past = rw n (omega (arith, h.past));
}

numbered-Tame :
    (l l' : Loop)
    → l'.queue ≡ l.queue
    → l'.sequence ≡ l.sequence + 1
    → l'.active ≡ l.active
    → Tame l l'
numbered-Tame l l' q n a = record {
  ordered = λ m h. numbered-Ordered m l l' q n h;
  idle = λ h. a ∙ h;
}

reject-Tame :
    (now e : ℕ) (c : Receiver) (error : Exc) (s : System)
    → Tame s.loop (reject now e c error s).loop
unfolding reject
reject-Tame now e c error s =
    same-Tame s.loop (reject now e c error s).loop (ground arith) (ground arith) (λ h. ground arith)

-- The new delivery has the next number.
enqueue-Ordered :
    (now e : ℕ) (c : Receiver) (source_id m : ℕ) (s : System)
    → Ordered m s.loop
    → Ordered m (enqueue now e c source_id s).0.loop
unfolding enqueue admit
enqueue-Ordered now e c source_id m s h =
    let ready : System = record {
      loop = record (s.loop) { sequence = s.loop.sequence + 1 };
      events = put e (prepared now c source_id s.loop (s.events e)) s.events;
    } in
    let d = new_admission now e c ready.loop in
    if_ind (λ (x : System × Option Exc). Ordered m x.0.loop) (refuses ready.loop) _ _
      (λ _.
        (reject-Tame now e c (rejection ready.loop (ready.events e) c) ready).ordered m
          (numbered-Ordered m s.loop ready.loop refl refl h))
      (λ _. record {
        above = rw (sequences-snoc s.loop.queue d) (
            Above-append m (s.loop.sequence + 1) (sequences s.loop.queue) h.above
              (All-le_lt s.loop.sequence (sequences s.loop.queue) h.given) (omega (arith, h.past)));
        given = rw (sequences-snoc s.loop.queue d) (
            All-snoc (λ k. k ≤ s.loop.sequence + 1) (sequences s.loop.queue) (s.loop.sequence + 1)
              (All-le_suc s.loop.sequence (sequences s.loop.queue) h.given) (omega arith));
        past = omega (arith, h.past);
      })

enqueue-idle :
    (now e : ℕ) (c : Receiver) (source_id : ℕ) (s : System)
    → s.loop.active ≡ none
    → (enqueue now e c source_id s).0.loop.active ≡ none
unfolding enqueue admit
enqueue-idle now e c source_id s h =
    let ready : System = record {
      loop = record (s.loop) { sequence = s.loop.sequence + 1 };
      events = put e (prepared now c source_id s.loop (s.events e)) s.events;
    } in
    if_ind (λ (x : System × Option Exc). x.0.loop.active ≡ none) (refuses ready.loop) _ _
      (λ _. (reject-Tame now e c (rejection ready.loop (ready.events e) c) ready).idle h) (λ _. h)

pub enqueue-Tame :
    (now e : ℕ) (c : Receiver) (source_id : ℕ) (s : System)
    → Tame s.loop (enqueue now e c source_id s).0.loop
enqueue-Tame now e c source_id s = record {
  ordered = λ m h. enqueue-Ordered now e c source_id m s h;
  idle = λ h. enqueue-idle now e c source_id s h;
}

shut_down-Tame : (now : ℕ) (s : System) → Tame s.loop (shut_down now s).loop
unfolding shut_down
shut_down-Tame now s =
    Tame-trans (same-Tame s.loop _ refl refl (λ h. h)) (cancel_remaining-Tame now _)

task_ends_for-Tame :
    (now : ℕ) (end : TaskEnd) (o : Option Delivery) (s : System)
    → Tame s.loop (task_ends_for now end o s).loop
unfolding conclude
task_ends_for-Tame now end none s = Tame-refl s.loop
task_ends_for-Tame now end (some d) s =
    Tame-trans (same-Tame s.loop _ refl refl (λ h. refl)) (finish_delivery-Tame now d _)

pub handler_ends-Tame :
    (now : ℕ) (end : TaskEnd) (s : System) → Tame s.loop (handler_ends now end s).loop
unfolding handler_ends task_ends
handler_ends-Tame now end s =
    let t = task_ends_for now end s.loop.active s in
    if_ind (λ (x : System). Tame s.loop x.loop) t.loop.consumer_cancelled _ _
      (λ _. Tame-trans (task_ends_for-Tame now end s.loop.active s) (shut_down-Tame now t))
      (λ _. task_ends_for-Tame now end s.loop.active s)

expire_for-Tame :
    (o : Option Delivery) (s : System) → s.loop.active ≡ o → Tame s.loop (expire_for o s).loop
expire_for-Tame none s e = Tame-refl s.loop
expire_for-Tame (some d) s e =
    same-Tame s.loop _ refl refl (λ h. absurd (some_busy s.loop.active d e h))

pub expire-Tame : (s : System) → Tame s.loop (expire s).loop
unfolding expire
expire-Tame s = expire_for-Tame s.loop.active s refl

pub start-Tame : (l : Loop) → Tame l (or_kept l (start l))
unfolding start
start-Tame l =
    if_ind (λ o. Tame l (or_kept l o)) l.running _ _ (λ _. Tame-refl l)
      (λ _.
        if_ind (λ o. Tame l (or_kept l o)) (is_alive l.task) _ _ (λ _. Tame-refl l)
          (λ _. same-Tame l _ refl refl (λ h. h)))

pub request_stop-Tame :
    (now : ℕ) (drain : Bool) (s : System) → Tame s.loop (request_stop now drain s).loop
unfolding request_stop started_to_drain
request_stop-Tame now drain s =
    let l = started_to_drain drain s.loop in
    let told : System = record s {
      loop = record l { stopping = true; running = false; wake = true };
    } in
    let started =
      Tame-trans
        (if_ind (Tame s.loop) (not (is_empty s.loop.pending) && is_absent s.loop.task && drain) _ _
          (λ _. start-Tame s.loop) (λ _. Tame-refl s.loop))
        (same-Tame l told.loop refl refl (λ h. h)) in
    if_ind (λ (x : System). Tame s.loop x.loop) drain _ _ (λ _. started)
      (λ _. Tame-trans started (cancel_remaining-Tame now told))

pub finish_stop-Tame : (now : ℕ) (s : System) → Tame s.loop (finish_stop now s).0.loop
unfolding finish_stop
finish_stop-Tame now s =
    let asked = cancel_remaining-Tame now s in
    if_ind (λ (x : System × Bool). Tame s.loop x.0.loop) (is_alive s.loop.task) _ _ (λ _. asked)
      (λ _.
        Tame-trans
          (if_ind (λ (x : System). Tame s.loop x.loop) (is_empty s.loop.pending) s _
            (λ _. Tame-refl s.loop) (λ _. asked))
          (same-Tame _ _ refl refl (λ h. h)))

cancel_consumer_for-Tame :
    (now : ℕ) (o : Option Delivery) (s : System)
    → s.loop.active ≡ o
    → Tame s.loop (cancel_consumer_for now o s).loop
cancel_consumer_for-Tame now none s e = shut_down-Tame now s
cancel_consumer_for-Tame now (some d) s e = Tame-trans (same-Tame s.loop _ refl refl (λ h. h)) (
    cancel_active-Tame d (record s { loop = record (s.loop) { consumer_cancelled = true } })
      (some_busy s.loop.active d e))

pub cancel_consumer-Tame : (now : ℕ) (s : System) → Tame s.loop (cancel_consumer now s).loop
unfolding cancel_consumer
cancel_consumer-Tame now s =
    if_ind (λ (x : System). Tame s.loop x.loop) (is_alive s.loop.task) _ s
      (λ _. cancel_consumer_for-Tame now s.loop.active s refl) (λ _. Tame-refl s.loop)

pub direct_started-Tame : (now : ℕ) (l : Loop) → Tame l (direct_started now l).0
unfolding direct_started
direct_started-Tame now l = numbered-Tame l _ refl refl refl

pub direct_finished-Tame :
    (now : ℕ) (r : EventResult) (n began : ℕ) (l : Loop) → Tame l (direct_finished now r n began l)
unfolding direct_finished count_result
direct_finished-Tame now r n began l =
    same-Tame l _ (ground arith) (ground arith) (λ h. ground arith)
