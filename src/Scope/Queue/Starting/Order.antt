-- ===== src/Scope/Queue/Starting/Order.antt =====
-- Which deliveries a queue starts, in a run of it.
use mathlib.Core.Path.{subst}
use agent_cdp.Prelude.{
  ℕ, zero, suc, ◌≤◌, ◌<◌, ◌≡◌, refl, sym, ◌∙◌, Bool, Option, none, some, List, [], ◌∷◌, ◌++◌, All,
  lookup, has_key, if_ind, ℤ, arith,
}
use agent_cdp.Events.Values.{Outcome, return, raise}
use agent_cdp.Events.Delivery.{EventResult}
use agent_cdp.Events.Event.{Event, mark_running}
use agent_cdp.Scope.Queue.{
  Loop, System, Delivery, new_loop, begin_marked, begin, take_from, take_next,
}
use agent_cdp.Scope.Queue.Lists.{Above, Above-weaken}
use agent_cdp.Scope.Queue.Invariant.{sequences}
use agent_cdp.Scope.Queue.Tame.{
  Ordered, Tame, Tame-refl, same-Tame, cancel_delivery-Tame, cancel_remaining-Tame,
}
use agent_cdp.Scope.Queue.Starting.{
  enqueue-Tame, handler_ends-Tame, expire-Tame, start-Tame, request_stop-Tame, finish_stop-Tame,
  cancel_consumer-Tame, direct_started-Tame, direct_finished-Tame,
}
use agent_cdp.Scope.Queue.Runs.{
  Action, World, cancel_numbered, direct_end, act, Fresh, new_loop-Fresh,
}

-- The number of the delivery that a step has started: there was none in hand, and now there is.
abbrev pub newly : Option Delivery → Option Delivery → List ℕ
newly none (some d) = d.sequence ∷ []
newly _ _ = []

-- The numbers of the deliveries in the order in which they are started.
unfoldable pub started : World → List Action → List ℕ
unfolding act
started w [] = []
started w (a ∷ rest) = newly w.1.loop.active (act a w).1.loop.active ++ started (act a w) rest

-- After a step, what has been started comes before what waits.
abbrev After : ℕ → List ℕ → Loop → Type 0
After m [] l = Ordered m l
After m (n ∷ ns) l = (m < n) × Ordered n l

Tame-After :
    (m : ℕ) (a : Option Delivery) (l l' : Loop)
    → l.active ≡ a
    → Tame l l'
    → Ordered m l
    → After m (newly a l'.active) l'
Tame-After m (some d) l l' e tame h = tame.ordered m h
Tame-After m none l l' e tame h =
    subst (λ b. After m (newly none b) l') (sym (tame.idle e)) (tame.ordered m h)

-- The head of the queue goes; it is started, if it is pending and has its record.
head_gone :
    (m : ℕ) (d : Delivery) (rest : List Delivery) (l l' : Loop)
    → l.queue ≡ d ∷ rest
    → l'.queue ≡ rest
    → l'.sequence ≡ l.sequence
    → Ordered m l
    → (m < d.sequence) × Ordered d.sequence l'
head_gone m d rest l l' q q' n h =
    let (first, later) = subst (λ ds. Above m (sequences ds)) q h.above in
    let (known, given) = subst (λ ds. All (λ k. k ≤ l.sequence) (sequences ds)) q h.given in
    (first, record { above = rw q' later; given = rw (q', n) given; past = rw n known })

weaker : (m n : ℕ) (l : Loop) → m < n → Ordered n l → Ordered m l
weaker m n l less h = record {
  above = Above-weaken m n (sequences l.queue) (omega arith) h.above;
  given = h.given;
  past = omega (arith, h.past);
}

-- Nothing is in hand after the head of the queue has gone.
skipped-After :
    (m : ℕ) (d : Delivery) (rest : List Delivery) (l l' : Loop)
    → l.active ≡ none
    → l.queue ≡ d ∷ rest
    → l'.queue ≡ rest
    → l'.sequence ≡ l.sequence
    → l'.active ≡ l.active
    → Ordered m l
    → After m (newly none l'.active) l'
skipped-After m d rest l l' e q q' n a h =
    let (first, later) = head_gone m d rest l l' q q' n h in
    subst (λ b. After m (newly none b) l') (sym (a ∙ e)) (weaker m d.sequence l' first later)

begin_marked-After :
    (m now : ℕ) (d : Delivery) (rest : List Delivery) (o : Outcome Event) (s : System)
    → s.loop.active ≡ none
    → s.loop.queue ≡ d ∷ rest
    → Ordered m s.loop
    → let s' = begin_marked now d o (record s { loop = record (s.loop) { queue = rest } }) in
      After m (newly none s'.loop.active) s'.loop
begin_marked-After m now d rest (raise x) s e q h =
    let s' = begin_marked now d (raise x) (record s { loop = record (s.loop) { queue = rest } }) in
    skipped-After m d rest s.loop s'.loop e q refl refl refl h
begin_marked-After m now d rest (return ev) s e q h =
    let s' =
      begin_marked now d (return ev) (record s { loop = record (s.loop) { queue = rest } }) in
    head_gone m d rest s.loop s'.loop q refl refl h

take_from-After :
    (m now : ℕ) (a : Option Delivery) (queue : List Delivery) (s : System)
    → s.loop.active ≡ a
    → s.loop.queue ≡ queue
    → Ordered m s.loop
    → After m (newly a (take_from now a queue s).loop.active) (take_from now a queue s).loop
unfolding begin
take_from-After m now (some d) queue s e q h = h
take_from-After m now none [] s e q h =
    if_ind (λ (x : System). After m (newly none x.loop.active) x.loop) s.loop.stopping _ _
      (λ _. Tame-After m none s.loop _ e (same-Tame s.loop _ refl refl (λ k. k)) h)
      (λ _. Tame-After m none s.loop _ e (same-Tame s.loop _ refl refl (λ k. k)) h)
take_from-After m now none (d ∷ rest) s e q h =
    let waiting : System = record s { loop = record (s.loop) { queue = rest } } in
    if_ind (λ (x : System). After m (newly none x.loop.active) x.loop)
      (has_key d.sequence s.loop.pending) _ _
      (λ _.
        begin_marked-After m now d rest (mark_running now d.connection.id (s.events d.event)) s e q
          h)
      (λ _. skipped-After m d rest s.loop waiting.loop e q refl refl refl h)

cancel_numbered-Tame :
    (now : ℕ) (include_running : Bool) (o : Option Delivery) (s : System)
    → Tame s.loop (cancel_numbered now include_running o s).loop
cancel_numbered-Tame now include_running none s = Tame-refl s.loop
cancel_numbered-Tame now include_running (some d) s = cancel_delivery-Tame now d include_running s

direct_end-Tame :
    (now : ℕ) (r : EventResult) (n began : ℕ) (w : World)
    → Tame w.1.loop (direct_end now r n began w).1.loop
direct_end-Tame now r n began (zero, s) = Tame-refl s.loop
direct_end-Tame now r n began (suc directs, s) = direct_finished-Tame now r n began s.loop

abbrev Next : ℕ → World → World → Type 0
Next m w w' = After m (newly w.1.loop.active w'.1.loop.active) w'.1.loop

Tame-Next : (m : ℕ) {l l' : Loop} → Ordered m l → Tame l l' → After m (newly l.active l'.active) l'
Tame-Next m {l} {l'} h tame = Tame-After m l.active l l' refl tame h

act-Next : (m : ℕ) (a : Action) (w : World) → Ordered m w.1.loop → Next m w (act a w)
unfolding act take_next
act-Next m (Action.enqueues now e c source_id) (directs, s) h =
    Tame-Next m h (enqueue-Tame now e c source_id s)
act-Next m (Action.takes now) (directs, s) h =
    take_from-After m now s.loop.active s.loop.queue s refl refl h
act-Next m (Action.ends now end) (directs, s) h = Tame-Next m h (handler_ends-Tame now end s)
act-Next m Action.expires (directs, s) h = Tame-Next m h (expire-Tame s)
act-Next m (Action.cancels now n include_running) (directs, s) h =
    Tame-Next m h (cancel_numbered-Tame now include_running (lookup n s.loop.pending) s)
act-Next m (Action.cancels_rest now) (directs, s) h = Tame-Next m h (cancel_remaining-Tame now s)
act-Next m (Action.stops now drain) (directs, s) h = Tame-Next m h (request_stop-Tame now drain s)
act-Next m Action.starts (directs, s) h = Tame-Next m h (start-Tame s.loop)
act-Next m (Action.stop_ends now) (directs, s) h = Tame-Next m h (finish_stop-Tame now s)
act-Next m (Action.consumer_is_cancelled now) (directs, s) h =
    Tame-Next m h (cancel_consumer-Tame now s)
act-Next m (Action.direct_starts now) (directs, s) h =
    Tame-Next m h (direct_started-Tame now s.loop)
act-Next m (Action.direct_ends now r n began) w h = Tame-Next m h (direct_end-Tame now r n began w)
act-Next m (Action.event_changes e c) (directs, s) h = Tame-Next m h (Tame-refl s.loop)

-- One step, and the rest of the run.
join :
    (m : ℕ) (a b : Option Delivery) (l : Loop) (rest : List ℕ)
    → After m (newly a b) l
    → ((k : ℕ) → Ordered k l → Above k rest)
    → Above m (newly a b ++ rest)
join m none none l rest h later = later m h
join m none (some d) l rest (first, h) later = (first, later d.sequence h)
join m (some d) b l rest h later = later m h

started-Above :
    (actions : List Action) (m : ℕ) (w : World) → Ordered m w.1.loop → Above m (started w actions)
unfolding started
started-Above [] m w h = tt
started-Above (a ∷ actions) m w h =
    join m w.1.loop.active (act a w).1.loop.active (act a w).1.loop (started (act a w) actions)
      (act-Next m a w h) (λ k ordered. started-Above actions k (act a w) ordered)

new_loop-Ordered : (l : Loop) → Fresh l → Ordered 0 l
new_loop-Ordered l fresh = record {
  above = rw fresh.queue tt;
  given = rw fresh.queue tt;
  past = omega arith;
}

-- A queue that was made by its constructor starts its deliveries in the order of their admission,
-- each at most once, through any steps of the consumer, the callers and whoever changes the events:
-- the numbers of the deliveries that are started, which admission gives out one by one, ascend.
pub started-ascending :
    (scope_id : ℕ) (maxsize interval : ℤ) (threshold : Option ℤ) (l : Loop) (events : ℕ → Event)
    (actions : List Action)
    → new_loop scope_id maxsize interval threshold ≡ return l
    → Above 0 (started (0, record { loop = l; events = events }) actions)
started-ascending scope_id maxsize interval threshold l events actions made =
    started-Above actions 0 (0, record { loop = l; events = events })
      (new_loop-Ordered l (new_loop-Fresh scope_id maxsize interval threshold l made))
