-- ===== src/Scope/Queue/Tame.antt =====
-- Steps of a queue that start no delivery: what they do to the numbers of those that wait.
use agent_cdp.Prelude.{
  ℕ, ◌≤◌, ◌≡◌, refl, ◌∙◌, Bool, true, Option, none, some, List, [], ◌∷◌, All, select, values,
  lookup, has_key, if_ind, ◌==◌, arith,
}
use agent_cdp.Events.Delivery.{EventResult}
use agent_cdp.Scope.Queue.{
  Loop, System, Delivery, leave, leave_with, finish_delivery, cancel_active, purge, cancel_queued,
  cancel_pending, cancel_delivery, cancel_all, cancel_remaining,
}
use agent_cdp.Scope.Queue.Lists.{Above, Above-weaken}
use agent_cdp.Scope.Queue.Invariant.{sequences}
use agent_cdp.Scope.Queue.Leaving.{leave-Left}

-- What waits was admitted in the order of the queue, after the delivery numbered `m`.
pub record Ordered (m : ℕ) (l : Loop) : Type 0 where
  pub above : Above m (sequences l.queue)
  pub given : All (λ n. n ≤ l.sequence) (sequences l.queue)
  pub past : m ≤ l.sequence

pub record Tame (l l' : Loop) : Type 0 where
  pub ordered : (m : ℕ) → Ordered m l → Ordered m l'
  pub idle : l.active ≡ none → l'.active ≡ none

pub Tame-refl : (l : Loop) → Tame l l
Tame-refl l = record { ordered = λ m h. h; idle = λ h. h }

pub Tame-trans : {a b c : Loop} → Tame a b → Tame b c → Tame a c
Tame-trans h g = record {
  ordered = λ m o. g.ordered m (h.ordered m o);
  idle = λ e. g.idle (h.idle e);
}

-- Another loop with the same queue and the same last number.
pub same-Ordered :
    (m : ℕ) (l l' : Loop)
    → l'.queue ≡ l.queue
    → l'.sequence ≡ l.sequence
    → Ordered m l
    → Ordered m l'
same-Ordered m l l' q n h = record {
  above = rw q h.above;
  given = rw (q, n) h.given;
  past = rw n h.past;
}

pub same-Tame :
    (l l' : Loop)
    → l'.queue ≡ l.queue
    → l'.sequence ≡ l.sequence
    → (l.active ≡ none → l'.active ≡ none)
    → Tame l l'
same-Tame l l' q n a = record { ordered = λ m h. same-Ordered m l l' q n h; idle = a }

leave_with-Tame :
    (now : ℕ) (d : Delivery) (o : Option EventResult) (s : System)
    → Tame s.loop (leave_with now d o s).loop
leave_with-Tame now d none s = Tame-refl s.loop
leave_with-Tame now d (some r) s =
    let left = leave-Left now d r s in
    same-Tame s.loop (leave now d r s).loop left.queue left.sequence (λ h. left.active ∙ h)

pub finish_delivery-Tame :
    (now : ℕ) (d : Delivery) (s : System) → Tame s.loop (finish_delivery now d s).loop
unfolding finish_delivery
finish_delivery-Tame now d s =
    if_ind (λ (t : System). Tame s.loop t.loop) (has_key d.sequence s.loop.pending) _ s
      (λ _. leave_with-Tame now d (lookup d.connection.id (s.events d.event).event_results) s)
      (λ _. Tame-refl s.loop)

select-Above :
    (p : Delivery → Bool) (m : ℕ) (ds : List Delivery)
    → Above m (sequences ds)
    → Above m (sequences (select p ds))
select-Above p m [] h = tt
select-Above p m (d ∷ ds) (first, rest) =
    if_ind (λ xs. Above m (sequences xs)) (p d) (d ∷ select p ds) (select p ds)
      (λ _. (first, select-Above p d.sequence ds rest))
      (λ _.
        Above-weaken m d.sequence (sequences (select p ds)) (omega arith)
          (select-Above p d.sequence ds rest))

select-All :
    (p : Delivery → Bool) (n : ℕ) (ds : List Delivery)
    → All (λ k. k ≤ n) (sequences ds)
    → All (λ k. k ≤ n) (sequences (select p ds))
select-All p n [] h = tt
select-All p n (d ∷ ds) (first, rest) =
    if_ind (λ xs. All (λ k. k ≤ n) (sequences xs)) (p d) (d ∷ select p ds) (select p ds)
      (λ _. (first, select-All p n ds rest)) (λ _. select-All p n ds rest)

purge-Tame : (l : Loop) → Tame l (purge l)
purge-Tame l = record {
  ordered = λ m h. record {
    above = select-Above (λ d. has_key d.sequence l.pending) m l.queue h.above;
    given = select-All (λ d. has_key d.sequence l.pending) l.sequence l.queue h.given;
    past = h.past;
  };
  idle = λ h. h;
}

pub cancel_active-Tame :
    (d : Delivery) (s : System) → ¬ (s.loop.active ≡ none) → Tame s.loop (cancel_active d s).loop
unfolding cancel_active
cancel_active-Tame d s busy =
    if_ind (λ (t : System). Tame s.loop t.loop) d.cancel_sent s _ (λ _. Tame-refl s.loop)
      (λ _. same-Tame s.loop _ refl refl (λ h. absurd (busy h)))

cancel_queued-Tame :
    (now : ℕ) (d : Delivery) (s : System) → Tame s.loop (cancel_queued now d s).loop
unfolding cancel_queued
cancel_queued-Tame now d s = Tame-trans (finish_delivery-Tame now d _) (purge-Tame _)

pub some_busy : {A : Type 0} (o : Option A) (a : A) → o ≡ some a → ¬ (o ≡ none)
some_busy o a e h = cc

cancel_pending-Tame :
    (now : ℕ) (d : Delivery) (include_running : Bool) (a : Option Delivery) (s : System)
    → s.loop.active ≡ a
    → Tame s.loop (cancel_pending now d include_running a s).loop
cancel_pending-Tame now d include_running none s e = cancel_queued-Tame now d s
cancel_pending-Tame now d include_running (some a) s e =
    if_ind (λ (t : System). Tame s.loop t.loop) (d.sequence == a.sequence) _ _
      (λ _.
        if_ind (λ (t : System). Tame s.loop t.loop) include_running _ s
          (λ _. cancel_active-Tame a s (some_busy s.loop.active a e)) (λ _. Tame-refl s.loop))
      (λ _. cancel_queued-Tame now d s)

pub cancel_delivery-Tame :
    (now : ℕ) (d : Delivery) (include_running : Bool) (s : System)
    → Tame s.loop (cancel_delivery now d include_running s).loop
unfolding cancel_delivery
cancel_delivery-Tame now d include_running s =
    if_ind (λ (t : System). Tame s.loop t.loop) (has_key d.sequence s.loop.pending) _ s
      (λ _. cancel_pending-Tame now d include_running s.loop.active s refl) (λ _. Tame-refl s.loop)

cancel_all-Tame :
    (now : ℕ) (ds : List Delivery) (s : System) → Tame s.loop (cancel_all now ds s).loop
unfolding cancel_all
cancel_all-Tame now [] s = Tame-refl s.loop
cancel_all-Tame now (d ∷ ds) s =
    Tame-trans (cancel_delivery-Tame now d true s)
      (cancel_all-Tame now ds (cancel_delivery now d true s))

pub cancel_remaining-Tame : (now : ℕ) (s : System) → Tame s.loop (cancel_remaining now s).loop
unfolding cancel_remaining
cancel_remaining-Tame now s = cancel_all-Tame now (values s.loop.pending) s
