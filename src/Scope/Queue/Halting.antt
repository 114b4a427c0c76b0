-- ===== src/Scope/Queue/Halting.antt =====
-- What `stop` without `drain` leaves of the queue.
use mathlib.Core.Path.{subst}
use agent_cdp.Prelude.{
  ℕ, ◌≡◌, refl, ap, sym, ◌∙◌, Bool, true, Option, none, some, List, keys, contains, has_key, if_ind,
  ◌==◌, ==_refl, arith,
}
use agent_cdp.Scope.Queue.{
  System, Delivery, cancel_active, cancel_queued, cancel_pending, cancel_delivery,
}
use agent_cdp.Scope.Queue.Lists.{others, keys-erase, contains-others, has_key-contains}
use agent_cdp.Scope.Queue.Growth.{HasRecord-Grows}
use agent_cdp.Scope.Queue.Invariant.{Inv, HasRecord, active_sequence}
use agent_cdp.Scope.Queue.Changes.{finish_delivery-leave}
use agent_cdp.Scope.Queue.Leaving.{leave-Left}
use agent_cdp.Scope.Queue.Cancelled.{settled, settled-Grows}

-- What cancelling the delivery `n` does to the numbers that are pending.
pub record Cancels (n : ℕ) (s t : System) : Type 0 where
  pub active : active_sequence t.loop.active ≡ active_sequence s.loop.active
  pub only :
      (k : ℕ) → contains k (keys t.loop.pending) ≡ true → contains k (keys s.loop.pending) ≡ true
  pub gone :
      contains n (keys t.loop.pending) ≡ true → contains n (active_sequence s.loop.active) ≡ true

in_others : (k n : ℕ) (ns : List ℕ) → contains k (others n ns) ≡ true → contains k ns ≡ true
in_others k n ns h = ground (arith, contains-others n k ns)

others_gone : (n : ℕ) (ns : List ℕ) {b : Bool} → contains n (others n ns) ≡ true → b ≡ true
others_gone n ns h = ground (arith, contains-others n n ns, ==_refl n)

cancel_queued-Cancels :
    (directs now : ℕ) (d : Delivery) (s : System)
    → has_key d.sequence s.loop.pending ≡ true
    → HasRecord s.events d
    → Inv directs s
    → Cancels d.sequence s (cancel_queued now d s)
unfolding cancel_queued settled
cancel_queued-Cancels directs now d s present known inv =
    let (r, e) =
      finish_delivery-leave now d (settled now d s) present
        (HasRecord-Grows s.events (settled now d s).events d (settled-Grows now d s) known) in
    let left = leave-Left now d r (settled now d s) in
    let numbers =
      ap keys left.pending ∙ keys-erase d.sequence 0 s.loop.pending inv.shape.ascending in
    rw e (record {
      active = ap active_sequence left.active;
      only = λ k h.
          in_others k d.sequence (keys s.loop.pending)
            (subst (λ ns. contains k ns ≡ true) numbers h);
      gone = λ h.
          others_gone d.sequence (keys s.loop.pending)
            (subst (λ ns. contains d.sequence ns ≡ true) numbers h);
    })

-- The delivery in hand stays, whether it is asked to end or has been.
cancel_active-Cancels :
    (n : ℕ) (a : Delivery) (s : System)
    → s.loop.active ≡ some a
    → (n == a.sequence) ≡ true
    → Cancels n s (cancel_active a s)
unfolding cancel_active
cancel_active-Cancels n a s busy same =
    if_ind (Cancels n s) a.cancel_sent s _
      (λ _. record { active = refl; only = λ k h. h; gone = λ _. in_hand })
      (λ _. record { active = sym (ap active_sequence busy); only = λ k h. h; gone = λ _. in_hand })
  where
    in_hand : contains n (active_sequence s.loop.active) ≡ true
    in_hand = ap (λ o. contains n (active_sequence o)) busy ∙ ground arith

cancel_pending-Cancels :
    (directs now : ℕ) (d : Delivery) (a : Option Delivery) (s : System)
    → s.loop.active ≡ a
    → has_key d.sequence s.loop.pending ≡ true
    → HasRecord s.events d
    → Inv directs s
    → Cancels d.sequence s (cancel_pending now d true a s)
cancel_pending-Cancels directs now d none s e present known inv =
    cancel_queued-Cancels directs now d s present known inv
cancel_pending-Cancels directs now d (some a) s e present known inv =
    if_ind (Cancels d.sequence s) (d.sequence == a.sequence) _ _
      (λ same. cancel_active-Cancels d.sequence a s e same)
      (λ _. cancel_queued-Cancels directs now d s present known inv)

pub cancel_delivery-Cancels :
    (directs now : ℕ) (d : Delivery) (s : System)
    → HasRecord s.events d
    → Inv directs s
    → Cancels d.sequence s (cancel_delivery now d true s)
unfolding cancel_delivery
cancel_delivery-Cancels directs now d s known inv =
    if_ind (Cancels d.sequence s) (has_key d.sequence s.loop.pending) _ s
      (λ present. cancel_pending-Cancels directs now d s.loop.active s refl present known inv)
      (λ absent. record {
        active = refl;
        only = λ k h. h;
        gone = λ h. cc (absent, has_key-contains d.sequence s.loop.pending, h);
      })
