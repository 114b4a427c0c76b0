-- ===== src/Scope/Queue/Halted.antt =====
-- How `stop` without `drain` begins.
use mathlib.Core.Path.{subst}
use mathlib.Core.List.{append-nil}
use agent_cdp.Prelude.{
  ℕ, ◌+◌, ◌≡◌, refl, ap, sym, ◌∙◌, true, false, Option, none, some, List, [], ◌∷◌, ◌++◌, All, keys,
  values, contains, length, map, Bool-cases, inl, inr, ◌==◌, ==_iff, ==_refl, arith,
}
use agent_cdp.Events.Event.{Event}
use agent_cdp.Scope.Queue.{System, Delivery, cancel_delivery, cancel_all, cancel_remaining}
use agent_cdp.Scope.Queue.Lists.{Above}
use agent_cdp.Scope.Queue.Growth.{All-Grows, pending-values, pending-numbered}
use agent_cdp.Scope.Queue.Invariant.{Inv, HasRecord, sequences, active_sequence}
use agent_cdp.Scope.Queue.Cancelled.{
  cancel_delivery-Grows, cancel_delivery-Inv, cancel_remaining-Inv,
}
use agent_cdp.Scope.Queue.Halting.{cancel_delivery-Cancels}
use agent_cdp.Scope.Queue.Balance.{length-keys}

-- Of the deliveries `ds`, only the one in hand is pending afterwards, and nothing new.
record Swept (ds : List Delivery) (s t : System) : Type 0 where
  active : active_sequence t.loop.active ≡ active_sequence s.loop.active
  only : (k : ℕ) → contains k (keys t.loop.pending) ≡ true → contains k (keys s.loop.pending) ≡ true
  gone :
      All
        (λ d.
          contains d.sequence (keys t.loop.pending) ≡ true
          → contains d.sequence (active_sequence s.loop.active) ≡ true)
        ds

cancel_all-Swept :
    (directs now : ℕ) (ds : List Delivery) (s : System)
    → All (HasRecord s.events) ds
    → Inv directs s
    → Swept ds s (cancel_all now ds s)
unfolding cancel_all
cancel_all-Swept directs now [] s known inv = record { active = refl; only = λ k h. h; gone = tt }
cancel_all-Swept directs now (d ∷ ds) s known inv =
    let t = cancel_delivery now d true s in
    let one = cancel_delivery-Cancels directs now d s known.0 inv in
    let rest =
      cancel_all-Swept directs now ds t
        (All-Grows s.events t.events ds (cancel_delivery-Grows now d true s) known.1)
        (cancel_delivery-Inv directs now d true s known.0 inv) in
    record {
      active = rest.active ∙ one.active;
      only = λ k h. one.only k (rest.only k h);
      gone = (
        λ h. one.gone (rest.only d.sequence h),
        subst
            (λ ns.
              All
                (λ (x : Delivery).
                  contains x.sequence (keys (cancel_all now ds t).loop.pending) ≡ true
                  → contains x.sequence ns ≡ true)
                ds)
            one.active rest.gone,
      );
    }

gone_all :
    (k : ℕ) (left act : List ℕ) (ds : List Delivery)
    → All (λ d. contains d.sequence left ≡ true → contains d.sequence act ≡ true) ds
    → contains k (map (λ d. d.sequence) ds) ≡ true
    → contains k left ≡ true
    → contains k act ≡ true
gone_all k left act [] h here still = cc
gone_all k left act (d ∷ ds) h here still = elim (Bool-cases (k == d.sequence)) [
  | inl same ↦
      let e = (==_iff k d.sequence).0 same in
      ap (λ n. contains n act) e ∙ h.0 (ap (λ n. contains n left) (sym e) ∙ still)
  | inr other ↦ gone_all k left act ds h.1 (rw other at here) still
]

-- What is pending is in hand.
cancel_remaining-pending :
    (directs now : ℕ) (s : System) (k : ℕ)
    → Inv directs s
    → contains k (keys (cancel_remaining now s).loop.pending) ≡ true
    → contains k (active_sequence (cancel_remaining now s).loop.active) ≡ true
unfolding cancel_remaining
cancel_remaining-pending directs now s k inv h =
    let all = values s.loop.pending in
    let swept =
      cancel_all-Swept directs now all s
        (pending-values s.events s.loop.pending inv.recorded.pending) inv in
    ap (contains k) swept.active
    ∙ gone_all k (keys (cancel_all now all s).loop.pending) (active_sequence s.loop.active) all
        swept.gone
        (ap (contains k) (pending-numbered s.events s.loop.pending inv.recorded.pending)
          ∙ swept.only k h)
        h

contains-middle : (n : ℕ) (xs ys : List ℕ) → contains n (xs ++ n ∷ ys) ≡ true
contains-middle n [] ys = ground (arith, ==_refl n)
contains-middle n (x ∷ xs) ys = ground (arith, contains-middle n xs ys)

in_hand_before :
    (n : ℕ) (a : Option Delivery) (rest : List ℕ)
    → Above 0 (active_sequence a ++ n ∷ rest)
    → contains n (active_sequence a) ≡ false
in_hand_before n none rest up = refl
in_hand_before n (some a) rest up = ground (arith, up.1.0)

-- A queue whose pending deliveries are all in hand is empty.
nothing_queued :
    (ds : List Delivery) (a : Option Delivery) (numbers : List ℕ)
    → numbers ≡ active_sequence a ++ sequences ds
    → Above 0 numbers
    → ((k : ℕ) → contains k numbers ≡ true → contains k (active_sequence a) ≡ true)
    → ds ≡ []
nothing_queued [] a numbers order up h = refl
nothing_queued (d ∷ ds) a numbers order up h = cc (
  h d.sequence (
      ap (contains d.sequence) order
      ∙ contains-middle d.sequence (active_sequence a) (sequences ds)),
  in_hand_before d.sequence a (sequences ds) (subst (Above 0) order up),
)

-- A queue of which only the delivery in hand is left.
pub record Halted (directs : ℕ) (s : System) : Type 0 where
  pub queue : s.loop.queue ≡ []
  pub pending : keys s.loop.pending ≡ active_sequence s.loop.active
  pub counted :
      s.loop.accepted
      ≡ s.loop.completed
        + s.loop.failed
        + s.loop.cancelled
        + length (active_sequence s.loop.active)
        + directs

pub cancel_remaining-Halted :
    (directs now : ℕ) (s : System) → Inv directs s → Halted directs (cancel_remaining now s)
cancel_remaining-Halted directs now s inv =
    let t = cancel_remaining now s in
    let after = cancel_remaining-Inv directs now s inv in
    let empty =
      nothing_queued t.loop.queue t.loop.active (keys t.loop.pending) after.shape.order
        after.shape.ascending (λ k. cancel_remaining-pending directs now s k inv) in
    let in_hand =
      after.shape.order
      ∙ ap (λ q. active_sequence t.loop.active ++ sequences q) empty
      ∙ append-nil (active_sequence t.loop.active) in
    record {
      queue = empty;
      pending = in_hand;
      counted = omega (arith, after.shape.counted, length-keys t.loop.pending, ap length in_hand);
    }
