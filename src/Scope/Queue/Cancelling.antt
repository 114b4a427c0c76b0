-- ===== src/Scope/Queue/Cancelling.antt =====
-- What cancelling one delivery does to the books of the queue.
use mathlib.Core.Path.{subst}
use agent_cdp.Prelude.{
  contains-append, ℕ, ◌≤◌, ◌≡◌, refl, ap, sym, ◌∙◌, true, not, ◌&&◌, List, [], ◌∷◌, ◌++◌, All, Dict,
  keys, has_key, select, contains, length, ◌==◌, ==_refl, length-select-le, arith,
}
use agent_cdp.Scope.Queue.{Loop, System, Delivery, purge}
use agent_cdp.Scope.Queue.Lists.{
  others, keys-erase, has_key-contains, contains-others, select_congr,
}
use agent_cdp.Scope.Queue.Growth.{waiting-select}
use agent_cdp.Scope.Queue.Invariant.{Shape, Recorded, sequences}
use agent_cdp.Scope.Queue.Leaving.{Left, Left-Shrunk, Shrunk}

contains-right : (n : ℕ) (xs ys : List ℕ) → contains n ys ≡ true → contains n (xs ++ ys) ≡ true
contains-right n xs ys h = ground (arith, contains-append n xs ys)

In : List ℕ → List Delivery → Type 0
In ns ds = All (λ d. contains d.sequence ns ≡ true) ds

In-cons : (n : ℕ) (ns : List ℕ) (ds : List Delivery) → In ns ds → In (n ∷ ns) ds
unfolding In
In-cons n ns [] h = tt
In-cons n ns (d ∷ ds) h = (ground (arith, h.0), In-cons n ns ds h.1)

In-sequences : (ds : List Delivery) → In (sequences ds) ds
unfolding In
In-sequences [] = tt
In-sequences (d ∷ ds) =
    (ground (arith, ==_refl d.sequence), In-cons d.sequence (sequences ds) ds (In-sequences ds))

In-append : (ns ms : List ℕ) (ds : List Delivery) → In ms ds → In (ns ++ ms) ds
unfolding In
In-append ns ms [] h = tt
In-append ns ms (d ∷ ds) h = (contains-right d.sequence ns ms h.0, In-append ns ms ds h.1)

-- After `n` has left, the deliveries not done are those of another number.
not_done :
    (n : ℕ) (before after : Dict Delivery) (ds : List Delivery)
    → keys after ≡ others n (keys before)
    → In (keys before) ds
    → All (λ d. has_key d.sequence after ≡ not (d.sequence == n)) ds
unfolding In
not_done n before after [] e h = tt
not_done n before after (d ∷ ds) e h = (
  has_key-contains d.sequence after
      ∙ ap (contains d.sequence) e
      ∙ contains-others n d.sequence (keys before)
      ∙ ap (λ b. b && not (d.sequence == n)) h.0,
  not_done n before after ds e h.1,
)

sequences-select :
    (n : ℕ) (ds : List Delivery)
    → sequences (select (λ d. not (d.sequence == n)) ds) ≡ others n (sequences ds)
sequences-select n [] = refl
sequences-select n (d ∷ ds) = ground (arith, sequences-select n ds)

-- Purging the queue takes out exactly the delivery that has left.
purge-others :
    (directs n : ℕ) (act : List ℕ) (l l' : Loop)
    → Shape directs act l
    → Left n l l'
    → sequences (purge l').queue ≡ others n (sequences l.queue)
unfolding In
purge-others directs n act l l' h left =
    let still =
      not_done n l.pending l'.pending l.queue
        (ap keys left.pending ∙ keys-erase n 0 l.pending h.ascending)
        (subst (λ ns. In ns l.queue) (sym h.order)
          (In-append act (sequences l.queue) l.queue (In-sequences l.queue))) in
    ap (λ q. sequences (select (λ d. has_key d.sequence l'.pending) q)) left.queue
    ∙ ap sequences (select_congr _ _ l.queue still)
    ∙ sequences-select n l.queue

pub cancelled_shape :
    (directs n : ℕ) (act : List ℕ) (l l' : Loop)
    → Shape directs act l
    → has_key n l.pending ≡ true
    → others n act ≡ act
    → Left n l l'
    → Shape directs act (purge l')
cancelled_shape directs n act l l' h present kept left = record {
  order =
      shrunk.order
      ∙ ap (λ a. a ++ others n (sequences l.queue)) kept
      ∙ ap (λ q. act ++ q) (sym (purge-others directs n act l l' h left));
  ascending = shrunk.ascending;
  given_out = shrunk.given_out;
  bounded = ground (arith, shorter, ap length left.queue, left.maxsize, h.bounded);
  peak = omega (arith, shorter, ap length left.queue, left.peak, h.peak);
  counted = shrunk.counted;
}
  where
    shrunk : Shrunk directs n act l l'
    shrunk = Left-Shrunk directs n act l l' h present left

    shorter : length (purge l').queue ≤ length l'.queue
    shorter = length-select-le (λ d. has_key d.sequence l'.pending) l'.queue

pub purge-Recorded : (s : System) → Recorded s → Recorded (record s { loop = purge s.loop })
purge-Recorded s r = record {
  waiting = waiting-select s.events (λ d. has_key d.sequence s.loop.pending) s.loop.queue r.waiting;
  pending = r.pending;
  in_hand = r.in_hand;
}
