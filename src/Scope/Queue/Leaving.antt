-- ===== src/Scope/Queue/Leaving.antt =====
-- How a delivery leaves the queue's books, and what that does to their shape.
use agent_cdp.Prelude.{
  ℕ, ◌+◌, ◌≤◌, ◌≡◌, ap, ◌∙◌, true, List, [], ◌∷◌, ◌++◌, All, Dict, keys, erase, has_key, length,
  arith,
}
use agent_cdp.Events.Delivery.{EventResult}
use agent_cdp.Scope.Queue.{Loop, System, Delivery, leave, count_result}
use agent_cdp.Scope.Queue.Lists.{Above, others, keys-erase, others-Above, others-append}
use agent_cdp.Scope.Queue.Invariant.{Shape, sequences}

-- What `leave` writes into the loop.
pub record Left (n : ℕ) (l l' : Loop) : Type 0 where
  pub pending : l'.pending ≡ erase n l.pending
  pub queue : l'.queue ≡ l.queue
  pub active : l'.active ≡ l.active
  pub maxsize : l'.maxsize ≡ l.maxsize
  pub sequence : l'.sequence ≡ l.sequence
  pub peak : l'.queue_peak ≡ l.queue_peak
  pub accepted : l'.accepted ≡ l.accepted
  pub settled : l'.completed + l'.failed + l'.cancelled ≡ l.completed + l.failed + l.cancelled + 1

pub leave-Left :
    (now : ℕ) (d : Delivery) (r : EventResult) (s : System)
    → Left d.sequence s.loop (leave now d r s).loop
unfolding count_result
leave-Left now d r s = ground arith

length-erase {ℓ} :
    {V : Type ℓ} (k : ℕ) (d : Dict V) → has_key k d ≡ true → length (erase k d) + 1 ≡ length d
length-erase k [] h = cc
length-erase k ((j, v) ∷ d) h = ground (arith, length-erase k d)

others-le : (k m : ℕ) (xs : List ℕ) → All (λ n. n ≤ m) xs → All (λ n. n ≤ m) (others k xs)
others-le k m [] h = tt
others-le k m (x ∷ xs) h = ground (arith, others-le k m xs h.1)

-- The part of the shape that speaks of `pending`, after the delivery `n` has left.
pub record Shrunk (directs n : ℕ) (act : List ℕ) (l l' : Loop) : Type 0 where
  pub order : keys l'.pending ≡ others n act ++ others n (sequences l.queue)
  pub ascending : Above 0 (keys l'.pending)
  pub given_out : All (λ k. k ≤ l'.sequence) (keys l'.pending)
  pub counted : l'.accepted ≡ l'.completed + l'.failed + l'.cancelled + length l'.pending + directs

pub Left-Shrunk :
    (directs n : ℕ) (act : List ℕ) (l l' : Loop)
    → Shape directs act l
    → has_key n l.pending ≡ true
    → Left n l l'
    → Shrunk directs n act l l'
Left-Shrunk directs n act l l' h k left = record {
  order =
      ap keys left.pending
      ∙ erased
      ∙ ap (others n) h.order
      ∙ others-append n act (sequences l.queue);
  ascending = rw (left.pending, erased) (others-Above n 0 (keys l.pending) h.ascending);
  given_out =
      rw (left.pending, erased, left.sequence)
        (others-le n l.sequence (keys l.pending) h.given_out);
  counted =
      rw left.pending
        (omega (arith, length-erase n l.pending k, left.accepted, left.settled, h.counted));
}
  where
    erased : keys (erase n l.pending) ≡ others n (keys l.pending)
    erased = keys-erase n 0 l.pending h.ascending
