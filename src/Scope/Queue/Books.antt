-- ===== src/Scope/Queue/Books.antt =====
-- Steps that write nothing of the books.
use mathlib.Core.Path.{subst}
use agent_cdp.Prelude.{ℕ, ◌+◌, ◌≡◌, ap, sym, ◌∙◌, ◌++◌, All, keys, length, arith}
use agent_cdp.Scope.Queue.{Loop, System}
use agent_cdp.Scope.Queue.Lists.{Above}
use agent_cdp.Scope.Queue.Growth.{Grows, HasRecord-Grows, All-Grows, pending-Grows}
use agent_cdp.Scope.Queue.Invariant.{AllPending, Inv, sequences, active_sequence, HasRecord}

-- The fields of the loop that the books speak of are as they were.
pub record SameBooks (l l' : Loop) : Type 0 where
  pub queue : l'.queue ≡ l.queue
  pub pending : l'.pending ≡ l.pending
  pub active : l'.active ≡ l.active
  pub maxsize : l'.maxsize ≡ l.maxsize
  pub sequence : l'.sequence ≡ l.sequence
  pub peak : l'.queue_peak ≡ l.queue_peak
  pub accepted : l'.accepted ≡ l.accepted
  pub settled : l'.completed + l'.failed + l'.cancelled ≡ l.completed + l.failed + l.cancelled

pub SameBooks-Inv :
    (directs : ℕ) (s t : System)
    → Inv directs s
    → SameBooks s.loop t.loop
    → Grows s.events t.events
    → Inv directs t
SameBooks-Inv directs s t inv same grows = record {
  shape = record {
    order =
        ap keys same.pending
        ∙ inv.shape.order
        ∙ ap (λ a. active_sequence a ++ sequences s.loop.queue) (sym same.active)
        ∙ ap (λ q. active_sequence t.loop.active ++ sequences q) (sym same.queue);
    ascending = subst (λ p. Above 0 (keys p)) (sym same.pending) inv.shape.ascending;
    given_out = rw (same.pending, same.sequence) inv.shape.given_out;
    bounded = ground (arith, ap length same.queue, same.maxsize, inv.shape.bounded);
    peak = omega (arith, ap length same.queue, same.peak, inv.shape.peak);
    counted = omega (arith, ap length same.pending, same.accepted, same.settled, inv.shape.counted);
  };
  recorded = record {
    waiting =
        subst (All (HasRecord t.events)) (sym same.queue)
          (All-Grows s.events t.events s.loop.queue grows inv.recorded.waiting);
    pending =
        subst (AllPending t.events) (sym same.pending)
          (pending-Grows s.events t.events s.loop.pending grows inv.recorded.pending);
    in_hand = λ x h.
        HasRecord-Grows s.events t.events x grows (inv.recorded.in_hand x (sym same.active ∙ h));
  };
}
