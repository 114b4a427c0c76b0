-- ===== src/Scope/Queue/Admitting.antt =====
-- An accepted delivery goes into the books.
use mathlib.Core.Path.{subst}
use mathlib.Core.List.{append_assoc}
use agent_cdp.Prelude.{
  ℕ, ◌+◌, ◌≤◌, ◌<◌, ◌≡◌, ◌⊎◌, refl, ap, sym, ◌∙◌, true, false, List, [], ◌∷◌, ◌++◌, All, Dict, keys,
  insert, has_key, length, length-append, arith, All-snoc,
}
use agent_cdp.Events.Event.{Event, Receiver, set_cancel_callback}
use agent_cdp.Scope.Queue.{Loop, System, Delivery, put, is_full, new_admission, admit}
use agent_cdp.Scope.Queue.Lists.{Above, Above-append}
use agent_cdp.Scope.Queue.Records.{set_cancel_callback-Keeps}
use agent_cdp.Scope.Queue.Growth.{
  Grows, put-Grows, HasRecord-Grows, All-Grows, pending-Grows, pending-insert,
}
use agent_cdp.Scope.Queue.Invariant.{HasRecord, Shape, Inv, sequences, active_sequence}

-- A number that has not been given out comes last in the books.
keys-insert_new :
    {V : Type 0} (n : ℕ) (v : V) (d : Dict V)
    → All (λ k. k < n) (keys d)
    → keys (insert n v d) ≡ keys d ++ n ∷ []
keys-insert_new n v [] h = refl
keys-insert_new n v ((j, w) ∷ d) h = ground (arith, keys-insert_new n v d h.1, h.0)

length-insert_new :
    {V : Type 0} (n : ℕ) (v : V) (d : Dict V)
    → All (λ k. k < n) (keys d)
    → length (insert n v d) ≡ length d + 1
length-insert_new n v [] h = omega arith
length-insert_new n v ((j, w) ∷ d) h = ground (arith, length-insert_new n v d h.1, h.0)

pub All-le_lt : (n : ℕ) (ns : List ℕ) → All (λ k. k ≤ n) ns → All (λ k. k < n + 1) ns
All-le_lt n [] h = tt
All-le_lt n (k ∷ ns) h = (omega (arith, h.0), All-le_lt n ns h.1)

pub All-le_suc : (n : ℕ) (ns : List ℕ) → All (λ k. k ≤ n) ns → All (λ k. k ≤ n + 1) ns
All-le_suc n [] h = tt
All-le_suc n (k ∷ ns) h = (omega (arith, h.0), All-le_suc n ns h.1)

pub sequences-snoc :
    (ds : List Delivery) (d : Delivery) → sequences (ds ++ d ∷ []) ≡ sequences ds ++ d.sequence ∷ []
sequences-snoc [] d = refl
sequences-snoc (e ∷ ds) d = rw (sequences-snoc ds d)

-- The next number is given out.
pub numbered-Inv :
    (directs : ℕ) (s : System)
    → Inv directs s
    → Inv directs (record s { loop = record (s.loop) { sequence = s.loop.sequence + 1 } })
numbered-Inv directs s inv = record {
  shape = record {
    order = inv.shape.order;
    ascending = inv.shape.ascending;
    given_out = All-le_suc s.loop.sequence (keys s.loop.pending) inv.shape.given_out;
    bounded = inv.shape.bounded;
    peak = inv.shape.peak;
    counted = inv.shape.counted;
  };
  recorded = record {
    waiting = inv.recorded.waiting;
    pending = inv.recorded.pending;
    in_hand = inv.recorded.in_hand;
  };
}

-- A queue that is not full has room for one more.
room : (l : Loop) → is_full l ≡ false → (l.maxsize ≡ 0) ⊎ (length l.queue + 1 ≤ l.maxsize)
room l h = ground arith

admitted_shape :
    (directs now e : ℕ) (c : Receiver) (s : System)
    → Inv directs s
    → is_full s.loop ≡ false
    → let ready : System = record s { loop = record (s.loop) { sequence = s.loop.sequence + 1 } } in
      Shape directs (active_sequence s.loop.active) (admit now e c ready).loop
unfolding admit
admitted_shape directs now e c s inv free = record {
  order =
      keys-insert_new n d l.pending below
      ∙ ap (λ ns. ns ++ n ∷ []) inv.shape.order
      ∙ append_assoc (active_sequence l.active) (sequences l.queue) (n ∷ [])
      ∙ ap (λ ns. active_sequence l.active ++ ns) (sym (sequences-snoc l.queue d));
  ascending =
      subst (Above 0) (sym (keys-insert_new n d l.pending below))
        (Above-append 0 n (keys l.pending) inv.shape.ascending below (omega arith));
  given_out = subst (All (λ k. k ≤ n)) (sym (keys-insert_new n d l.pending below)) (
      All-snoc (λ k. k ≤ n) (keys l.pending) n
        (All-le_suc l.sequence (keys l.pending) inv.shape.given_out) (omega arith));
  bounded = ground (arith, room l free, length-append l.queue (d ∷ []));
  peak = omega arith;
  counted = omega (arith, inv.shape.counted, length-insert_new n d l.pending below);
}
  where
    l : Loop
    l = s.loop

    n : ℕ
    n = s.loop.sequence + 1

    d : Delivery
    d = new_admission now e c (record l { sequence = n })

    below : All (λ k. k < s.loop.sequence + 1) (keys s.loop.pending)
    below = All-le_lt s.loop.sequence (keys s.loop.pending) inv.shape.given_out

pub admit-Inv :
    (directs now e : ℕ) (c : Receiver) (s : System)
    → Inv directs s
    → is_full s.loop ≡ false
    → has_key c.id (s.events e).event_results ≡ true
    → Inv directs
        (admit now e c (record s { loop = record (s.loop) { sequence = s.loop.sequence + 1 } }))
unfolding admit
admit-Inv directs now e c s inv free known = record {
  shape = unfold admit in admitted_shape directs now e c s inv free;
  recorded = record {
    waiting =
        All-snoc (HasRecord written) s.loop.queue d
          (All-Grows s.events written s.loop.queue grows inv.recorded.waiting)
          (HasRecord-Grows s.events written d grows known);
    pending =
        pending-insert written (s.loop.sequence + 1) d s.loop.pending
          (pending-Grows s.events written s.loop.pending grows inv.recorded.pending) refl
          (HasRecord-Grows s.events written d grows known);
    in_hand = λ x h. HasRecord-Grows s.events written x grows (inv.recorded.in_hand x h);
  };
}
  where
    d : Delivery
    d = new_admission now e c (record (s.loop) { sequence = s.loop.sequence + 1 })

    marked : Event
    marked = set_cancel_callback c.id (s.loop.scope_id, s.loop.sequence + 1) (s.events e)

    written : ℕ → Event
    written = put e marked s.events

    grows : Grows s.events written
    grows =
        put-Grows e marked s.events
          (set_cancel_callback-Keeps c.id (s.loop.scope_id, s.loop.sequence + 1) (s.events e))
