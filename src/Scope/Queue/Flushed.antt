-- ===== src/Scope/Queue/Flushed.antt =====
-- What a flush reports, and what it leaves for the next one.
use mathlib.Core.Path.{subst}
use agent_cdp.Prelude.{
  ℕ, ◌≡◌, ◌⊎◌, inl, inr, refl, ap, sym, ◌∙◌, Bool, true, false, ◌||◌, Option, none, some, List, [],
  ◌∷◌, All, Any, Dict, lookup, keys, has_key, any, contains, Bool-cases, Option-cases,
  lookup-insert, if◌then◌else◌, ◌==◌, ==_iff, ==_refl, leb, is_some, arith,
}
use agent_cdp.Events.Values.{event_timeout_error, Phase, return, raise}
use agent_cdp.Events.Delivery.{EventResult}
use agent_cdp.Events.Event.{Event}
use agent_cdp.Events.Success.{place, sorted}
use agent_cdp.Scope.Queue.{
  DeliverySummary, summary, Delivery, System, FlushResult, Checkpoint, with_fact, facts_of,
  in_order, pruned, finish_flush,
}
use agent_cdp.Scope.Queue.Lists.{has_key-contains}
use agent_cdp.Scope.Queue.Invariant.{HasRecord}

lookup-pruned :
    (sequence n : ℕ) (d : Dict DeliverySummary)
    → lookup n (pruned sequence d) ≡ (if leb n sequence then none else lookup n d)
unfolding pruned
lookup-pruned sequence n [] = ground arith
lookup-pruned sequence n ((k, f) ∷ d) = ground (arith, lookup-pruned sequence n d)

-- The fact of the number `n` is among those that are listed.
abbrev pub Reported : Dict DeliverySummary → ℕ → List DeliverySummary → Type 0
Reported facts n fs = Any (λ f. lookup n facts ≡ some f) fs

in_order-Reported :
    (n : ℕ) (ns : List ℕ) (facts : Dict DeliverySummary)
    → has_key n facts ≡ true
    → contains n ns ≡ true
    → Reported facts n (in_order ns facts)
unfolding in_order
in_order-Reported n [] facts known here = cc
in_order-Reported n (k ∷ ns) facts known here = elim (Option-cases (lookup k facts)) [
  | inl e ↦ elim (Bool-cases (n == k)) [
    | inl same ↦ cc (known, e, ap (λ j. has_key j facts) ((==_iff n k).0 same))
    | inr other ↦ rw (e, in_order) (in_order-Reported n ns facts known (rw other at here))
  ]
  | inr (f, e) ↦ elim (Bool-cases (n == k)) [
    | inl same ↦ rw (e, in_order) (inl (ap (λ j. lookup j facts) ((==_iff n k).0 same) ∙ e))
    | inr other ↦ rw (e, in_order) (inr (in_order-Reported n ns facts known (rw other at here)))
  ]
]

contains-place : (n k : ℕ) (ns : List ℕ) → contains n (place k ns) ≡ (n == k || contains n ns)
contains-place n k [] = refl
contains-place n k (x ∷ xs) = ground (arith, contains-place n k xs)

contains-sorted : (n : ℕ) (ns : List ℕ) → contains n (sorted ns) ≡ contains n ns
contains-sorted n [] = refl
contains-sorted n (k ∷ ns) =
    contains-place n k (sorted ns) ∙ ap (λ b. n == k || b) (contains-sorted n ns)

with_fact-keeps :
    (now k n : ℕ) (o : Option EventResult) (facts : Dict DeliverySummary)
    → has_key n facts ≡ true
    → has_key n (with_fact now k o facts) ≡ true
with_fact-keeps now k n none facts h = h
with_fact-keeps now k n (some r) facts h = ground (arith, lookup-insert k n (summary now r) facts)

facts_of-keeps :
    (now n : ℕ) (events : ℕ → Event) (ds : List Delivery) (facts : Dict DeliverySummary)
    → has_key n facts ≡ true
    → has_key n (facts_of now events ds facts) ≡ true
unfolding facts_of
facts_of-keeps now n events [] facts h = h
facts_of-keeps now n events (d ∷ ds) facts h = facts_of-keeps now n events ds _ (
    with_fact-keeps now d.sequence n (lookup d.connection.id (events d.event).event_results) facts
      h)

with_fact-has_key :
    (now n : ℕ) (o : Option EventResult) (facts : Dict DeliverySummary)
    → is_some o ≡ true
    → has_key n (with_fact now n o facts) ≡ true
with_fact-has_key now n none facts h = cc
with_fact-has_key now n (some r) facts h =
    ground (arith, lookup-insert n n (summary now r) facts, ==_refl n)

facts_of-has_key :
    (now : ℕ) (events : ℕ → Event) (ds : List Delivery) (facts : Dict DeliverySummary)
    → All (HasRecord events) ds
    → All (λ d. has_key d.sequence (facts_of now events ds facts) ≡ true) ds
unfolding facts_of
facts_of-has_key now events [] facts h = tt
facts_of-has_key now events (d ∷ ds) facts h =
    let o = lookup d.connection.id (events d.event).event_results in
    (
      facts_of-keeps now d.sequence events ds _ (with_fact-has_key now d.sequence o facts h.0),
      facts_of-has_key now events ds _ h.1,
    )

-- A flush that is answered.
pub record Answered (c : Checkpoint) (events : ℕ → Event) (facts : Dict DeliverySummary)
    (s t : System) (r : FlushResult) : Type 0 where
  pub done : All (λ d. has_key d.sequence s.loop.pending ≡ false) c.prefix
  pub reported :
      (n : ℕ)
      → (has_key n c.settled ≡ true) ⊎ Any (λ d. d.sequence ≡ n) c.prefix
      → Reported facts n r.deliveries
  pub left :
      (n : ℕ)
      → lookup n t.loop.settled_since_flush
        ≡ (if leb n c.sequence then none else lookup n s.loop.settled_since_flush)

none_pending :
    (p : Delivery → Bool) (ds : List Delivery) → any p ds ≡ false → All (λ d. p d ≡ false) ds
none_pending p [] h = tt
none_pending p (d ∷ ds) h = (ground arith, none_pending p ds (ground arith))

All-Any :
    (P : Delivery → Type 0) (n : ℕ) {Q : Type 0} (ds : List Delivery)
    → All P ds
    → Any (λ d. d.sequence ≡ n) ds
    → ((d : Delivery) → P d → d.sequence ≡ n → Q)
    → Q
All-Any P n [] h a k = absurd a
All-Any P n (d ∷ ds) h a k = elim a [ inl e ↦ k d h.0 e | inr rest ↦ All-Any P n ds h.1 rest k ]

all-Reported :
    (now n : ℕ) (c : Checkpoint) (events : ℕ → Event)
    → All (HasRecord events) c.prefix
    → (has_key n c.settled ≡ true) ⊎ Any (λ d. d.sequence ≡ n) c.prefix
    → let facts = facts_of now events c.prefix c.settled in
      Reported facts n (in_order (sorted (keys facts)) facts)
all-Reported now n c events recorded which =
    let facts = facts_of now events c.prefix c.settled in
    let known : has_key n facts ≡ true = elim which [
      | inl old ↦ facts_of-keeps now n events c.prefix c.settled old
      | inr new ↦
          All-Any (λ d. has_key d.sequence facts ≡ true) n c.prefix
            (facts_of-has_key now events c.prefix c.settled recorded) new
            (λ d h e. subst (λ k. has_key k facts ≡ true) e h)
    ] in
    in_order-Reported n (sorted (keys facts)) facts known
      (contains-sorted n (keys facts) ∙ sym (has_key-contains n facts) ∙ known)

-- The two ways in which a flush ends its wait.
pub FlushVerdict : ℕ → Checkpoint → System → Type 0
FlushVerdict now c s =
    ((any (λ d. has_key d.sequence s.loop.pending) c.prefix ≡ true)
      × (finish_flush now c s ≡ (s, raise (event_timeout_error Phase.flush))))
    ⊎ ((t : System) × (r : FlushResult) × (finish_flush now c s ≡ (t, return r))
        × Answered c s.events (facts_of now s.events c.prefix c.settled) s t r)

-- A flush whose wait is over, and whose prefix has its records, is answered exactly when no delivery
-- of the prefix is pending any more; else it times out and changes nothing. An answer reports a fact
-- for every delivery of the prefix and for every one that was settled at the checkpoint, and leaves
-- for later flushes exactly the facts that are numbered after the checkpoint.
pub finish_flush-FlushVerdict :
    (now : ℕ) (c : Checkpoint) (s : System)
    → All (HasRecord s.events) c.prefix
    → FlushVerdict now c s
unfolding finish_flush FlushVerdict
finish_flush-FlushVerdict now c s recorded =
    elim (Bool-cases (any (λ d. has_key d.sequence s.loop.pending) c.prefix)) [
      | inl late ↦ rw late (inl (refl, refl))
      | inr done ↦ rw done (
          inr (
            _,
            _,
            refl,
            record {
              done = none_pending (λ d. has_key d.sequence s.loop.pending) c.prefix done;
              reported = λ n which. all-Reported now n c s.events recorded which;
              left = λ n. lookup-pruned c.sequence n s.loop.settled_since_flush;
            },
          ))
    ]
