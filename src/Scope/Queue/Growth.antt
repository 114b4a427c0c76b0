-- ===== src/Scope/Queue/Growth.antt =====
-- The records that deliveries rest on, when an event of the store is written.
use agent_cdp.Prelude.{
  refl, keys, map, arith, ℕ, ◌≡◌, ap, sym, ◌∙◌, inl, inr, Bool, some, List, [], ◌∷◌, All, some_eq,
  Dict, insert, erase, values, select, lookup, has_key, ◌==◌, ==_iff, Bool-cases,
}
use mathlib.Core.Path.{subst}
use agent_cdp.Events.Event.{Event}
use agent_cdp.Scope.Queue.{Delivery, put}
use agent_cdp.Scope.Queue.Records.{Keeps}
use agent_cdp.Scope.Queue.Invariant.{AllPending, HasRecord}

abbrev pub Grows : (ℕ → Event) → (ℕ → Event) → Type 0
Grows old new = (e : ℕ) → Keeps (old e) (new e)

pub put-Grows :
    (e : ℕ) (ev : Event) (events : ℕ → Event) → Keeps (events e) ev → Grows events (put e ev events)
put-Grows e ev events h k j known = elim (Bool-cases (k == e)) [
  | inl same ↦
      rw same
        (h j (rw (ap (λ i. has_key j (events i).event_results) ((==_iff k e).0 same)) at known))
  | inr other ↦ rw other known
]

pub Grows-trans : (a b c : ℕ → Event) → Grows a b → Grows b c → Grows a c
Grows-trans a b c h k e j known = k e j (h e j known)

pub HasRecord-Grows :
    (old new : ℕ → Event) (d : Delivery) → Grows old new → HasRecord old d → HasRecord new d
HasRecord-Grows old new d g h = g d.event d.connection.id h

pub All-Grows :
    (old new : ℕ → Event) (ds : List Delivery)
    → Grows old new
    → All (HasRecord old) ds
    → All (HasRecord new) ds
All-Grows old new [] g h = tt
All-Grows old new (d ∷ ds) g h = (HasRecord-Grows old new d g h.0, All-Grows old new ds g h.1)

pub pending-Grows :
    (old new : ℕ → Event) (d : Dict Delivery) → Grows old new → AllPending old d → AllPending new d
pending-Grows old new [] g h = tt
pending-Grows old new (e ∷ d) g h =
    ((h.0.0, HasRecord-Grows old new e.1 g h.0.1), pending-Grows old new d g h.1)

pub pending-erase :
    (events : ℕ → Event) (k : ℕ) (d : Dict Delivery)
    → AllPending events d
    → AllPending events (erase k d)
pending-erase events k [] h = tt
pending-erase events k ((j, x) ∷ d) h = elim (Bool-cases (k == j)) [
  | inl e ↦ rw e h.1
  | inr e ↦ rw e (h.0, pending-erase events k d h.1)
]

pub pending-insert :
    (events : ℕ → Event) (k : ℕ) (x : Delivery) (d : Dict Delivery)
    → AllPending events d
    → k ≡ x.sequence
    → HasRecord events x
    → AllPending events (insert k x d)
pending-insert events k x [] h n r = ((n, r), tt)
pending-insert events k x ((j, y) ∷ d) h n r = elim (Bool-cases (k == j)) [
  | inl e ↦ rw e ((sym ((==_iff k j).0 e) ∙ n, r), h.1)
  | inr e ↦ rw e (h.0, pending-insert events k x d h.1 n r)
]

pub pending-values :
    (events : ℕ → Event) (d : Dict Delivery)
    → AllPending events d
    → All (HasRecord events) (values d)
pending-values events [] h = tt
pending-values events ((j, x) ∷ d) h = (h.0.1, pending-values events d h.1)

pub waiting-select :
    (events : ℕ → Event) (p : Delivery → Bool) (ds : List Delivery)
    → All (HasRecord events) ds
    → All (HasRecord events) (select p ds)
waiting-select events p [] h = tt
waiting-select events p (d ∷ ds) h = elim (Bool-cases (p d)) [
  | inl e ↦ rw e (h.0, waiting-select events p ds h.1)
  | inr e ↦ rw e (waiting-select events p ds h.1)
]

pub HasRecord-eq :
    (events : ℕ → Event) (x y : Delivery) → x ≡ y → HasRecord events x → HasRecord events y
HasRecord-eq events x y e h = subst (λ z. HasRecord events z) e h

pub pending-lookup :
    (events : ℕ → Event) (k : ℕ) (x : Delivery) (d : Dict Delivery)
    → AllPending events d
    → lookup k d ≡ some x
    → HasRecord events x
pending-lookup events k x [] h e = cc
pending-lookup events k x ((j, y) ∷ d) h e = elim (Bool-cases (k == j)) [
  | inl same ↦ HasRecord-eq events y x (some_eq (rw same at e)) h.0.1
  | inr other ↦ pending-lookup events k x d h.1 (rw other at e)
]

pub pending-numbered :
    (events : ℕ → Event) (d : Dict Delivery)
    → AllPending events d
    → map (λ x. x.sequence) (values d) ≡ keys d
pending-numbered events [] h = refl
pending-numbered events ((k, x) ∷ d) h = ground (arith, h.0.0, pending-numbered events d h.1)
