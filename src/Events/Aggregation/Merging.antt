-- ===== src/Events/Aggregation/Merging.antt =====
-- Merging the dicts of several handlers: who wins, and when it is a conflict.
use agent_cdp.Prelude.{
  ℕ, ◌≡◌, ◌↔◌, ◌⊎◌, inl, inr, refl, ◌∙◌, Bool, true, false, Option, none, List, [], ◌∷◌, or_else,
  Bool-cases, lookup, lookup-insert, Dict, insert, All, arith,
}
use agent_cdp.Events.Values.{return}
use agent_cdp.Events.Event.{Event}
use agent_cdp.Events.Aggregation.{
  update, conflicts, merge, dicts, Done, aggregation_results, maybe_raise_errors,
  event_results_flat_dict,
}

-- A Python dict holds each key once.
abbrev pub UniqueKeys {ℓ} : {V : Type ℓ} → Dict V → Type ℓ
UniqueKeys [] = Unit
UniqueKeys ((k, v) ∷ d) = (lookup k d ≡ none) × UniqueKeys d

pub lookup-update :
    (k : ℕ) (m d : Dict ℕ)
    → UniqueKeys d
    → lookup k (update m d) ≡ or_else (lookup k d) (lookup k m)
lookup-update k m [] u = refl
lookup-update k m ((j, v) ∷ d) u =
    ground (arith, lookup-update k (insert j v m) d u.1, lookup-insert j k v m)

-- No key is in both.
abbrev pub Disjoint : Dict ℕ → Dict ℕ → Type 0
Disjoint m d = (k : ℕ) → (lookup k m ≡ none) ⊎ (lookup k d ≡ none)

abbrev pub PairwiseDisjoint : List (Dict ℕ) → Type 0
PairwiseDisjoint [] = Unit
PairwiseDisjoint (d ∷ ds) = All (Disjoint d) ds × PairwiseDisjoint ds

conflicts-Disjoint : (m d : Dict ℕ) → conflicts m d ≡ false → Disjoint m d
conflicts-Disjoint m [] h k = inr refl
conflicts-Disjoint m ((j, v) ∷ d) h k =
    let rest = conflicts-Disjoint m d (ground arith) k in ground (arith, rest)

Disjoint-tail : (m d : Dict ℕ) (j v : ℕ) → Disjoint m ((j, v) ∷ d) → Disjoint m d
Disjoint-tail m d j v h k = ground (arith, h k)

Disjoint-conflicts : (m d : Dict ℕ) → Disjoint m d → conflicts m d ≡ false
Disjoint-conflicts m [] h = refl
Disjoint-conflicts m ((j, v) ∷ d) h =
    ground (arith, Disjoint-conflicts m d (Disjoint-tail m d j v h), h j)

update-Disjoint :
    (m d e : Dict ℕ) → UniqueKeys d → Disjoint m e → Disjoint d e → Disjoint (update m d) e
update-Disjoint m d e u hm hd k = ground (arith, lookup-update k m d u, hm k, hd k)

Disjoint-update :
    (m d e : Dict ℕ) → UniqueKeys d → Disjoint (update m d) e → Disjoint m e × Disjoint d e
Disjoint-update m d e u h = (
  λ k. ground (arith, lookup-update k m d u, h k),
  λ k. ground (arith, lookup-update k m d u, h k),
)

-- The value that the last dict with the key gives it.
abbrev pub last_value : ℕ → List (Dict ℕ) → Option ℕ
last_value k [] = none
last_value k (d ∷ ds) = or_else (last_value k ds) (lookup k d)

-- Without the conflict check a merge always returns, and the last dict that has a key wins.
merge_last :
    (m : Dict ℕ) (ds : List (Dict ℕ))
    → All UniqueKeys ds
    → (n : Dict ℕ) × (merge false m ds ≡ return n)
      × ((k : ℕ) → lookup k n ≡ or_else (last_value k ds) (lookup k m))
unfolding merge
merge_last m [] u = (m, refl, λ k. refl)
merge_last m (d ∷ ds) u =
    let (n, e, h) = merge_last (update m d) ds u.1 in
    (n, e, λ k. ground (arith, h k, lookup-update k m d u.0))

Compatible : Dict ℕ → List (Dict ℕ) → Type 0
Compatible m ds = All (Disjoint m) ds × PairwiseDisjoint ds

All-update :
    (m d : Dict ℕ) (ds : List (Dict ℕ))
    → UniqueKeys d
    → All (Disjoint m) ds
    → All (Disjoint d) ds
    → All (Disjoint (update m d)) ds
All-update m d [] u hm hd = tt
All-update m d (e ∷ ds) u hm hd = (update-Disjoint m d e u hm.0 hd.0, All-update m d ds u hm.1 hd.1)

update-All :
    (m d : Dict ℕ) (ds : List (Dict ℕ))
    → UniqueKeys d
    → All (Disjoint (update m d)) ds
    → All (Disjoint m) ds × All (Disjoint d) ds
update-All m d [] u h = (tt, tt)
update-All m d (e ∷ ds) u h =
    let (hm, hd) = Disjoint-update m d e u h.0 in
    let (rm, rd) = update-All m d ds u h.1 in ((hm, rm), (hd, rd))

merge_strict :
    (m : Dict ℕ) (ds : List (Dict ℕ))
    → All (Disjoint m) ds
    → PairwiseDisjoint ds
    → All UniqueKeys ds
    → merge true m ds ≡ merge false m ds
unfolding merge
merge_strict m [] h p u = refl
merge_strict m (d ∷ ds) h p u =
    rw (Disjoint-conflicts m d h.0)
      (merge_strict (update m d) ds (All-update m d ds u.0 h.1 p.0) p.1 u.1)

merge_strict_needs :
    (m n : Dict ℕ) (ds : List (Dict ℕ))
    → All UniqueKeys ds
    → merge true m ds ≡ return n
    → All (Disjoint m) ds × PairwiseDisjoint ds
unfolding merge
merge_strict_needs m n [] u h = (tt, tt)
merge_strict_needs m n (d ∷ ds) u h = elim (Bool-cases (conflicts m d)) [
  | inl c ↦ ground arith
  | inr c ↦
      let (below, apart) = merge_strict_needs (update m d) n ds u.1 (rw c at h) in
      let (hm, hd) = update-All m d ds u.0 below in ((conflicts-Disjoint m d c, hm), (hd, apart))
]

empty-Disjoint : (ds : List (Dict ℕ)) → All (Disjoint []) ds
empty-Disjoint [] = tt
empty-Disjoint (d ∷ ds) = (λ k. inl refl, empty-Disjoint ds)

-- Merging the dicts of the handlers, each of which holds a key once: with the conflict check it
-- returns exactly when no two dicts share a key. Without the check it always returns. Whenever it
-- returns, every key has the value of the last dict that holds it.
pub merge_lem :
    (ds : List (Dict ℕ))
    → All UniqueKeys ds
    → (n : Dict ℕ) × (merge false [] ds ≡ return n)
      × ((k : ℕ) → lookup k n ≡ last_value k ds)
      × ((merge true [] ds ≡ return n) ↔ PairwiseDisjoint ds)
      × ((n' : Dict ℕ) → merge true [] ds ≡ return n' → n' ≡ n)
merge_lem ds u =
    let (n, e, h) = merge_last [] ds u in
    let strict = λ (p : PairwiseDisjoint ds). merge_strict [] ds (empty-Disjoint ds) p u in
    (
      n,
      e,
      (λ k. or_else_none k (h k)),
      ((λ s. (merge_strict_needs [] n ds u s).1), (λ p. strict p ∙ e)),
      λ n' s. ground (arith, strict (merge_strict_needs [] n' ds u s).1, e),
    )
  where
    or_else_none : (k : ℕ) {v : Option ℕ} → v ≡ or_else (last_value k ds) none → v ≡ last_value k ds
    or_else_none k h = ground arith

-- What `event_results_flat_dict` returns once the wait and the error check are past, for handlers
-- whose dicts hold a key once, as Python's do: without the conflict check always a dict in which
-- every key has the value of the last handler that gave it one; with the check that same dict, and
-- exactly where no two handlers gave the same key.
pub flat_dict_merges :
    (waited : Done) (ev : Event) (raise_if_any : Bool)
    → waited ≡ return tt
    → maybe_raise_errors ev raise_if_any ≡ return tt
    → All UniqueKeys (dicts (aggregation_results ev))
    → (n : Dict ℕ) × (event_results_flat_dict waited ev raise_if_any false ≡ return n)
      × ((k : ℕ) → lookup k n ≡ last_value k (dicts (aggregation_results ev)))
      × ((event_results_flat_dict waited ev raise_if_any true ≡ return n)
          ↔ PairwiseDisjoint (dicts (aggregation_results ev)))
unfolding event_results_flat_dict
flat_dict_merges waited ev raise_if_any w m u =
    let (n, e, h, strict, same) = merge_lem (dicts (aggregation_results ev)) u in
    rw (w, m) (n, e, h, strict)
