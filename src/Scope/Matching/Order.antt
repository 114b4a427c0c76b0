-- ===== src/Scope/Matching/Order.antt =====
-- The order in which connections are dispatched.
use agent_cdp.Prelude.{
  ◌≡◌, refl, Bool, true, false, List, [], ◌∷◌, All, select, ltb_ℤ, ℤ, pos, negsuc, arith, ◌==◌,
}
use agent_cdp.Connection.{Connection}
use agent_cdp.Scope.Matching.Sorting.{place, by_priority}

-- No later connection has a higher priority than an earlier one.
abbrev pub Descending : List Connection → Type 0
Descending [] = Unit
Descending (c ∷ cs) = All (λ d. ltb_ℤ c.priority d.priority ≡ false) cs × Descending cs

abbrev pub eq_ℤ : ℤ → ℤ → Bool
eq_ℤ (pos m) (pos n) = m == n
eq_ℤ (negsuc m) (negsuc n) = m == n
eq_ℤ _ _ = false

-- The connections of one priority, in their order.
abbrev pub of_priority : ℤ → List Connection → List Connection
of_priority p cs = select (λ c. eq_ℤ p c.priority) cs

lt_antisymm : (a b : ℤ) → ltb_ℤ a b ≡ true → ltb_ℤ b a ≡ false
lt_antisymm a b h = ground arith

not_lt_trans : (a b c : ℤ) → ltb_ℤ a b ≡ false → ltb_ℤ b c ≡ false → ltb_ℤ a c ≡ false
not_lt_trans a b c h k = ground arith

All-not_lt :
    (a b : ℤ) (cs : List Connection)
    → ltb_ℤ a b ≡ false
    → All (λ d. ltb_ℤ b d.priority ≡ false) cs
    → All (λ d. ltb_ℤ a d.priority ≡ false) cs
All-not_lt a b [] h k = tt
All-not_lt a b (c ∷ cs) h k = (not_lt_trans a b c.priority h k.0, All-not_lt a b cs h k.1)

All-place :
    (p : ℤ) (c : Connection) (cs : List Connection)
    → ltb_ℤ p c.priority ≡ false
    → All (λ d. ltb_ℤ p d.priority ≡ false) cs
    → All (λ d. ltb_ℤ p d.priority ≡ false) (place c cs)
All-place p c [] h k = (h, tt)
All-place p c (d ∷ ds) h k = ground (arith, All-place p c ds h k.1)

place-Descending : (c : Connection) (cs : List Connection) → Descending cs → Descending (place c cs)
place-Descending c [] h = (tt, tt)
place-Descending c (d ∷ ds) h = ground (
  arith,
  place-Descending c ds h.1,
  All-place d.priority c ds,
  lt_antisymm c.priority d.priority,
  All-not_lt c.priority d.priority ds,
)

place-of_priority :
    (p : ℤ) (c : Connection) (cs : List Connection)
    → of_priority p (place c cs) ≡ of_priority p (c ∷ cs)
place-of_priority p c [] = refl
place-of_priority p c (d ∷ ds) = ground (arith, place-of_priority p c ds)

pub by_priority-Descending : (cs : List Connection) → Descending (by_priority cs)
unfolding by_priority
by_priority-Descending [] = tt
by_priority-Descending (c ∷ cs) = place-Descending c (by_priority cs) (by_priority-Descending cs)

pub by_priority-stable :
    (p : ℤ) (cs : List Connection) → of_priority p (by_priority cs) ≡ of_priority p cs
unfolding by_priority
by_priority-stable p [] = refl
by_priority-stable p (c ∷ cs) = rw (place-of_priority p c (by_priority cs), by_priority-stable p cs)
