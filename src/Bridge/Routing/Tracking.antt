-- ===== src/Bridge/Routing/Tracking.antt =====
-- What a bridge, its client and its scope hold of one another (`Routing`).
use agent_cdp.Prelude.{
  contains-added, ℕ, ◌+◌, ◌<◌, ◌≡◌, refl, ap, Bool, true, false, not, ◌&&◌, ◌||◌, Option, none,
  some, List, [], ◌∷◌, ◌++◌, map, is_empty, any, All, contains, if◌then◌else◌, ◌==◌, Dict, lookup,
  has_key, lookup-insert, arith,
}
use agent_cdp.Events.Values.{Exc, Outcome}
use agent_cdp.Bridge.Routing.{
  Registration, Bridge, Factory, set_default, bridge, hit, callback, close,
}

-- The client calls a callback of a registration, or, once the bridge is closed, any callback that
-- the bridge ever had.
abbrev pub is_known : ℕ → ℕ → Bridge → Bool
is_known method k b = any (λ r. r.method == method && r.callback == k) b.registrations || b.closed

-- What may happen to a bridge, and to the state of the program meanwhile.
pub data Step (W : Type 0) : Type 0 where
  bridges : (method : ℕ) → Outcome (Unit {0}) → Step W
  is_called : (method k : ℕ) → Factory W → (params : ℕ) → (route : Option ℕ) → Step W
  closes : (ℕ → Outcome (Unit {0})) → Step W
  goes_on : W → Step W

module _ {W : Type 0} (scope_closed : W → Bool) (emit : ℕ → W → W × Option Exc) where
  unfoldable pub step : Bridge × W → Step W → Bridge × W
  unfolding bridge callback close
  step (b, w) (Step.bridges method on_event) = ((bridge method on_event b).0, w)
  step (b, w) (Step.is_called method k factory params route) =
      let called = callback scope_closed emit method k factory params route (b, w) in
      if is_known method k b then (called.0, called.1) else (b, w)
  step (b, w) (Step.closes off_event) = ((close off_event b).0, w)
  step (b, w) (Step.goes_on w') = (b, w')

  unfoldable pub steps : Bridge × W → List (Step W) → Bridge × W
  unfolding step
  steps s [] = s
  steps s (a ∷ as') = steps (step s a) as'

-- The numbers of the callbacks that are registered, and the hits of a method.
abbrev pub callbacks : List Registration → List ℕ
callbacks rs = map (λ r. r.callback) rs

abbrev pub hits_of : ℕ → List Registration → ℕ
hits_of method [] = 0
hits_of method (r ∷ rs) = (if r.method == method then r.hits else 0) + hits_of method rs

abbrev pub count : Option ℕ → ℕ
count none = 0
count (some n) = n

abbrev pub Distinct : List ℕ → Type 0
Distinct [] = Unit
Distinct (k ∷ ks) = (contains k ks ≡ false) × Distinct ks

-- A bridge that is open: its callbacks differ, each method of a registration has a count, and each
-- count is the sum of the hits of the method's registrations.
pub record IsCounted (b : Bridge) : Type 0 where
  pub numbered : All (λ k. k < b.next_callback) (callbacks b.registrations)
  pub distinct : Distinct (callbacks b.registrations)
  pub counted : All (λ r. has_key r.method b.hit_counts ≡ true) b.registrations
  pub summed : (method : ℕ) → count (lookup method b.hit_counts) ≡ hits_of method b.registrations

-- What holds between a bridge, its client and its scope. A callback that the client may call is
-- registered, so that a later `close` finds it. The scope knows the bridge until it is closed and
-- nothing is left to remove.
pub record IsTracked (b : Bridge) : Type 0 where
  pub listening :
      (k : ℕ) → contains k b.listening ≡ true → contains k (callbacks b.registrations) ≡ true
  pub in_scope : b.in_scope ≡ not (b.closed && is_empty b.registrations)
  pub open_counts : b.closed ≡ false → IsCounted b

-- A registration is added at the end.
pub callbacks-added :
    (rs : List Registration) (r : Registration)
    → callbacks (rs ++ r ∷ []) ≡ callbacks rs ++ r.callback ∷ []
callbacks-added [] r = refl
callbacks-added (x ∷ rs) r = ap (λ ks. x.callback ∷ ks) (callbacks-added rs r)

pub numbered-added :
    (n : ℕ) (ks : List ℕ) → All (λ k. k < n) ks → All (λ k. k < n + 1) (ks ++ n ∷ [])
numbered-added n [] h = (omega arith, tt)
numbered-added n (k ∷ ks) (h, hs) = (omega arith, numbered-added n ks hs)

pub Distinct-added :
    (n : ℕ) (ks : List ℕ) → All (λ k. k < n) ks → Distinct ks → Distinct (ks ++ n ∷ [])
Distinct-added n [] h d = (refl, tt)
Distinct-added n (k ∷ ks) (h, hs) (d, ds) =
    (ground (arith, contains-added k n ks), Distinct-added n ks hs ds)

pub hits_of-added :
    (method : ℕ) (rs : List Registration) (r : Registration)
    → r.hits ≡ 0
    → hits_of method (rs ++ r ∷ []) ≡ hits_of method rs
hits_of-added method [] r e = ground arith
hits_of-added method (x ∷ rs) r e = omega (arith, hits_of-added method rs r e)

-- A key gets its count.
pub counted-added :
    (method : ℕ) (d : Dict ℕ) (rs : List Registration)
    → All (λ r. has_key r.method d ≡ true) rs
    → All (λ r. has_key r.method (set_default method d) ≡ true) rs
counted-added method d [] h = tt
counted-added method d (r ∷ rs) (h, hs) =
    (ground (arith, lookup-insert method r.method 0 d), counted-added method d rs hs)

pub set_default-has_key : (method : ℕ) (d : Dict ℕ) → has_key method (set_default method d) ≡ true
set_default-has_key method d = ground (arith, lookup-insert method method 0 d)

pub count-set_default :
    (method m : ℕ) (d : Dict ℕ) → count (lookup m (set_default method d)) ≡ count (lookup m d)
count-set_default method m d = ground (arith, lookup-insert method m 0 d)

-- A hit.
pub callbacks-hit : (k : ℕ) (rs : List Registration) → callbacks (map (hit k) rs) ≡ callbacks rs
callbacks-hit k [] = refl
callbacks-hit k (r ∷ rs) = ground (arith, callbacks-hit k rs)

hits_of-elsewhere :
    (k m : ℕ) (rs : List Registration)
    → contains k (callbacks rs) ≡ false
    → hits_of m (map (hit k) rs) ≡ hits_of m rs
hits_of-elsewhere k m [] h = refl
hits_of-elsewhere k m (r ∷ rs) h = ground (arith, hits_of-elsewhere k m rs)

any-contains :
    (method k : ℕ) (rs : List Registration)
    → any (λ r. r.method == method && r.callback == k) rs ≡ true
    → contains k (callbacks rs) ≡ true
any-contains method k [] h = cc
any-contains method k (r ∷ rs) h = ground (arith, any-contains method k rs)

pub hits_of-hit :
    (method k m : ℕ) (rs : List Registration)
    → Distinct (callbacks rs)
    → any (λ r. r.method == method && r.callback == k) rs ≡ true
    → hits_of m (map (hit k) rs) ≡ hits_of m rs + (if m == method then 1 else 0)
hits_of-hit method k m [] d h = cc
hits_of-hit method k m (r ∷ rs) (d, ds) h = ground (
  arith,
  hits_of-elsewhere k m rs,
  any-contains method k rs,
  hits_of-hit method k m rs ds,
  ap (λ j. contains j (callbacks rs)) {x = r.callback} {y = k},
)
