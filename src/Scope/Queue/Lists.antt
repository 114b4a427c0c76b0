-- ===== src/Scope/Queue/Lists.antt =====
-- Facts on lists of sequence numbers, for the proofs about the queue.
use agent_cdp.Prelude.{
  ℕ, ◌≤◌, ◌<◌, ◌≡◌, refl, Bool, not, ◌&&◌, List, [], ◌∷◌, ◌++◌, All, Dict, keys, erase, has_key,
  select, contains, ◌==◌, arith,
}

-- Strictly ascending, every element above `low`.
abbrev pub Above : ℕ → List ℕ → Type 0
Above low [] = Unit
Above low (x ∷ xs) = (low < x) × Above x xs

abbrev pub others : ℕ → List ℕ → List ℕ
others k xs = select (λ n. not (n == k)) xs

pub Above-weaken : (a b : ℕ) (xs : List ℕ) → a ≤ b → Above b xs → Above a xs
Above-weaken a b [] h u = tt
Above-weaken a b (x ∷ xs) h u = (omega arith, u.1)

pub Above-All : (a : ℕ) (xs : List ℕ) → Above a xs → All (λ n. a < n) xs
Above-All a [] u = tt
Above-All a (x ∷ xs) u = (u.0, Above-All a xs (Above-weaken a x xs (omega arith) u.1))

-- What is above `k` keeps all of itself when `k` is taken out.
pub others_above : (k : ℕ) (xs : List ℕ) → All (λ n. k < n) xs → others k xs ≡ xs
others_above k [] u = refl
others_above k (x ∷ xs) u = ground (arith, others_above k xs u.1)

pub keys-erase {ℓ} :
    {V : Type ℓ} (k low : ℕ) (d : Dict V)
    → Above low (keys d)
    → keys (erase k d) ≡ others k (keys d)
keys-erase k low [] u = refl
keys-erase k low ((j, v) ∷ d) u =
    let tail = others_above j (keys d) (Above-All j (keys d) u.1) in
    ground (arith, keys-erase k j d u.1, tail)

pub others-Above : (k low : ℕ) (xs : List ℕ) → Above low xs → Above low (others k xs)
others-Above k low [] u = tt
others-Above k low (x ∷ xs) u = ground (
  arith,
  others-Above k x xs u.1,
  Above-weaken low x (select (λ n. not (n == k)) xs) (omega arith),
)

pub others-append : (k : ℕ) (xs ys : List ℕ) → others k (xs ++ ys) ≡ others k xs ++ others k ys
others-append k [] ys = refl
others-append k (x ∷ xs) ys = ground (arith, others-append k xs ys)

pub Above-append :
    (a b : ℕ) (xs : List ℕ) → Above a xs → All (λ n. n < b) xs → a < b → Above a (xs ++ b ∷ [])
Above-append a b [] u h k = (k, tt)
Above-append a b (x ∷ xs) u h k = (u.0, Above-append x b xs u.1 h.1 h.0)

pub contains-others :
    (k n : ℕ) (xs : List ℕ) → contains n (others k xs) ≡ (contains n xs && not (n == k))
contains-others k n [] = refl
contains-others k n (x ∷ xs) = ground (arith, contains-others k n xs)

pub has_key-contains {ℓ} : {V : Type ℓ} (k : ℕ) (d : Dict V) → has_key k d ≡ contains k (keys d)
has_key-contains k [] = refl
has_key-contains k ((j, v) ∷ d) = ground (arith, has_key-contains k d)

-- Two tests that agree on a list select the same.
pub select_congr {ℓ} :
    {A : Type ℓ} (p q : A → Bool) (xs : List A)
    → All (λ x. p x ≡ q x) xs
    → select p xs ≡ select q xs
select_congr p q [] h = refl
select_congr p q (x ∷ xs) h = ground (arith, h.0, select_congr p q xs h.1)
