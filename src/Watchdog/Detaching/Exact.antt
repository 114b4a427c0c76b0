-- ===== src/Watchdog/Detaching/Exact.antt =====
-- `detach` as a whole.
use agent_cdp.Prelude.{
  ℕ, ◌≡◌, refl, ap, sym, ◌∙◌, Bool, true, false, not, ◌&&◌, Option, none, some, List, [], ◌∷◌,
  select, contains, ◌==◌, ==_iff, if_ind, if◌then◌else◌, Bool-cases, inl, inr, arith,
}
use agent_cdp.Events.Values.{Exc, exception_group, Outcome, return, raise}
use agent_cdp.Scope.Emission.{World}
use agent_cdp.Watchdog.{
  Binding, Watchdogs, is_match, close_matching, active_bindings, forget_closed, detach,
}
use agent_cdp.Watchdog.Detaching.{matched, Steady}
use agent_cdp.Watchdog.Detaching.Loop.{Through, close_matching-Through}

-- Two filters that agree on the elements.
select_same :
    (p q : ℕ → Bool) (ks : List ℕ)
    → ((k : ℕ) → contains k ks ≡ true → p k ≡ q k)
    → select p ks ≡ select q ks
select_same p q [] h = refl
select_same p q (k ∷ ks) h =
    rw (h k (ground arith))
      (ap (λ js. if q k then k ∷ js else js) (select_same p q ks (λ j m. h j (ground arith))))

select-select :
    (p q : ℕ → Bool) (ks : List ℕ) → select p (select q ks) ≡ select (λ k. q k && p k) ks
select-select p q [] = refl
select-select p q (k ∷ ks) = ground (arith, select-select p q ks)

contains-select :
    (p : ℕ → Bool) (k : ℕ) (ks : List ℕ)
    → contains k ks ≡ true
    → p k ≡ true
    → contains k (select p ks) ≡ true
contains-select p k [] h g = cc
contains-select p k (j ∷ ks) h g = elim (Bool-cases (k == j)) [
  | inl same ↦
      let kept : (p j ≡ true) = ap p (sym ((==_iff k j).0 same)) ∙ g in rw (kept, same) refl
  | inr other ↦
      let later = contains-select p k ks (ground arith) g in
      if_ind (λ js. contains k js ≡ true) (p j) _ _ (λ _. ground arith) (λ _. later)
]

module _ (scope : ℕ) (session_id : Option ℕ) (close_of : ℕ → ℕ) (fails : ℕ → Option Exc)
    (effect : ℕ → World → World) where
  abbrev Untouched : Watchdogs → Watchdogs → Type 0
  Untouched s s' =
      (k : ℕ) → is_match scope session_id (s.objects k) ≡ false → s'.objects k ≡ s.objects k

  -- What a `detach` has done, by how it ends.
  abbrev pub Exact : Watchdogs → Watchdogs × Option Exc → Type 0
  Exact s (s', none) =
      Untouched s s'
      × (active_bindings s'
          ≡ select (λ k. not (is_match scope session_id (s.objects k))) (active_bindings s))
  Exact s (s', some e) = Untouched s s'

  -- The matching bindings that were active are closed.
  abbrev AllShut : Watchdogs → Watchdogs → Type 0
  AllShut s s' =
      (k : ℕ)
      → contains k (active_bindings s) ≡ true
      → is_match scope session_id (s.objects k) ≡ true
      → (s'.objects k).closed ≡ true

  shut_down :
      (s s' : Watchdogs)
      → Steady scope session_id s.objects s.tracked s'.objects s'.tracked
      → AllShut s s'
      → (k : ℕ) → contains k s.tracked ≡ true
      → is_match scope session_id (s.objects k) ≡ true
      → (s'.objects k).closed ≡ true
  shut_down s s' steady closed k member here = elim (Bool-cases (s.objects k).closed) [
    | inl before ↦ steady.stays k before
    | inr fresh ↦
        closed k
          (contains-select (λ j. not (s.objects j).closed) k s.tracked member (rw fresh refl)) here
  ]

  agree :
      (s s' : Watchdogs)
      → Steady scope session_id s.objects s.tracked s'.objects s'.tracked
      → AllShut s s'
      → (k : ℕ) → contains k s.tracked ≡ true
      → not (s'.objects k).closed
        ≡ (not (s.objects k).closed && not (is_match scope session_id (s.objects k)))
  agree s s' steady closed k member = elim (Bool-cases (is_match scope session_id (s.objects k))) [
    | inl here ↦
        let off = shut_down s s' steady closed k member here in
        let matches : (matched scope session_id (s.objects k) ≡ true) = here in ground arith
    | inr other ↦
        let kept = ap (λ (x : Binding). x.closed) (steady.others k other) in
        let apart : (matched scope session_id (s.objects k) ≡ false) = other in ground arith
  ]

  -- What is active at the end, in the list as it was at the start.
  remaining :
      (s s' : Watchdogs)
      → Steady scope session_id s.objects s.tracked s'.objects s'.tracked
      → AllShut s s'
      → active_bindings s'
        ≡ select (λ k. not (is_match scope session_id (s.objects k))) (active_bindings s)
  remaining s s' steady closed =
      let unmatched : (ℕ → Bool) = λ k. not (is_match scope session_id (s.objects k)) in
      let was_open : (ℕ → Bool) = λ k. not (s.objects k).closed in
      let is_open : (ℕ → Bool) = λ k. not (s'.objects k).closed in
      steady.tracked is_open (λ k h. rw h refl)
      ∙ select_same is_open (λ k. was_open k && unmatched k) s.tracked (agree s s' steady closed)
      ∙ sym (select-select unmatched was_open s.tracked)

  -- The list without the closed bindings has the same active ones.
  forget_closed-active : (s : Watchdogs) → active_bindings (forget_closed s) ≡ active_bindings s
  forget_closed-active s =
      let is_open : (ℕ → Bool) = λ k. not (s.objects k).closed in
      select-select is_open is_open s.tracked
      ∙ select_same (λ k. is_open k && is_open k) is_open s.tracked (λ k m. ground arith)

  finished :
      (s : Watchdogs) (x : Watchdogs × Outcome ℕ)
      → Through scope session_id close_of fails effect (active_bindings s) s x
      → Exact s (elim x.1 as (λ _. Watchdogs × Option Exc) [
        | raise e ↦ (x.0, some e)
        | return n ↦ (forget_closed x.0, if n == 0 then none else some (exception_group n))
      ])
  finished s (s', raise e) (steady, closed) = steady.others
  finished s (s', return n) (steady, closed) =
      if_ind (λ error. Exact s (forget_closed s', error)) (n == 0) _ _
        (λ e. (
          steady.others,
          forget_closed-active s'
              ∙ remaining s s' steady (closed (ap (λ m. return m) ((==_iff n 0).0 e))),
        ))
        (λ _. steady.others)

  -- `detach` closes exactly the bindings of the given scope and session: no other binding changes in
  -- any way, however the call ends. If it does not raise, the bindings that are active afterwards
  -- are those that were active before and are of another scope or session, in the same order.
  pub detach-Exact : (s : Watchdogs) → Exact s (detach close_of fails effect scope session_id s)
  unfolding detach
  detach-Exact s =
      finished s (close_matching close_of fails effect scope session_id (active_bindings s) s)
        (close_matching-Through scope session_id close_of fails effect (active_bindings s) s)
