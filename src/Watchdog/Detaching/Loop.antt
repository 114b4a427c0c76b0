-- ===== src/Watchdog/Detaching/Loop.antt =====
-- The loop of `detach`, one `close` after another.
use agent_cdp.Prelude.{
  ℕ, ◌+◌, ◌≡◌, refl, ap, sym, ◌∙◌, Bool, true, false, not, Option, none, some, List, [], ◌∷◌,
  contains, ◌==◌, ==_iff, if_ind, Bool-cases, inl, inr, arith, clash,
}
use agent_cdp.Events.Values.{Exc, is_cancelled, Outcome, return, raise, ◌>>=◌}
use agent_cdp.Scope.Emission.{World}
use agent_cdp.Scope.Closing.{remove_close_callback}
use agent_cdp.Watchdog.{
  Binding, Watchdogs, put_binding, put_resources, disconnect_all, call_on_closed, run_callbacks,
  collect_error, finish_binding, after_cleanup, close_binding, close_matching,
}
use agent_cdp.Watchdog.Cleanup.{put_here}
use agent_cdp.Watchdog.Detaching.{
  matched, Steady-refl, Steady-trans, put-Steady, disconnect_all-Steady, SteadyTo,
  run_callbacks-Steady, call_on_closed-Steady,
}

-- A `close` that does not raise has closed the binding.
abbrev Closes : ℕ → Watchdogs × Option Exc → Type 0
Closes b x = x.1 ≡ none → (x.0.objects b).closed ≡ true

call_on_closed-Closes :
    (b : ℕ) (on_closed : Bool) (s : Watchdogs)
    → (s.objects b).closed ≡ true
    → Closes b (call_on_closed b on_closed s)
call_on_closed-Closes b false s closed = λ _. closed
call_on_closed-Closes b true s closed =
    if_ind (Closes b) (contains b s.tracked) _ _ (λ _ _. closed) (λ _ _. closed)

module _ (scope : ℕ) (session_id : Option ℕ) (close_of : ℕ → ℕ) (fails : ℕ → Option Exc)
    (effect : ℕ → World → World) where
  abbrev IsMatch : Watchdogs → ℕ → Type 0
  IsMatch s b = matched scope session_id (s.objects b) ≡ true

  abbrev Steadily {ℓ} : {A : Type ℓ} → Watchdogs → Watchdogs × A → Type 0
  Steadily s x = SteadyTo scope session_id s x

  finish_binding-Steady :
      (b : ℕ) (s : Watchdogs)
      → IsMatch s b
      → Steadily s (finish_binding close_of b s) × Closes b (finish_binding close_of b s)
  unfolding finish_binding
  finish_binding-Steady b s here =
      let x : Binding = record (s.objects b) { closed = true; on_closed = false } in
      let t =
        put_resources (s.objects b).scope
          (remove_close_callback (close_of b) (s.resources (s.objects b).scope))
          (put_binding b x s) in
      let closed = ap (λ (y : Binding). y.closed) (put_here b x s) in
      (
        Steady-trans scope session_id (put-Steady scope session_id b x s here here (λ _. refl)) (
            call_on_closed-Steady scope session_id close_of fails effect b (s.objects b).on_closed t
              closed),
        call_on_closed-Closes b (s.objects b).on_closed t closed,
      )

  after_cleanup-Steady :
      (b : ℕ) (s : Watchdogs)
      → IsMatch s b
      → (x : Watchdogs × Outcome ℕ) → Steadily s x
      → Steadily s (after_cleanup close_of b x.0 x.1) × Closes b (after_cleanup close_of b x.0 x.1)
  after_cleanup-Steady b s here (s', raise e) h = (h, λ none_raised. cc)
  after_cleanup-Steady b s here (s', return n) h =
      let (ends, closes) = finish_binding-Steady b s' (h.same b ∙ here) in
      if_ind (λ (y : Watchdogs × Option Exc). Steadily s y × Closes b y) (n == 0) _ _
        (λ _. (Steady-trans scope session_id h ends, closes)) (λ _. (h, λ none_raised. cc))

  close_binding-Steady :
      (b : ℕ) (s : Watchdogs)
      → IsMatch s b
      → Steadily s (close_binding close_of fails effect b s)
        × Closes b (close_binding close_of fails effect b s)
  unfolding close_binding
  close_binding-Steady b s here =
      let s1 = disconnect_all b (s.objects b).connections s in
      let first = disconnect_all-Steady scope session_id b (s.objects b).connections s here in
      let x = run_callbacks fails effect b (s.objects b).close_callbacks s1 in
      let second =
        run_callbacks-Steady scope session_id close_of fails effect b (s.objects b).close_callbacks
          s1 (first.same b ∙ here) in
      if_ind (λ (y : Watchdogs × Option Exc). Steadily s y × Closes b y) (s.objects b).closed _ _
        (λ closed. (Steady-refl scope session_id s.objects s.tracked, λ _. closed))
        (λ _. after_cleanup-Steady b s here x (Steady-trans scope session_id first second))

  -- The loop leaves every matching binding of the list closed, if it has met no error.
  abbrev pub Through : List ℕ → Watchdogs → Watchdogs × Outcome ℕ → Type 0
  Through bs s x =
      Steadily s x
      × (x.1 ≡ return 0
          → (k : ℕ) → contains k bs ≡ true
          → IsMatch s k
          → (x.0.objects k).closed ≡ true)

  counted : (rest : Outcome ℕ) → (rest >>= λ errors. return (errors + 1)) ≡ return 0 → ⊥
  counted (raise e) h = cc
  counted (return n) h = ground arith

  -- One binding that matches, and the rest of the list.
  one_closed :
      (b : ℕ) (bs : List ℕ) (s s1 : Watchdogs) (o : Option Exc)
      → Steadily s (s1, o)
      → Closes b (s1, o)
      → (rest : Watchdogs × Outcome ℕ) → Through bs s1 rest
      → Through (b ∷ bs) s (collect_error s1 rest rest o)
  one_closed b bs s s1 none h closes rest (steady, closed) = (
    Steady-trans scope session_id h steady,
    λ e k member here. elim (Bool-cases (k == b)) [
      | inl same ↦
          ap (λ i. (rest.0.objects i).closed) ((==_iff k b).0 same) ∙ steady.stays b (closes refl)
      | inr other ↦ closed e k (ground arith) (h.same k ∙ here)
    ],
  )
  one_closed b bs s s1 (some x) h closes rest (steady, closed) =
      if_ind (Through (b ∷ bs) s) (is_cancelled x) _ _ (λ _. (h, λ e. cc))
        (λ _. (Steady-trans scope session_id h steady, λ e. absurd (counted rest.1 e)))

  passed_by :
      (b : ℕ) (bs : List ℕ) (s : Watchdogs)
      → matched scope session_id (s.objects b) ≡ false
      → (x : Watchdogs × Outcome ℕ) → Through bs s x
      → Through (b ∷ bs) s x
  passed_by b bs s other x (steady, closed) = (
    steady,
    λ e k member here. elim (Bool-cases (k == b)) [
      | inl same ↦ absurd (
          clash (
            sym other
            ∙ ap (λ i. matched scope session_id (s.objects i)) (sym ((==_iff k b).0 same))
            ∙ here))
      | inr apart ↦ closed e k (ground arith) here
    ],
  )

  pub close_matching-Through :
      (bs : List ℕ) (s : Watchdogs)
      → Through bs s (close_matching close_of fails effect scope session_id bs s)
  unfolding close_matching
  close_matching-Through [] s = (Steady-refl scope session_id s.objects s.tracked, λ e k h. cc)
  close_matching-Through (b ∷ bs) s =
      let s1 = close_binding close_of fails effect b s in
      let rest = close_matching close_of fails effect scope session_id bs s1.0 in
      let skipped = close_matching close_of fails effect scope session_id bs s in
      if_ind (Through (b ∷ bs) s) (not (matched scope session_id (s.objects b))) skipped
        (collect_error s1.0 rest rest s1.1)
        (λ other. passed_by b bs s (ground arith) skipped (close_matching-Through bs s))
        (λ here.
          let (steady, closes) = close_binding-Steady b s (ground arith) in
          one_closed b bs s s1.0 s1.1 steady closes rest (close_matching-Through bs s1.0))
