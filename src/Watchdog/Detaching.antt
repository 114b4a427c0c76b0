-- ===== src/Watchdog/Detaching.antt =====
-- `WatchdogBase.detach`: which bindings it closes.
pub mod Loop
pub mod Exact
use agent_cdp.Prelude.{
  ℕ, ◌≡◌, refl, ap, sym, ◌∙◌, Bool, true, false, not, Option, none, some, List, [], ◌∷◌, select,
  contains, ◌==◌, ==_iff, ==_refl, if_true, if_ind, if◌then◌else◌, Bool-cases, inl, inr, arith,
  drop_first, clash,
}
use agent_cdp.Events.Values.{Exc, is_cancelled, Outcome, return, raise, ◌>>=◌}
use agent_cdp.Connection.{Connection}
use agent_cdp.Scope.Matching.{remove}
use agent_cdp.Scope.Emission.{World}
use agent_cdp.Scope.Linking.{disconnect}
use agent_cdp.Watchdog.{
  Binding, Watchdogs, put_binding, disconnect_all, call_on_closed, run_callbacks, collect_error,
  finish_binding, after_cleanup, close_binding, is_match, close_matching,
}
use agent_cdp.Watchdog.Cleanup.{put_here}

module _ (scope : ℕ) (session_id : Option ℕ) where
  abbrev pub matched : Binding → Bool
  matched x = is_match scope session_id x

  -- The bindings that do not match are as before; closed ones stay closed, and only these leave the
  -- list.
  pub record Steady (o : ℕ → Binding) (bs : List ℕ) (o' : ℕ → Binding) (bs' : List ℕ) : Type 0 where
    pub others : (k : ℕ) → matched (o k) ≡ false → o' k ≡ o k
    pub same : (k : ℕ) → matched (o' k) ≡ matched (o k)
    pub stays : (k : ℕ) → (o k).closed ≡ true → (o' k).closed ≡ true
    pub tracked :
        (p : ℕ → Bool) → ((k : ℕ) → (o' k).closed ≡ true → p k ≡ false) → select p bs' ≡ select p bs

  pub Steady-refl : (o : ℕ → Binding) (bs : List ℕ) → Steady o bs o bs
  Steady-refl o bs = record {
    others = λ k h. refl;
    same = λ k. refl;
    stays = λ k h. h;
    tracked = λ p h. refl;
  }

  pub Steady-trans :
      {o o' o'' : ℕ → Binding} {bs bs' bs'' : List ℕ}
      → Steady o bs o' bs'
      → Steady o' bs' o'' bs''
      → Steady o bs o'' bs''
  Steady-trans f g = record {
    others = λ k h. g.others k (f.same k ∙ h) ∙ f.others k h;
    same = λ k. g.same k ∙ f.same k;
    stays = λ k h. g.stays k (f.stays k h);
    tracked = λ p h. g.tracked p h ∙ f.tracked p (λ k c. h k (g.stays k c));
  }

  pub put-Steady :
      (b : ℕ) (x : Binding) (s : Watchdogs)
      → matched (s.objects b) ≡ true
      → matched x ≡ true
      → ((s.objects b).closed ≡ true → x.closed ≡ true)
      → Steady s.objects s.tracked (put_binding b x s).objects s.tracked
  put-Steady b x s here there closed = record {
    others = λ k h.
        if_ind (λ y. y ≡ s.objects k) (k == b) x (s.objects k)
          (λ e. absurd (clash (sym h ∙ ap (λ i. matched (s.objects i)) ((==_iff k b).0 e) ∙ here)))
          (λ e. refl);
    same = λ k.
        if_ind (λ y. matched y ≡ matched (s.objects k)) (k == b) x (s.objects k)
          (λ e. there ∙ sym (ap (λ i. matched (s.objects i)) ((==_iff k b).0 e) ∙ here))
          (λ e. refl);
    stays = λ k h.
        if_ind (λ (y : Binding). y.closed ≡ true) (k == b) x (s.objects k)
          (λ e. closed (ap (λ i. (s.objects i).closed) (sym ((==_iff k b).0 e)) ∙ h)) (λ e. h);
    tracked = λ p h. refl;
  }

  -- A closed binding may leave.
  select-drop_first :
      (p : ℕ → Bool) (b : ℕ) (bs : List ℕ) → p b ≡ false → select p (drop_first b bs) ≡ select p bs
  select-drop_first p b [] h = refl
  select-drop_first p b (k ∷ bs) h = elim (Bool-cases (b == k)) [
    | inl e ↦ let leaves : (p k ≡ false) = ap p (sym ((==_iff b k).0 e)) ∙ h in rw (e, leaves) refl
    | inr e ↦ rw e (ap (λ ks. if p k then k ∷ ks else ks) (select-drop_first p b bs h))
  ]

  pub disconnect_all-Steady :
      (b : ℕ) (cs : List Connection) (s : Watchdogs)
      → matched (s.objects b) ≡ true
      → let s' = disconnect_all b cs s in Steady s.objects s.tracked s'.objects s'.tracked
  unfolding disconnect_all
  disconnect_all-Steady b [] s here = Steady-refl s.objects s.tracked
  disconnect_all-Steady b (c ∷ cs) s here =
      let x : Binding = record (s.objects b) {
        connections = remove c.id (s.objects b).connections;
      } in
      let s1 : Watchdogs = record s { world = disconnect c s.world } in
      Steady-trans (put-Steady b x s here here (λ h. h))
        (disconnect_all-Steady b cs (put_binding b x s1) (ap matched (put_here b x s1) ∙ here))

  -- The state that a call ends in.
  abbrev pub SteadyTo {ℓ} : {A : Type ℓ} → Watchdogs → Watchdogs × A → Type 0
  SteadyTo s x = Steady s.objects s.tracked x.0.objects x.0.tracked

  pub collect_error-Steady :
      (s s1 : Watchdogs) (x y : Watchdogs × Outcome ℕ) (o : Option Exc)
      → SteadyTo s (s1, o)
      → SteadyTo s x
      → SteadyTo s y
      → SteadyTo s (collect_error s1 x y o)
  collect_error-Steady s s1 x y none h f g = f
  collect_error-Steady s s1 x y (some e) h f g =
      if_ind (SteadyTo s) (is_cancelled e) _ _ (λ _. h) (λ _. g)

  module _ (close_of : ℕ → ℕ) (fails : ℕ → Option Exc) (effect : ℕ → World → World) where
    pub run_callbacks-Steady :
        (b : ℕ) (ks : List ℕ) (s : Watchdogs)
        → matched (s.objects b) ≡ true
        → SteadyTo s (run_callbacks fails effect b ks s)
    unfolding run_callbacks
    run_callbacks-Steady b [] s here = Steady-refl s.objects s.tracked
    run_callbacks-Steady b (k ∷ ks) s here =
        let s1 : Watchdogs = record s { world = effect k s.world } in
        let x : Binding = record (s.objects b) {
          close_callbacks = drop_first k (s.objects b).close_callbacks;
        } in
        collect_error-Steady s s1 _ _ (fails k) (Steady-refl s.objects s.tracked)
          (Steady-trans (put-Steady b x s here here (λ h. h))
            (run_callbacks-Steady b ks (put_binding b x s1) (ap matched (put_here b x s1) ∙ here)))
          (run_callbacks-Steady b ks s1 here)

    -- The binding is closed before it leaves the list.
    pub call_on_closed-Steady :
        (b : ℕ) (on_closed : Bool) (s : Watchdogs)
        → (s.objects b).closed ≡ true
        → SteadyTo s (call_on_closed b on_closed s)
    call_on_closed-Steady b false s closed = Steady-refl s.objects s.tracked
    call_on_closed-Steady b true s closed =
        if_ind (SteadyTo s) (contains b s.tracked) _ _
          (λ _. record {
            others = λ k h. refl;
            same = λ k. refl;
            stays = λ k h. h;
            tracked = λ p h. select-drop_first p b s.tracked (h b closed);
          })
          (λ _. Steady-refl s.objects s.tracked)
