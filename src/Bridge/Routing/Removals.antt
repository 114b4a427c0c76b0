-- ===== src/Bridge/Routing/Removals.antt =====
-- `close` keeps what a bridge, its client and its scope hold of one another (`Tracking`).
use mathlib.Core.Path.{subst}
use agent_cdp.Prelude.{
  ℕ, ◌≡◌, refl, ap, true, false, ◌&&◌, List, [], ◌∷◌, is_empty, contains, inl, inr, ◌==◌, arith,
  Bool-cases, if_ind,
}
use agent_cdp.Events.Values.{Exc, is_cancelled, Outcome, Outcome-cases, return, raise, ◌>>=◌}
use agent_cdp.Bridge.Routing.{
  Registration, Bridge, forget, keep_registered, unregister, after_loop, close,
}
use agent_cdp.Bridge.Routing.Tracking.{callbacks, IsTracked}

module _ (off_event : ℕ → Outcome (Unit {0})) where
  abbrev loop : List Registration → List ℕ → List ℕ × Outcome (List Registration × List Exc)
  loop rs ks = unregister off_event rs ks

  contains-forget :
      (k j : ℕ) (ks : List ℕ)
      → contains k (forget j ks) ≡ true
      → (contains k ks ≡ true) × ((k == j) ≡ false)
  contains-forget k j [] h = cc
  contains-forget k j (i ∷ ks) h = ground (arith, contains-forget k j ks)

  -- The registrations that are kept have the callback.
  abbrev Covers : ℕ → Outcome (List Registration × List Exc) → Type 0
  Covers k (return (rest, es)) = contains k (callbacks rest) ≡ true
  Covers k (raise e) = Unit

  Covers-keep_registered :
      (k : ℕ) (r : Registration) (e : Exc) (o : Outcome (List Registration × List Exc))
      → ((k == r.callback) ≡ false → Covers k o)
      → Covers k (o >>= λ left. return (keep_registered r e left))
  Covers-keep_registered k r e (raise x) h = tt
  Covers-keep_registered k r e (return (rest, es)) h = elim (Bool-cases (k == r.callback)) [
    | inl eq ↦ rw eq
    | inr ne ↦ rw ne (h ne)
  ]

  -- A callback that the client still has after the loop is one that it had, and its registration is
  -- kept.
  loop_keeps :
      (rs : List Registration) (ks : List ℕ) (k : ℕ)
      → contains k (loop rs ks).0 ≡ true
      → contains k ks ≡ true
  unfolding unregister
  loop_keeps [] ks k h = h
  loop_keeps (r ∷ rs) ks k h = ground (
    arith,
    loop_keeps rs ks k,
    loop_keeps rs (forget r.callback ks) k,
    contains-forget k r.callback ks,
  )

  abbrev Tracks : ℕ → List ℕ → List ℕ × Outcome (List Registration × List Exc) → Type 0
  Tracks k known x = contains k x.0 ≡ true → contains k known ≡ true → Covers k x.1

  later_callback :
      (k j : ℕ) (ks : List ℕ) → contains k (j ∷ ks) ≡ true → (k == j) ≡ false → contains k ks ≡ true
  later_callback k j ks h ne = ground arith

  loop_nil : (ks : List ℕ) → loop [] ks ≡ (ks, return ([], []))
  unfolding unregister
  loop_nil ks = refl

  loop-Tracks :
      (rs : List Registration) (ks : List ℕ) (k : ℕ) → Tracks k (callbacks rs) (loop rs ks)
  unfolding unregister
  loop-Tracks [] ks k = λ g h. h
  loop-Tracks (r ∷ rs) ks k = elim (Outcome-cases (off_event r.callback)) [
    | inl (a, e) ↦
        let left = forget r.callback ks in
        rw (e, unregister)
          (λ g h. loop-Tracks rs left k g (
            later_callback k r.callback (callbacks rs) h
              (contains-forget k r.callback ks (loop_keeps rs left k g)).1))
    | inr (x, e) ↦
        rw (e, unregister)
          (if_ind (Tracks k (callbacks (r ∷ rs))) (is_cancelled x) _ _ (λ _ g h. tt)
            (λ _ g h.
              Covers-keep_registered k r x (loop rs ks).1
                (λ ne. loop-Tracks rs ks k g (later_callback k r.callback (callbacks rs) h ne))))
  ]

  loop_raises :
      (rs : List Registration) (ks : List ℕ) (e : Exc)
      → (loop rs ks).1 ≡ raise e
      → is_empty rs ≡ false
  loop_raises [] ks e h = cc (ap (λ x. x.1) (loop_nil ks))
  loop_raises (r ∷ rs) ks e h = refl

  after_loop-IsTracked :
      (b : Bridge)
      → IsTracked b
      → (b.closed && is_empty b.registrations) ≡ false
      → (o : Outcome (List Registration × List Exc)) → (loop b.registrations b.listening).1 ≡ o
      → IsTracked (after_loop (loop b.registrations b.listening).0 o (record b { closed = true })).0
  after_loop-IsTracked b tracked live (raise e) eq = record {
    listening = λ k h. tracked.listening k (loop_keeps b.registrations b.listening k h);
    in_scope = ground (arith, tracked.in_scope, loop_raises b.registrations b.listening e eq);
    open_counts = λ h. cc;
  }
  after_loop-IsTracked b tracked live (return (rest, es)) eq = record {
    listening = λ k h. subst (Covers k) eq (
        loop-Tracks b.registrations b.listening k h
          (tracked.listening k (loop_keeps b.registrations b.listening k h)));
    in_scope = ground (arith, tracked.in_scope);
    open_counts = λ h. cc;
  }

  pub close-IsTracked : (b : Bridge) → IsTracked b → IsTracked (close off_event b).0
  unfolding close
  close-IsTracked b tracked =
      if_ind (λ (x : Bridge × Outcome (Unit {0})). IsTracked x.0)
        (b.closed && is_empty b.registrations) _ _ (λ _. tracked)
        (λ live. after_loop-IsTracked b tracked live (loop b.registrations b.listening).1 refl)
