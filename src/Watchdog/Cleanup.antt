-- ===== src/Watchdog/Cleanup.antt =====
-- What `WatchdogBinding.close` does to its binding.
use mathlib.Core.List.{append_assoc}
use agent_cdp.Prelude.{
  ℕ, ◌+◌, ◌≡◌, refl, ap, sym, ◌∙◌, Bool, true, false, Option, none, some, List, [], ◌∷◌, ◌++◌,
  length, select, ◌==◌, ==_refl, ==_iff, if_true, if_ind, Bool-cases, All, inl, inr, arith,
  drop_first, clash, All-snoc,
}
use agent_cdp.Events.Values.{Exc, is_cancelled, Outcome, return, raise, ◌>>=◌}
use agent_cdp.Connection.{Connection}
use agent_cdp.Scope.Matching.{remove}
use agent_cdp.Scope.Emission.{World}
use agent_cdp.Scope.Linking.{disconnect}
use agent_cdp.Scope.Closing.Shutdown.{disconnect_each}
use agent_cdp.Watchdog.{
  Binding, Watchdogs, put_binding, disconnect_all, run_callbacks, collect_error,
}

pub put_here : (b : ℕ) (x : Binding) (s : Watchdogs) → (put_binding b x s).objects b ≡ x
put_here b x s = if_true (b == b) x (s.objects b) (==_refl b)

remove_first : (c : Connection) (cs : List Connection) → remove c.id (c ∷ cs) ≡ cs
remove_first c cs = if_true (c.id == c.id) cs (c ∷ remove c.id cs) (==_refl c.id)

-- The first loop takes every connection out of the binding, and does nothing else to it.
pub record Cut (b : ℕ) (cs : List Connection) (s s' : Watchdogs) : Type 0 where
  pub own : s'.objects b ≡ record (s.objects b) { connections = [] }
  pub others : (k : ℕ) → (k == b) ≡ false → s'.objects k ≡ s.objects k
  pub world : s'.world ≡ disconnect_each cs s.world
  pub resources : s'.resources ≡ s.resources

pub disconnect_all-Cut :
    (b : ℕ) (cs : List Connection) (s : Watchdogs)
    → (s.objects b).connections ≡ cs
    → Cut b cs s (disconnect_all b cs s)
unfolding disconnect_all disconnect_each
disconnect_all-Cut b [] s h = record {
  own = ap (λ cs. record (s.objects b) { connections = cs }) h;
  others = λ k e. refl;
  world = refl;
  resources = refl;
}
disconnect_all-Cut b (c ∷ cs) s h =
    let one_less : Binding = record (s.objects b) {
      connections = remove c.id (s.objects b).connections;
    } in
    let s1 = put_binding b one_less (record s { world = disconnect c s.world }) in
    let here = put_here b one_less (record s { world = disconnect c s.world }) in
    let rest =
      disconnect_all-Cut b cs s1
        (ap (λ (x : Binding). x.connections) here ∙ ap (remove c.id) h ∙ remove_first c cs) in
    record {
      own = rest.own ∙ ap (λ (x : Binding). record x { connections = [] }) here;
      others = λ k e. rest.others k e ∙ rw e refl;
      world = rest.world;
      resources = rest.resources;
    }

-- Whether a callback raised.
abbrev pub is_failure : Option Exc → Bool
is_failure none = false
is_failure (some e) = true

module _ (fails : ℕ → Option Exc) (effect : ℕ → World → World) where
  abbrev pub failing : ℕ → Bool
  failing k = is_failure (fails k)

  -- Each callback is called once, in order.
  abbrev pub call_all : List ℕ → World → World
  call_all [] w = w
  call_all (k ∷ ks) w = call_all ks (effect k w)

  -- The second loop over `ks`, where the callbacks `kept` have failed before.
  abbrev pub Ran : ℕ → List ℕ → List ℕ → Watchdogs → Watchdogs × Outcome ℕ → Type 0
  Ran b kept ks s (s', raise e) = ⊥
  Ran b kept ks s (s', return errors) =
      (s'.objects b ≡ record (s.objects b) { close_callbacks = kept ++ select failing ks })
      × (s'.world ≡ call_all ks s.world)
      × (errors ≡ length (select failing ks))
      × ((k : ℕ) → (k == b) ≡ false → s'.objects k ≡ s.objects k)
      × (s'.resources ≡ s.resources)

  -- A callback that has finished goes, past those that have failed.
  drop_first-append :
      (k : ℕ) (kept ks : List ℕ)
      → failing k ≡ false
      → All (λ j. failing j ≡ true) kept
      → drop_first k (kept ++ k ∷ ks) ≡ kept ++ ks
  drop_first-append k [] ks fine failed = if_true (k == k) ks (k ∷ drop_first k ks) (==_refl k)
  drop_first-append k (j ∷ kept) ks fine (bad, failed) = elim (Bool-cases (k == j)) [
    | inl same ↦ absurd (clash (sym fine ∙ ap failing ((==_iff k j).0 same) ∙ bad))
    | inr other ↦ rw other (ap (λ js. j ∷ js) (drop_first-append k kept ks fine failed))
  ]

  module _ (b : ℕ) (kept : List ℕ) (k : ℕ) (ks : List ℕ) (s : Watchdogs) where
    abbrev called : Watchdogs
    called = record s { world = effect k s.world }

    abbrev done : Watchdogs
    done =
        put_binding b
          (record (s.objects b) { close_callbacks = drop_first k (s.objects b).close_callbacks })
          called

    one_done :
        failing k ≡ false
        → (x : Watchdogs × Outcome ℕ) → Ran b kept ks done x
        → Ran b kept (k ∷ ks) s x
    one_done fine (s', raise e) h = absurd h
    one_done fine (s', return errors) (own, world, count, others, resources) = rw fine (
      own
          ∙ ap (λ (x : Binding). record x { close_callbacks = kept ++ select failing ks })
              (put_here b
                (record (s.objects b) {
                  close_callbacks = drop_first k (s.objects b).close_callbacks;
                })
                called),
      world,
      count,
      λ j e. others j e ∙ rw e refl,
      resources,
    )

    one_failed :
        failing k ≡ true
        → (x : Watchdogs × Outcome ℕ) → Ran b (kept ++ k ∷ []) ks called x
        → Ran b kept (k ∷ ks) s (x.0, x.1 >>= λ errors. return (errors + 1))
    one_failed bad (s', raise e) h = absurd h
    one_failed bad (s', return errors) (own, world, count, others, resources) = rw bad (
      own
          ∙ ap (λ cs. record (s.objects b) { close_callbacks = cs })
              (append_assoc kept (k ∷ []) (select failing ks)),
      world,
      rw count (omega arith),
      others,
      resources,
    )

    one_more :
        (x y : Watchdogs × Outcome ℕ) (o : Option Exc)
        → fails k ≡ o
        → ((e : Exc) → o ≡ some e → is_cancelled e ≡ false)
        → (failing k ≡ false → Ran b kept ks done x)
        → (failing k ≡ true → Ran b (kept ++ k ∷ []) ks called y)
        → Ran b kept (k ∷ ks) s (collect_error called x y o)
    one_more x y none fine plain h g = one_done (ap is_failure fine) x (h (ap is_failure fine))
    one_more x y (some e) bad plain h g =
        if_ind (Ran b kept (k ∷ ks) s) (is_cancelled e) _ _
          (λ c. absurd (clash (sym (plain e refl) ∙ c)))
          (λ _. one_failed (ap is_failure bad) y (g (ap is_failure bad)))

    callbacks_left :
        (s.objects b).close_callbacks ≡ kept ++ k ∷ ks
        → All (λ j. failing j ≡ true) kept
        → failing k ≡ false
        → (done.objects b).close_callbacks ≡ kept ++ ks
    callbacks_left h failed fine =
        ap (λ (x : Binding). x.close_callbacks)
          (put_here b
            (record (s.objects b) { close_callbacks = drop_first k (s.objects b).close_callbacks })
            called)
        ∙ ap (drop_first k) h
        ∙ drop_first-append k kept ks fine failed

  -- No callback is cancelled.
  abbrev pub IsPlain : Type 0
  IsPlain = (k : ℕ) (e : Exc) → fails k ≡ some e → is_cancelled e ≡ false

  pub run_callbacks-Ran :
      IsPlain
      → (b : ℕ) (kept ks : List ℕ) (s : Watchdogs) → All (λ k. failing k ≡ true) kept
      → (s.objects b).close_callbacks ≡ kept ++ ks
      → Ran b kept ks s (run_callbacks fails effect b ks s)
  unfolding run_callbacks
  run_callbacks-Ran plain b kept [] s failed h =
      (ap (λ cs. record (s.objects b) { close_callbacks = cs }) h, refl, refl, λ k e. refl, refl)
  run_callbacks-Ran plain b kept (k ∷ ks) s failed h =
      one_more b kept k ks s (run_callbacks fails effect b ks (done b kept k ks s))
        (run_callbacks fails effect b ks (called b kept k ks s)) (fails k) refl (plain k)
        (λ fine.
          run_callbacks-Ran plain b kept ks (done b kept k ks s) failed
            (callbacks_left b kept k ks s h failed fine))
        (λ bad.
          run_callbacks-Ran plain b (kept ++ k ∷ []) ks (called b kept k ks s)
            (All-snoc (λ j. failing j ≡ true) kept k failed bad)
            (h ∙ sym (append_assoc kept (k ∷ []) ks)))
