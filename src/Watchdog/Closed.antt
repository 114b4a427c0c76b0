-- ===== src/Watchdog/Closed.antt =====
-- `WatchdogBinding.close` as a whole.
use agent_cdp.Prelude.{
  ℕ, ◌≡◌, refl, ap, sym, ◌∙◌, Bool, true, false, Option, none, some, List, [], ◌∷◌, length,
  is_empty, select, ◌==◌, ==_iff, contains, if_true, if_ind, if◌then◌else◌, arith, drop_first,
}
use agent_cdp.Events.Values.{Exc, exception_group, Outcome, return, raise}
use agent_cdp.Scope.Emission.{World}
use agent_cdp.Scope.Closing.{Resources, remove_close_callback}
use agent_cdp.Scope.Closing.Shutdown.{disconnect_each}
use agent_cdp.Watchdog.{
  Binding, Watchdogs, put_binding, put_resources, disconnect_all, call_on_closed, run_callbacks,
  finish_binding, after_cleanup, close_binding,
}
use agent_cdp.Watchdog.Cleanup.{
  put_here, Cut, disconnect_all-Cut, failing, call_all, Ran, IsPlain, run_callbacks-Ran,
}

module _ (close_of : ℕ → ℕ) (fails : ℕ → Option Exc) (effect : ℕ → World → World) where
  abbrev failures : Binding → List ℕ
  failures binding = select (failing fails effect) binding.close_callbacks

  -- The scope forgets a binding without failures, and holds one with some.
  abbrev pub Ending : ℕ → Watchdogs → (ℕ → Resources) → Option Exc → List ℕ → Type 0
  Ending b s rs error [] =
      rs (s.objects b).scope ≡ remove_close_callback (close_of b) (s.resources (s.objects b).scope)
  Ending b s rs error (k ∷ ks) =
      (error ≡ some (exception_group (length (k ∷ ks)))) × (rs ≡ s.resources)

  -- What a `close` of the binding `b` has done.
  pub record CleanedUp (b : ℕ) (s : Watchdogs) (x : Watchdogs × Option Exc) : Type 0 where
    pub world :
        x.0.world
        ≡ call_all fails effect
            (s.objects b).close_callbacks
            (disconnect_each (s.objects b).connections s.world)
    pub connections : (x.0.objects b).connections ≡ []
    pub retained : (x.0.objects b).close_callbacks ≡ failures (s.objects b)
    pub closed : (x.0.objects b).closed ≡ is_empty (failures (s.objects b))
    pub ending : Ending b s x.0.resources x.1 (failures (s.objects b))
    pub others : (k : ℕ) → (k == b) ≡ false → x.0.objects k ≡ s.objects k

  -- The call of `on_closed` concerns only the list of the watchdog.
  call_on_closed-CleanedUp :
      (b : ℕ) (s : Watchdogs) (on_closed : Bool) (t : Watchdogs)
      → ((tracked : List ℕ) (error : Option Exc)
          → CleanedUp b s (record t { tracked = tracked }, error))
      → CleanedUp b s (call_on_closed b on_closed t)
  call_on_closed-CleanedUp b s false t h = h t.tracked none
  call_on_closed-CleanedUp b s true t h =
      if_ind (CleanedUp b s) (contains b t.tracked) _ _ (λ _. h (drop_first b t.tracked) none)
        (λ _. h t.tracked _)

  abbrev shut : Binding → Binding
  shut x = record x { closed = true; on_closed = false }

  -- A write at the scope, read there.
  bound :
      (t t' : ℕ) (r : Resources → Resources) (rs : ℕ → Resources)
      → t' ≡ t
      → (if t == t' then r (rs t') else rs t) ≡ r (rs t)
  bound t t' r rs e =
      if_true (t == t') (r (rs t')) (rs t) ((==_iff t t').1 (sym e)) ∙ ap (λ i. r (rs i)) e

  without_failures :
      (b : ℕ) (s : Watchdogs) (rs : ℕ → Resources) (error : Option Exc) (ks : List ℕ)
      → is_empty ks ≡ true
      → Ending b s rs error []
      → Ending b s rs error ks
  without_failures b s rs error [] h ending = ending
  without_failures b s rs error (k ∷ ks) h ending = cc

  with_failures :
      (b : ℕ) (s : Watchdogs) (rs : ℕ → Resources) (error : Option Exc) (ks : List ℕ)
      → is_empty ks ≡ false
      → (error ≡ some (exception_group (length ks))) × (rs ≡ s.resources)
      → Ending b s rs error ks
  with_failures b s rs error [] h ending = cc
  with_failures b s rs error (k ∷ ks) h ending = ending

  no_errors : (ks : List ℕ) (n : ℕ) → n ≡ length ks → (n == 0) ≡ is_empty ks
  no_errors [] n h = ground arith
  no_errors (k ∷ ks) n h = ground arith

  after_cleanup-CleanedUp :
      (b : ℕ) (s s1 : Watchdogs)
      → (s.objects b).closed ≡ false
      → Cut b (s.objects b).connections s s1
      → (x : Watchdogs × Outcome ℕ) → Ran fails effect b [] (s.objects b).close_callbacks s1 x
      → CleanedUp b s (after_cleanup close_of b x.0 x.1)
  unfolding finish_binding
  after_cleanup-CleanedUp b s s1 fresh cut (s2, raise e) h = absurd h
  after_cleanup-CleanedUp b s s1 fresh cut (s2, return n) (own, world, count, others, resources) =
      let left = failures (s.objects b) in
      let now : (s2.objects b ≡ record (s.objects b) { connections = []; close_callbacks = left }) =
        own ∙ ap (λ (x : Binding). record x { close_callbacks = left }) cut.own in
      let past : (s2.world
          ≡ call_all fails effect (s.objects b).close_callbacks
              (disconnect_each (s.objects b).connections s.world)) =
        world ∙ ap (call_all fails effect (s.objects b).close_callbacks) cut.world in
      let same : (s2.resources ≡ s.resources) = resources ∙ cut.resources in
      let apart : ((k : ℕ) → (k == b) ≡ false → s2.objects k ≡ s.objects k) =
        λ k e. others k e ∙ cut.others k e in
      if_ind (CleanedUp b s) (n == 0) _ _
        (λ e.
          let t =
            put_resources (s2.objects b).scope
              (remove_close_callback (close_of b) (s2.resources (s2.objects b).scope))
              (put_binding b (shut (s2.objects b)) s2) in
          call_on_closed-CleanedUp b s (s2.objects b).on_closed t (λ tracked error.
            let ended = put_here b (shut (s2.objects b)) s2 in
            record {
              world = past;
              connections = ap (λ (x : Binding). x.connections) (ended ∙ ap shut now);
              retained = ap (λ (x : Binding). x.close_callbacks) (ended ∙ ap shut now);
              closed = ap (λ (x : Binding). x.closed) ended ∙ sym e ∙ no_errors left n count;
              ending =
                  without_failures b s t.resources error left (sym (no_errors left n count) ∙ e) (
                    bound (s.objects b).scope (s2.objects b).scope
                      (remove_close_callback (close_of b)) s2.resources
                      (ap (λ (x : Binding). x.scope) now)
                    ∙ ap (λ rs. remove_close_callback (close_of b) (rs (s.objects b).scope)) same);
              others = λ k h. rw h (apart k h);
            }))
        (λ e. record {
          world = past;
          connections = ap (λ (x : Binding). x.connections) now;
          retained = ap (λ (x : Binding). x.close_callbacks) now;
          closed = ap (λ (x : Binding). x.closed) now ∙ fresh ∙ sym e ∙ no_errors left n count;
          ending =
              with_failures b s s2.resources (some (exception_group n)) left
                (sym (no_errors left n count) ∙ e) (ap (λ m. some (exception_group m)) count, same);
          others = apart;
        })

  -- A `close` of a binding that is not closed yet disconnects its connections and then calls each of
  -- its callbacks once, in order, also when some of them raise. The connections are gone from it,
  -- and exactly the callbacks that raised stay, for another `close`; it is closed if there are none
  -- of these, and its scope then forgets it. Otherwise all their errors are raised as one and the
  -- scope goes on holding it. No other binding changes. This needs that no callback is cancelled
  -- and that none changes the bindings.
  pub close_binding-CleanedUp :
      IsPlain fails effect
      → (b : ℕ) (s : Watchdogs) → (s.objects b).closed ≡ false
      → CleanedUp b s (close_binding close_of fails effect b s)
  unfolding close_binding
  close_binding-CleanedUp plain b s fresh =
      let s1 = disconnect_all b (s.objects b).connections s in
      let cut = disconnect_all-Cut b (s.objects b).connections s refl in
      let x = run_callbacks fails effect b (s.objects b).close_callbacks s1 in
      rw fresh (
        after_cleanup-CleanedUp b s s1 fresh cut x (
          run_callbacks-Ran fails effect plain b [] (s.objects b).close_callbacks s1 tt
            (ap (λ (y : Binding). y.close_callbacks) cut.own)))
