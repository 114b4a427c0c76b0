-- ===== src/Bridge/Routing/Closing.antt =====
-- `CDPEventBridge.close`, and its retry (`Routing`).
use agent_cdp.Prelude.{
  ℕ, ◌≡◌, refl, ap, Bool, true, false, not, ◌&&◌, List, [], ◌∷◌, map, length, is_empty, select, all,
  contains, if◌then◌else◌, arith, and_cases,
}
use agent_cdp.Events.Values.{Exc, exception_group, is_cancelled, Outcome, return, raise}
use agent_cdp.Bridge.Routing.{Registration, Bridge, forget, unregister, group_error, close}

module _ (off_event : ℕ → Outcome (Unit {0})) where
  -- `off_event` raises for the callback.
  abbrev pub is_refused : Registration → Bool
  is_refused r = elim (off_event r.callback) [ return _ ↦ false | raise e ↦ true ]

  -- It does not raise CancelledError.
  abbrev pub goes_on : Registration → Bool
  goes_on r = elim (off_event r.callback) [ return _ ↦ true | raise e ↦ not (is_cancelled e) ]

  -- The callbacks of the registrations that are released.
  abbrev pub released : List Registration → List ℕ
  released rs = map (λ r. r.callback) (select (λ r. not (is_refused r)) rs)

  abbrev errors : List Registration → List Exc
  errors [] = []
  errors (r ∷ rs) = elim (off_event r.callback) [ return _ ↦ errors rs | raise e ↦ e ∷ errors rs ]

  -- What a `close` that is not interrupted makes of a bridge: the registrations whose removal was
  -- refused are kept, in their order, and the client calls no other of its callbacks. The scope
  -- forgets the bridge where none is kept, and otherwise one error holds all the refusals.
  pub record CloseVerdict (b : Bridge) (c : Bridge × Outcome (Unit {0})) : Type 0 where
    pub closed : c.0.closed ≡ true
    pub registrations : c.0.registrations ≡ select is_refused b.registrations
    pub listening :
        c.0.listening ≡ select (λ k. not (contains k (released b.registrations))) b.listening
    pub in_scope : c.0.in_scope ≡ (b.in_scope && not (is_empty (select is_refused b.registrations)))
    pub outcome : c.1 ≡ (
        if is_empty (select is_refused b.registrations)
        then return tt
        else raise (exception_group (length (select is_refused b.registrations))))

  select-true : (ks : List ℕ) → select (λ k. true) ks ≡ ks
  select-true [] = refl
  select-true (k ∷ ks) = ap (λ l. k ∷ l) (select-true ks)

  select-forget :
      (k : ℕ) (gone ks : List ℕ)
      → select (λ j. not (contains j gone)) (forget k ks)
        ≡ select (λ j. not (contains j (k ∷ gone))) ks
  select-forget k gone [] = refl
  select-forget k gone (j ∷ ks) = ground (arith, select-forget k gone ks)

  unregister_lem :
      (rs : List Registration) (ks : List ℕ)
      → all goes_on rs ≡ true
      → unregister off_event rs ks ≡ (
        select (λ k. not (contains k (released rs))) ks,
        return (select is_refused rs, errors rs),
      )
  unfolding unregister
  unregister_lem [] ks h = rw (select-true ks)
  unregister_lem (r ∷ rs) ks h =
      let (here, later) = and_cases (goes_on r) h in
      ground (
        arith,
        here,
        unregister_lem rs ks later,
        unregister_lem rs (forget r.callback ks) later,
        select-forget r.callback (released rs) ks,
      )

  length-errors : (rs : List Registration) → length (errors rs) ≡ length (select is_refused rs)
  length-errors [] = refl
  length-errors (r ∷ rs) = ground (arith, length-errors rs)

  group_error_lem :
      (es : List Exc) (rs : List Registration)
      → length es ≡ length rs
      → group_error es ≡ (if is_empty rs then return tt else raise (exception_group (length rs)))
  group_error_lem [] [] h = refl
  group_error_lem [] (r ∷ rs) h = absurd (omega arith)
  group_error_lem (e ∷ es) [] h = absurd (omega arith)
  group_error_lem (e ∷ es) (r ∷ rs) h = ap (λ n. raise (exception_group n)) h

  -- Closing a bridge that is open, or that still has registrations, with no CancelledError from the
  -- client: every registration is tried, the refused ones stay in their order for a retry and all
  -- others are gone from the client, the scope keeps the bridge exactly while some are refused, and
  -- one error is raised for all of them together, or none.
  pub close-CloseVerdict :
      (b : Bridge)
      → (b.closed && is_empty b.registrations) ≡ false
      → all goes_on b.registrations ≡ true
      → CloseVerdict b (close off_event b)
  unfolding close
  close-CloseVerdict b open_or_held h =
      rw (open_or_held, unregister_lem b.registrations b.listening h)
        (record {
          closed = refl;
          registrations = refl;
          listening = refl;
          in_scope = refl;
          outcome = group_error_lem _ _ (length-errors b.registrations);
        })
