-- ===== src/Events/Waiting/Outcomes.antt =====
-- When a wait returns, when it times out, and what it waits for.
use agent_cdp.Prelude.{
  ℕ, ◌≡◌, ◌↔◌, ◌⊎◌, inl, inr, refl, true, false, not, ◌&&◌, Option, none, some, List, [], ◌∷◌, All,
  select, is_empty, is_some, values, ℤ, Bool-cases, arith,
}
use agent_cdp.Events.Values.{event_timeout_error, Phase}
use agent_cdp.Events.Delivery.{EventResult, is_terminal}
use agent_cdp.Events.Event.{Event}
use agent_cdp.Events.Waiting.{
  WaitTimeout, Caller, Look, returned, raised, effective, selection, in_selection, is_settled,
  is_self_wait, wait_loop, is_negative_budget, wait_for_results,
}

-- Every delivery that the wait is for has settled; a wait for all also needs the queues drained.
pub record Settled (selected : Option (List ℕ)) (ev : Event) : Type 0 where
  pub terminal :
      All
        (λ r. in_selection selected r.connection_id ≡ true → is_terminal r ≡ true)
        (values ev.event_results)
  pub drained : (is_some selected ≡ true) ⊎ (ev.pending_count ≡ 0)

outstanding_iff :
    (selected : Option (List ℕ)) (rs : List EventResult)
    → (is_empty (select (λ r. not (is_terminal r) && in_selection selected r.connection_id) rs)
        ≡ true)
      ↔ All (λ r. in_selection selected r.connection_id ≡ true → is_terminal r ≡ true) rs
outstanding_iff selected [] = (λ _. tt, λ _. refl)
outstanding_iff selected (r ∷ rs) =
    let ih = outstanding_iff selected rs in
    (λ h. ((λ c. ground arith), ih.0 (ground arith)), λ h. ground (arith, ih.1 h.1, h.0))

pub is_settled_iff :
    (selected : Option (List ℕ)) (ev : Event)
    → (is_settled selected ev ≡ true) ↔ Settled selected ev
unfolding is_settled
is_settled_iff selected ev =
    let rs = outstanding_iff selected (values ev.event_results) in
    (
      λ h. record { terminal = rs.0 (ground arith); drained = ground arith },
      λ s. ground (arith, rs.1 s.terminal, s.drained),
    )

-- Some look finds the event settled, and no earlier look finds the caller waiting for itself.
abbrev pub SettlesInTime : Option (List ℕ) → Caller → List Look → Type 0
SettlesInTime selected caller [] = ⊥
SettlesInTime selected caller (look ∷ looks) =
    Settled selected look.event
    ⊎ ((is_self_wait selected caller look ≡ false) × SettlesInTime selected caller looks)

wait_loop_iff :
    (selected : Option (List ℕ)) (caller : Caller) (limit : Option ℤ) (looks : List Look)
    → (wait_loop selected caller limit looks ≡ returned) ↔ SettlesInTime selected caller looks
unfolding wait_loop
wait_loop_iff selected caller none [] = (λ h. cc, λ h. absurd h)
wait_loop_iff selected caller (some t) [] = (λ h. cc, λ h. absurd h)
wait_loop_iff selected caller limit (look ∷ looks) =
    let ih = wait_loop_iff selected caller limit looks in
    let now = is_settled_iff selected look.event in
    elim (Bool-cases (is_settled selected look.event)) [
      | inl s ↦ rw s (λ _. inl (now.0 s), λ _. refl)
      | inr s ↦ elim (Bool-cases (is_self_wait selected caller look)) [
        | inl b ↦ rw (s, b) (λ h. cc, λ h. elim h [ inl t ↦ cc (s, now.1 t) | inr (nb, t) ↦ cc ])
        | inr b ↦
            rw (s, b)
              (
                λ h. inr (refl, ih.0 h),
                λ h. elim h [ inl t ↦ cc (s, now.1 t) | inr (nb, t) ↦ ih.1 t ],
              )
      ]
    ]

-- The first look of the loop is the check that `wait_for_results` makes before it.
wait_for_results_lem :
    (timeout : WaitTimeout) (caller : Caller) (look : Look) (looks : List Look)
    → is_negative_budget (effective timeout look.event) ≡ false
    → wait_for_results timeout caller look looks
      ≡ wait_loop (selection look.event) caller (effective timeout look.event) (look ∷ looks)
unfolding wait_for_results wait_loop
wait_for_results_lem timeout caller look looks h =
    rw h (elim (Bool-cases (is_settled (selection look.event) look.event)) [
      | inl s ↦ rw s
      | inr s ↦ rw s
    ])

-- A wait with a budget that is not negative returns exactly when, at the call or at a wake-up
-- within the budget, all that it waits for has settled, and at no look before that the caller is a
-- running handler whose own queue it waits for. What the handlers' results are does not matter.
pub wait_for_results-returned_iff :
    (timeout : WaitTimeout) (caller : Caller) (look : Look) (looks : List Look)
    → is_negative_budget (effective timeout look.event) ≡ false
    → (wait_for_results timeout caller look looks ≡ returned)
      ↔ SettlesInTime (selection look.event) caller (look ∷ looks)
wait_for_results-returned_iff timeout caller look looks h =
    rw (wait_for_results_lem timeout caller look looks h)
      (wait_loop_iff (selection look.event) caller (effective timeout look.event) (look ∷ looks))

-- No look finds the event settled or the caller waiting for itself.
abbrev pub StaysUnsettled : Option (List ℕ) → Caller → List Look → Type 0
StaysUnsettled selected caller looks =
    All (λ look. (¬ Settled selected look.event) × (is_self_wait selected caller look ≡ false))
      looks

wait_loop_timeout_iff :
    (selected : Option (List ℕ)) (caller : Caller) (limit : Option ℤ) (looks : List Look)
    → (wait_loop selected caller limit looks ≡ raised (event_timeout_error Phase.wait))
      ↔ ((is_some limit ≡ true) × StaysUnsettled selected caller looks)
unfolding wait_loop
wait_loop_timeout_iff selected caller none [] = (λ h. cc, λ h. cc (h.0))
wait_loop_timeout_iff selected caller (some t) [] = (λ _. (refl, tt), λ _. refl)
wait_loop_timeout_iff selected caller limit (look ∷ looks) =
    let ih = wait_loop_timeout_iff selected caller limit looks in
    let now = is_settled_iff selected look.event in
    elim (Bool-cases (is_settled selected look.event)) [
      | inl s ↦ rw s (λ h. cc, λ h. absurd (h.1.0.0 (now.0 s)))
      | inr s ↦ elim (Bool-cases (is_self_wait selected caller look)) [
        | inl b ↦ rw (s, b) (λ h. cc, λ h. cc (h.1.0.1))
        | inr b ↦
            rw (s, b)
              (
                λ h. ((ih.0 h).0, (((λ t. cc (s, now.1 t)), refl), (ih.0 h).1)),
                λ h. ih.1 (h.0, h.1.1),
              )
      ]
    ]

-- A wait with a budget that is not negative raises EventTimeoutError exactly when the budget is
-- finite, nothing that it saw within the budget was settled, and it never was a handler's wait for
-- its own queue.
pub wait_for_results-timeout_iff :
    (timeout : WaitTimeout) (caller : Caller) (look : Look) (looks : List Look)
    → is_negative_budget (effective timeout look.event) ≡ false
    → (wait_for_results timeout caller look looks ≡ raised (event_timeout_error Phase.wait)) ↔ (
        (is_some (effective timeout look.event) ≡ true)
        × StaysUnsettled (selection look.event) caller (look ∷ looks))
wait_for_results-timeout_iff timeout caller look looks h =
    rw (wait_for_results_lem timeout caller look looks h) (
      wait_loop_timeout_iff (selection look.event) caller (effective timeout look.event)
        (look ∷ looks))
