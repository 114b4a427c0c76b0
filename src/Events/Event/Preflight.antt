-- ===== src/Events/Event/Preflight.antt =====
-- Which receivers satisfy a request, and what `_preflight` writes in either case.
use agent_cdp.Prelude.{
  ℕ, ◌≤◌, ◌≡◌, ◌↔◌, ◌⊎◌, inl, inr, refl, Bool-cases, Bool, true, false, not, ◌||◌, Option, none,
  some, List, [], ◌∷◌, All, Any, any, any_iff, is_empty, length, ltb, arith,
}
use agent_cdp.Events.Contracts.{RequestContract}
use agent_cdp.Events.Event.State.{Event, Receiver, ReceiverFailure}
use agent_cdp.Events.Event.Receivers.{answers, unanswered, names_receiver, handlers_of, preflight}

-- A receiver answers to a name by its connection id or its receiver key.
abbrev pub Answers : ℕ → Receiver → Type 0
Answers name c = (c.id ≡ name) ⊎ (c.receiver_key ≡ some name)

-- Every required name is answered by a handler, and there are enough handlers.
pub record Satisfies (contract : RequestContract) (cs : List Receiver) : Type 0 where
  pub named : All (λ name. Any (Answers name) (handlers_of cs)) contract.required_receivers
  pub counted : contract.min_receivers ≤ length (handlers_of cs)

pub answers_iff :
    (name id : ℕ) (key : Option ℕ)
    → (answers name id key ≡ true) ↔ ((id ≡ name) ⊎ (key ≡ some name))
answers_iff name id none = (λ h. ground arith, λ h. ground arith)
answers_iff name id (some k) = (λ h. ground arith, λ h. ground arith)

-- Nothing is unanswered exactly when every name is answered.
pub unanswered_iff {ℓ} :
    {A : Type ℓ} (p : ℕ → A → Bool) (P : ℕ → A → Type 0)
    → ((name : ℕ) (x : A) → (p name x ≡ true) ↔ P name x)
    → (names : List ℕ) (xs : List A)
    → (is_empty (unanswered p names xs) ≡ true) ↔ All (λ name. Any (P name) xs) names
unanswered_iff p P d [] xs = (λ _. tt, λ _. refl)
unanswered_iff p P d (name ∷ names) xs =
    let ih = unanswered_iff p P d names xs in
    let head = any_iff (p name) (P name) (d name) xs in
    elim (Bool-cases (any (p name) xs)) [
      | inl e ↦ rw e (λ h. (head.0 e, ih.0 h), λ h. ih.1 h.1)
      | inr e ↦ rw e (λ h. cc, λ h. cc (e, head.1 h.0))
    ]

-- The test by which `_preflight` refuses.
module _ (cs : List Receiver) (contract : RequestContract) where
  abbrev refused : Bool
  refused =
      not (is_empty (unanswered names_receiver contract.required_receivers (handlers_of cs)))
      || ltb (length (handlers_of cs)) contract.min_receivers

  refused_iff : (refused ≡ false) ↔ Satisfies contract cs
  refused_iff =
      let names =
        unanswered_iff names_receiver Answers (λ name c. answers_iff name c.id c.receiver_key)
          contract.required_receivers (handlers_of cs) in
      (
        λ h. record { named = names.0 (no_unanswered h); counted = enough h },
        λ s. passes (names.1 s.named) s.counted,
      )
    where
      no_unanswered :
          refused ≡ false
          → is_empty (unanswered names_receiver contract.required_receivers (handlers_of cs)) ≡ true
      no_unanswered h = ground arith

      enough : refused ≡ false → contract.min_receivers ≤ length (handlers_of cs)
      enough h = ground arith

      passes :
          is_empty (unanswered names_receiver contract.required_receivers (handlers_of cs)) ≡ true
          → contract.min_receivers ≤ length (handlers_of cs)
          → refused ≡ false
      passes h k = ground arith

-- With a request contract, `_preflight` lets the receivers pass exactly when every required name
-- is the connection id or the receiver key of a handler among them, and the handlers are at least
-- the minimum. Observers do not count.
pub preflight_iff :
    (cs : List Receiver) (contract : RequestContract) (ev : Event)
    → ev.request_contract ≡ some contract
    → ((preflight cs ev).1 ≡ none) ↔ Satisfies contract cs
unfolding preflight
preflight_iff cs contract ev e =
    let test = refused_iff cs contract in
    rw (e, preflight)
      (elim (Bool-cases (refused cs contract)) [
        | inl r ↦ rw r (λ h. cc, λ h. cc (r, test.1 h))
        | inr r ↦ rw r (λ _. test.0 r, λ _. refl)
      ])

-- What a refused `_preflight` leaves: no delivery, requirement, rule or pending count is touched,
-- and the error is kept for `check_success`.
pub record Untouched (failure : ReceiverFailure) (old new : Event) : Type 0 where
  pub results : new.event_results ≡ old.event_results
  pub rules : new.result_contracts ≡ old.result_contracts
  pub requirements : new.required_ids ≡ old.required_ids
  pub pending : new.pending_count ≡ old.pending_count
  pub kept : new.preflight_error ≡ some failure

-- A refused request has no side effect on the event but the kept error.
pub preflight_refused :
    (cs : List Receiver) (failure : ReceiverFailure) (ev : Event)
    → (preflight cs ev).1 ≡ some failure
    → Untouched failure ev (preflight cs ev).0
unfolding preflight
preflight_refused cs failure ev h = ground arith
