-- ===== src/Scope/Closing/Retained.antt =====
-- The resources of a scope that are not cleaned up yet stay with it (`Closing`).
use mathlib.Core.Path.{subst}
use agent_cdp.Prelude.{
  contains-added, ℕ, ◌≡◌, ◌≢◌, refl, sym, ap, ◌∙◌, Bool, true, false, ◌||◌, List, [], ◌∷◌, ◌++◌,
  contains, inl, inr, if◌then◌else◌, ◌==◌, Bool-cases, if_ind, ==_iff, arith, drop_first,
}
use agent_cdp.Events.Values.{Exc, is_cancelled, Outcome, return, raise}
use agent_cdp.Scope.Closing.{
  Resources, Called, TaskStatus, add_missing, remove_close_callback, restore, start_one, start_each,
  called_back, joined, popped, collected, collect_each, close_resources,
}

contains-add_missing :
    (j k : ℕ) (ks : List ℕ) → contains j (add_missing k ks) ≡ (contains j ks || j == k)
contains-add_missing j k ks = elim (Bool-cases (contains k ks)) [
  | inl h ↦ rw h (known (j == k) refl h)
  | inr h ↦ rw h (contains-added j k ks)
]
  where
    known : (b : Bool) → (j == k) ≡ b → contains k ks ≡ true → contains j ks ≡ (contains j ks || b)
    known false e h = ground arith
    known true e h = ap (λ i. contains i ks) ((==_iff j k).0 e) ∙ h ∙ ground arith

contains-drop_first :
    (j k : ℕ) (ks : List ℕ) → (j == k) ≡ false → contains j (drop_first k ks) ≡ contains j ks
contains-drop_first j k [] h = refl
contains-drop_first j k (i ∷ ks) h = ground (arith, contains-drop_first j k ks)

-- The task has cleaned up.
abbrev pub succeeded : TaskStatus → Bool
succeeded TaskStatus.ended = true
succeeded (TaskStatus.fails e) = is_cancelled e
succeeded _ = false

-- The scope has the callback, or its task.
abbrev pub is_held : ℕ → Resources → Bool
is_held j r = contains j r.close_callbacks || contains j r.cleanup_tasks

-- Where a loop is not interrupted, the scope has the callback.
abbrev Held {ℓ} : {A : Type ℓ} → ℕ → Resources × Outcome A → Type 0
Held j (r, return a) = is_held j r ≡ true
Held j (r, raise e) = Unit

drop-is_held :
    (j k : ℕ) (r : Resources)
    → (j == k) ≡ false
    → is_held j r ≡ true
    → is_held j (remove_close_callback k r) ≡ true
unfolding remove_close_callback
drop-is_held j k r ne h = ground (arith, contains-drop_first j k r.close_callbacks ne)

restore-is_held :
    (j k : ℕ) (r : Resources)
    → ((j == k) ≡ false → is_held j r ≡ true)
    → is_held j (restore k r) ≡ true
restore-is_held j k r h = ground (arith, contains-add_missing j k r.close_callbacks)

module _ (called : ℕ → Called) (withdraws : ℕ → Bool) (j : ℕ)
    (open_end : called j ≢ Called.finishes) where
  called_back-Held :
      (k : ℕ) (c : Called) (r : Resources)
      → called k ≡ c
      → ((j == k) ≡ false → is_held j r ≡ true)
      → Held j (called_back called withdraws k c r)
  called_back-Held k Called.finishes r e h = elim (Bool-cases (j == k)) [
    | inl same ↦ absurd (open_end (ap called ((==_iff j k).0 same) ∙ e))
    | inr ne ↦ drop-is_held j k r ne (h ne)
  ]
  called_back-Held k Called.awaits r e h = ground (arith, contains-added j k r.cleanup_tasks)
  called_back-Held k (Called.raises x) r e h =
      if_ind (Held j) (is_cancelled x) _ _ (λ _. tt) (λ _. restore-is_held j k r h)

  start_one-Held :
      (k : ℕ) (r : Resources) → is_held j r ≡ true → Held j (start_one called withdraws k r)
  unfolding start_one
  start_one-Held k r h =
      if_ind (Held j) (contains k r.cleanup_tasks) _ _ (λ _. h)
        (λ _.
          called_back-Held k (called k) (if withdraws k then remove_close_callback k r else r) refl
            (λ ne.
              if_ind (λ s. is_held j s ≡ true) (withdraws k) _ r (λ _. drop-is_held j k r ne h)
                (λ _. h)))

  joined-Held :
      (es : List Exc) (y : Resources × Outcome (List Exc))
      → Held j y
      → Held j (y.0, joined called withdraws (return es) y.1)
  joined-Held es (s, return fs) h = h
  joined-Held es (s, raise e) h = tt

  then_each :
      (ks : List ℕ)
      → ((s : Resources) → is_held j s ≡ true → Held j (start_each called withdraws ks s))
      → (x : Resources × Outcome (List Exc)) → Held j x
      → Held j (elim x.1 as (λ _. Resources × Outcome (List Exc)) [
        | raise e ↦ (x.0, raise e)
        | return es ↦ (
          (start_each called withdraws ks x.0).0,
          joined called withdraws (return es) (start_each called withdraws ks x.0).1,
        )
      ])
  then_each ks held (s, raise e) h = tt
  then_each ks held (s, return es) h = joined-Held es (start_each called withdraws ks s) (held s h)

  start_each-Held :
      (ks : List ℕ) (r : Resources) → is_held j r ≡ true → Held j (start_each called withdraws ks r)
  unfolding start_each
  start_each-Held [] r h = h
  start_each-Held (k ∷ ks) r h =
      then_each ks (start_each-Held ks) (start_one called withdraws k r) (start_one-Held k r h)

module _ (status : ℕ → TaskStatus) (j : ℕ) (unsuccessful : succeeded (status j) ≡ false) where
  popped-is_held :
      (k : ℕ) (r : Resources)
      → (j == k) ≡ false
      → is_held j r ≡ true
      → is_held j (popped status k r) ≡ true
  popped-is_held k r ne h = ground (arith, contains-drop_first j k r.cleanup_tasks ne)

  ended_well : (k : ℕ) (t : TaskStatus) → (j == k) ≡ true → status k ≡ t → succeeded t ≡ true → ⊥
  ended_well k t same e over =
      let here = ap status ((==_iff j k).0 same) ∙ e in
      cc (sym unsuccessful ∙ ap succeeded here ∙ over)

  collected-is_held :
      (k : ℕ) (t : TaskStatus) (r : Resources)
      → status k ≡ t
      → is_held j r ≡ true
      → is_held j (collected status k t r).0 ≡ true
  collected-is_held k TaskStatus.unfinished r e h = h
  collected-is_held k TaskStatus.ended r e h = elim (Bool-cases (j == k)) [
    | inl same ↦ absurd (ended_well k TaskStatus.ended same e refl)
    | inr ne ↦ drop-is_held j k (popped status k r) ne (popped-is_held k r ne h)
  ]
  collected-is_held k TaskStatus.was_cancelled r e h =
      restore-is_held j k (popped status k r) (λ ne. popped-is_held k r ne h)
  collected-is_held k (TaskStatus.fails x) r e h =
      if_ind (λ (y : Resources × List Exc). is_held j y.0 ≡ true) (is_cancelled x) _ _
        (λ over. elim (Bool-cases (j == k)) [
          | inl same ↦ absurd (ended_well k (TaskStatus.fails x) same e over)
          | inr ne ↦ drop-is_held j k (popped status k r) ne (popped-is_held k r ne h)
        ])
        (λ _. restore-is_held j k (popped status k r) (λ ne. popped-is_held k r ne h))

  collect_each-is_held :
      (ks : List ℕ) (r : Resources)
      → is_held j r ≡ true
      → is_held j (collect_each status ks r).0 ≡ true
  unfolding collect_each
  collect_each-is_held [] r h = h
  collect_each-is_held (k ∷ ks) r h =
      collect_each-is_held ks (collected status k (status k) r).0
        (collected-is_held k (status k) r refl h)

module _ (called : ℕ → Called) (withdraws : ℕ → Bool) (status : ℕ → TaskStatus) where
  then_collected :
      (j : ℕ)
      → succeeded (status j) ≡ false
      → (x : Resources × Outcome (List Exc)) → Held j x
      → Held j (elim x.1 as (λ _. Resources × Outcome (List Exc)) [
        | raise e ↦ (x.0, raise e)
        | return es ↦ (
          (collect_each status x.0.cleanup_tasks x.0).0,
          return (es ++ (collect_each status x.0.cleanup_tasks x.0).1),
        )
      ])
  then_collected j unsuccessful (s, raise e) h = tt
  then_collected j unsuccessful (s, return es) h =
      collect_each-is_held status j unsuccessful s.cleanup_tasks s h

  -- A `close` that is not interrupted by a callback's CancelledError loses no resource: a close
  -- callback of the scope, or one whose cleanup task still runs, is afterwards still among the
  -- callbacks or has its task, unless the call of it finished the cleanup or its task did. So a
  -- cleanup that raised, was cancelled or is not over is there for the next `close`.
  pub close_resources-retains :
      (j : ℕ) (r r' : Resources) (errors : List Exc)
      → close_resources called withdraws status r ≡ (r', return errors)
      → is_held j r ≡ true
      → called j ≢ Called.finishes
      → succeeded (status j) ≡ false
      → is_held j r' ≡ true
  unfolding close_resources
  close_resources-retains j r r' errors e held unfinished unsuccessful =
      let told = record r { closed = true } in
      let s = start_each called withdraws r.close_callbacks told in
      subst (Held j) e (
        then_collected j unsuccessful s
          (start_each-Held called withdraws j unfinished r.close_callbacks told held))
