-- ===== src/Scope/Group/Registry.antt =====
-- Which scopes a group keeps (`Group`).
use mathlib.Core.Path.{subst}
use agent_cdp.Prelude.{
  ℕ, ◌≡◌, refl, ap, sym, ◌∙◌, Bool, true, not, ◌||◌, Option, none, some, List, [], ◌∷◌, Dict,
  lookup, lookup-erase_ne, keys, ◌==◌, ==_iff, if_ind, Bool-cases, inl, inr, ◌⊎◌, ℤ, is_negative,
  arith,
}
use agent_cdp.Events.Values.{Outcome, return, raise, ◌>>=◌}
use agent_cdp.Scope.Closing.{Resources, CloseResult}
use agent_cdp.Scope.Closing.Shutdown.{Closing, close}
use agent_cdp.Scope.Group.{
  Group, Surroundings, close_at, close_found, close_scope, dropped, gather, errors_in, results_in,
  close_all,
}

module _ (surroundings : ℕ → Surroundings) (graceful : Bool) (timeout : ℤ) where
  -- What is closed stays so.
  close_at-is_closed :
      (at : ℕ) (s : Closing)
      → s.resources.is_closed ≡ true
      → (close_at surroundings graceful timeout at s).0.resources.is_closed ≡ true
  unfolding close_at close
  close_at-is_closed at s h =
      let StaysClosed = λ (x : Closing × Outcome CloseResult). x.0.resources.is_closed ≡ true in
      if_ind StaysClosed (is_negative timeout) _ _ (λ _. h)
        (λ _.
          if_ind StaysClosed (not (surroundings at).got_lock || s.resources.is_closed) _ _ (λ _. h)
            (λ e. ground arith))

  -- A scope of the group is still there, under its identifier, or it is closed.
  abbrev pub IsKept : ℕ → ℕ → Group → Type 0
  IsKept id at g = (lookup id g.scopes ≡ some at) ⊎ ((g.resources at).is_closed ≡ true)

  module _ (id at k ref : ℕ) (s : Closing) (g : Group) where
    -- The resources of one scope are written.
    written :
        ((g.resources ref).is_closed ≡ true → s.resources.is_closed ≡ true)
        → (g.resources at).is_closed ≡ true
        → ((dropped surroundings graceful timeout k ref s g).resources at).is_closed ≡ true
    written stays closed =
        if_ind (λ (r : Resources). r.is_closed ≡ true) (at == ref) _ _
          (λ e. stays (ap (λ j. (g.resources j).is_closed) (sym ((==_iff at ref).0 e)) ∙ closed))
          (λ _. closed)

    -- The identifier is that of the scope that is closed.
    found :
        s.resources.is_closed ≡ true
        → (id == k) ≡ true
        → lookup id g.scopes ≡ some at
        → lookup k g.scopes ≡ some ref
        → ((dropped surroundings graceful timeout k ref s g).resources at).is_closed ≡ true
    found done same there own =
        if_ind (λ (r : Resources). r.is_closed ≡ true) (at == ref) _ _ (λ _. done)
          (λ e.
            let alike : (some at ≡ some ref) =
              sym there ∙ ap (λ j. lookup j g.scopes) ((==_iff id k).0 same) ∙ own in
            ground arith)

    dropped-IsKept :
        ((g.resources ref).is_closed ≡ true → s.resources.is_closed ≡ true)
        → lookup k g.scopes ≡ some ref
        → IsKept id at g
        → IsKept id at (dropped surroundings graceful timeout k ref s g)
    dropped-IsKept stays own (inr closed) = inr (written stays closed)
    dropped-IsKept stays own (inl there) = elim (Bool-cases s.resources.is_closed) [
      | inr unfinished ↦ inl (rw unfinished there)
      | inl done ↦ elim (Bool-cases (id == k)) [
        | inr other ↦ inl (rw done (lookup-erase_ne id k g.scopes other ∙ there))
        | inl same ↦ inr (found done same there own)
      ]
    ]

  close_found-IsKept :
      (id at k : ℕ) (g : Group) (ref : Option ℕ)
      → lookup k g.scopes ≡ ref
      → IsKept id at g
      → IsKept id at (close_found surroundings graceful timeout k ref g).0
  close_found-IsKept id at k g none own kept = kept
  close_found-IsKept id at k g (some ref) own kept =
      let before : Closing = record { world = g.world; resources = g.resources ref } in
      dropped-IsKept id at k ref (close_at surroundings graceful timeout ref before).0 g
        (close_at-is_closed ref before) own kept

  gather-IsKept :
      (id at : ℕ) (ids : List ℕ) (g : Group)
      → IsKept id at g
      → IsKept id at (gather surroundings graceful timeout ids g).0
  unfolding gather close_scope
  gather-IsKept id at [] g kept = kept
  gather-IsKept id at (k ∷ ids) g kept =
      gather-IsKept id at ids (close_scope surroundings graceful timeout k g).0
        (close_found-IsKept id at k g (lookup k g.scopes) refl kept)

  gather-keys :
      (ids : List ℕ) (g : Group) → keys (gather surroundings graceful timeout ids g).1 ≡ ids
  unfolding gather
  gather-keys [] g = refl
  gather-keys (k ∷ ids) g =
      ap (λ ks. k ∷ ks) (gather-keys ids (close_scope surroundings graceful timeout k g).0)

  -- The results have the identifiers of the outcomes, in their order.
  abbrev pub Answers : List ℕ → Outcome (Dict CloseResult) → Type 0
  Answers ids (raise e) = Unit
  Answers ids (return d) = keys d ≡ ids

  results_in-Answers :
      (outcomes : List (ℕ × Outcome CloseResult))
      → Answers (keys outcomes) (results_in surroundings graceful timeout outcomes)
  results_in-Answers [] = refl
  results_in-Answers ((k, raise e) ∷ outcomes) = tt
  results_in-Answers ((k, return result) ∷ outcomes) =
      one_more (results_in surroundings graceful timeout outcomes) (results_in-Answers outcomes)
    where
      one_more :
          (rest : Outcome (Dict CloseResult))
          → Answers (keys outcomes) rest
          → Answers (k ∷ keys outcomes) (rest >>= λ results. return ((k, result) ∷ results))
      one_more (raise e) h = tt
      one_more (return d) h = ap (λ ks. k ∷ ks) h

  -- `close_all` takes a scope out of the group only once its `close` is complete: a scope that the
  -- group had is still there under its identifier, or it is closed, whatever the callbacks of the
  -- scopes do and whatever is raised. If `close_all` returns, it gives a result for every scope
  -- that the group had, in their order.
  pub close_all-IsKept :
      (g : Group) (id at : ℕ)
      → lookup id g.scopes ≡ some at
      → IsKept id at (close_all surroundings graceful timeout g).0
        × Answers (keys g.scopes) (close_all surroundings graceful timeout g).1
  unfolding close_all
  close_all-IsKept g id at there =
      let outcomes = (gather surroundings graceful timeout (keys g.scopes) g).1 in
      (
        gather-IsKept id at (keys g.scopes) g (inl there),
        if_ind (Answers (keys g.scopes)) (errors_in surroundings graceful timeout outcomes == 0) _ _
            (λ _.
              subst (λ ids. Answers ids (results_in surroundings graceful timeout outcomes))
                (gather-keys (keys g.scopes) g) (results_in-Answers outcomes))
            (λ _. tt),
      )
