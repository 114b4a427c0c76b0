-- ===== src/Scope/Matching/History.antt =====
-- The connections of a scope through any history of changes and lookups.
use agent_cdp.Prelude.{
  ℕ, Bool-cases, inl, inr, ◌≡◌, refl, ap, ◌∙◌, Bool, false, List, [], ◌∷◌, All, select, ltb_ℤ, ℤ,
  arith,
}
use agent_cdp.Connection.{Connection}
use agent_cdp.Scope.Matching.{
  Matcher, no_connections, matching, only_active, by_priority, get_matching_connections,
  add_connection, add_catch_all, remove_connection, clear_caches,
}
use agent_cdp.Scope.Matching.Order.{
  Descending, of_priority, eq_ℤ, by_priority-Descending, by_priority-stable,
}
use agent_cdp.Scope.Matching.Coherence.{Coherent, find-Answer}
use agent_cdp.Scope.Matching.Versions.{
  add_connection-Coherent, add_catch_all-Coherent, remove_connection-Coherent,
  clear_caches-Coherent, no_connections-Coherent,
}

-- What may happen to the connections of a scope.
pub data Change : Type 0 where
  adds adds_catch_all removes : Connection → Change
  looks_up : (active : ℕ → Bool) (event_type : ℕ) → Change
  clears : Change

unfoldable pub change : (ℕ → List ℕ) → Matcher → Change → Matcher
change mro m (Change.adds c) = add_connection c m
change mro m (Change.adds_catch_all c) = add_catch_all c m
change mro m (Change.removes c) = remove_connection c m
change mro m (Change.looks_up active event_type) =
    (get_matching_connections mro active event_type m).0
change mro m Change.clears = clear_caches m

unfoldable pub changes : (ℕ → List ℕ) → Matcher → List Change → Matcher
changes mro m [] = m
changes mro m (c ∷ cs) = changes mro (change mro m c) cs

change-Coherent :
    (mro : ℕ → List ℕ) (m : Matcher) (c : Change) → Coherent mro m → Coherent mro (change mro m c)
unfolding change get_matching_connections
change-Coherent mro m (Change.adds c) h = add_connection-Coherent mro c m h
change-Coherent mro m (Change.adds_catch_all c) h = add_catch_all-Coherent mro c m h
change-Coherent mro m (Change.removes c) h = remove_connection-Coherent mro c m h
change-Coherent mro m (Change.looks_up active event_type) h =
    (find-Answer mro event_type m h).coherent
change-Coherent mro m Change.clears h = clear_caches-Coherent mro m h

changes-Coherent :
    (mro : ℕ → List ℕ) (m : Matcher) (cs : List Change)
    → Coherent mro m
    → Coherent mro (changes mro m cs)
unfolding changes
changes-Coherent mro m [] h = h
changes-Coherent mro m (c ∷ cs) h =
    changes-Coherent mro (change mro m c) cs (change-Coherent mro m c h)

-- After any history of a scope's connections and lookups, a lookup answers with what the walk over
-- the class's method resolution order and the catch-all connections finds now, by priority, less
-- the connections that are no longer active; and it leaves the connections themselves alone.
pub get_matching_connections_lem :
    (mro : ℕ → List ℕ) (active : ℕ → Bool) (event_type : ℕ) (history : List Change)
    → let m = changes mro no_connections history in
      let (m', cs) = get_matching_connections mro active event_type m in
      (cs ≡ only_active active (by_priority (matching mro event_type m)))
      × (m'.connections_by_type ≡ m.connections_by_type)
      × (m'.catch_all_connections ≡ m.catch_all_connections)
unfolding get_matching_connections
get_matching_connections_lem mro active event_type history =
    let m = changes mro no_connections history in
    let a =
      find-Answer mro event_type m
        (changes-Coherent mro no_connections history (no_connections-Coherent mro)) in
    (ap (only_active active) a.answer, a.same_typed, a.same_catch_all)

All-select :
    (P : Connection → Type 0) (q : Connection → Bool) (cs : List Connection)
    → All P cs
    → All P (select q cs)
All-select P q [] h = tt
All-select P q (c ∷ cs) h = elim (Bool-cases (q c)) [
  | inl e ↦ rw e (h.0, All-select P q cs h.1)
  | inr e ↦ rw e (All-select P q cs h.1)
]

select-Descending :
    (q : Connection → Bool) (cs : List Connection) → Descending cs → Descending (select q cs)
select-Descending q [] h = tt
select-Descending q (c ∷ cs) h = elim (Bool-cases (q c)) [
  | inl e ↦
      rw e
        (All-select (λ d. ltb_ℤ c.priority d.priority ≡ false) q cs h.0, select-Descending q cs h.1)
  | inr e ↦ rw e (select-Descending q cs h.1)
]

select_comm :
    (p q : Connection → Bool) (cs : List Connection)
    → select p (select q cs) ≡ select q (select p cs)
select_comm p q [] = refl
select_comm p q (c ∷ cs) = ground (arith, select_comm p q cs)

-- Dispatch goes by descending priority, and among connections of one priority in the order of the
-- walk (most derived class first, registration order within a class, catch-all last); the active
-- connections are all there and no other.
pub dispatch_order :
    (mro : ℕ → List ℕ) (active : ℕ → Bool) (event_type : ℕ) (history : List Change)
    → let m = changes mro no_connections history in
      let cs = (get_matching_connections mro active event_type m).1 in
      Descending cs
      × ((p : ℤ)
          → of_priority p cs ≡ only_active active (of_priority p (matching mro event_type m)))
dispatch_order mro active event_type history =
    let m = changes mro no_connections history in
    let found = matching mro event_type m in
    let (same, _, _) = get_matching_connections_lem mro active event_type history in
    rw same (
      select-Descending (λ c. active c.id) (by_priority found) (by_priority-Descending found),
      λ p.
          select_comm (λ c. eq_ℤ p c.priority) (λ c. active c.id) (by_priority found)
          ∙ ap (only_active active) (by_priority-stable p found),
    )
