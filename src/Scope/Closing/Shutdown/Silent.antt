-- ===== src/Scope/Closing/Shutdown/Silent.antt =====
-- A scope whose connections `close` has released dispatches nothing.
use agent_cdp.Prelude.{
  ℕ, ◌≡◌, refl, Bool, true, false, none, List, [], ◌∷◌, ◌++◌, All, Dict, keys, lookup, contains,
  is_empty, ◌==◌, ==_refl, if_ind, inl, inr, ltb_ℤ, arith,
}
use agent_cdp.Connection.{Connection}
use agent_cdp.Scope.Matching.{
  Matcher, typed, along, matching, holds, by_priority, place, rebuild, from_positive,
  clear_negative, find, only_active, clear_caches, get_matching_connections,
}
use agent_cdp.Scope.Emission.{World}
use agent_cdp.Scope.Linking.Stored.{Place, list_at, is_stored}
use agent_cdp.Scope.Closing.Shutdown.{disconnect_each, release}
use agent_cdp.Scope.Closing.Shutdown.Released.{
  release-inactive, each_back, typed_back, each_stays, typed_gone, all_gone,
}

module _ (active : ℕ → Bool) where
  -- None of the connections is active.
  abbrev AllOff : List Connection → Type 0
  AllOff cs = All (λ (c : Connection). active c.id ≡ false) cs

  holds-AllOff :
      (cs : List Connection) → ((id : ℕ) → holds id cs ≡ true → active id ≡ false) → AllOff cs
  holds-AllOff [] h = tt
  holds-AllOff (c ∷ cs) h = (h c.id (ground arith), holds-AllOff cs (λ id k. h id (ground arith)))

  AllOff-append : (cs ds : List Connection) → AllOff cs → AllOff ds → AllOff (cs ++ ds)
  AllOff-append [] ds h k = k
  AllOff-append (c ∷ cs) ds (h, hs) k = (h, AllOff-append cs ds hs k)

  place-AllOff :
      (c : Connection) (cs : List Connection)
      → active c.id ≡ false
      → AllOff cs
      → AllOff (place c cs)
  place-AllOff c [] h hs = (h, tt)
  place-AllOff c (d ∷ ds) h (k, ks) =
      if_ind AllOff (ltb_ℤ c.priority d.priority) _ _ (λ _. (k, place-AllOff c ds h ks))
        (λ _. (h, (k, ks)))

  by_priority-AllOff : (cs : List Connection) → AllOff cs → AllOff (by_priority cs)
  unfolding by_priority
  by_priority-AllOff [] h = tt
  by_priority-AllOff (c ∷ cs) (h, hs) = place-AllOff c (by_priority cs) h (by_priority-AllOff cs hs)

  only_active-AllOff : (cs : List Connection) → AllOff cs → only_active active cs ≡ []
  only_active-AllOff [] h = refl
  only_active-AllOff (c ∷ cs) (h, hs) = rw h (only_active-AllOff cs hs)

  -- Nothing that a scope stores is active.
  abbrev IsSilent : Matcher → Type 0
  IsSilent m =
      ((cls : ℕ) → AllOff (typed cls m.connections_by_type)) × AllOff m.catch_all_connections

  along-AllOff :
      (by_type : Dict (List Connection))
      → ((cls : ℕ) → AllOff (typed cls by_type))
      → (classes : List ℕ) → AllOff (along by_type classes)
  unfolding along
  along-AllOff by_type h [] = tt
  along-AllOff by_type h (cls ∷ classes) =
      AllOff-append (typed cls by_type) _ (h cls) (along-AllOff by_type h classes)

  rebuild-AllOff :
      (mro : ℕ → List ℕ) (event_type : ℕ) (m : Matcher)
      → IsSilent m
      → AllOff (rebuild mro event_type m).1
  unfolding rebuild matching
  rebuild-AllOff mro event_type m (typed_off, rest_off) =
      let found = matching mro event_type m in
      if_ind (λ (r : Matcher × List Connection). AllOff r.1) (is_empty found) _ _ (λ _. tt)
        (λ _. by_priority-AllOff found (
          AllOff-append (along m.connections_by_type (mro event_type)) m.catch_all_connections
            (along-AllOff m.connections_by_type typed_off (mro event_type)) rest_off))

  from_positive-AllOff :
      (mro : ℕ → List ℕ) (event_type : ℕ) (m : Matcher)
      → lookup event_type m.match_cache ≡ none
      → IsSilent m
      → AllOff (from_positive mro event_type m).1
  unfolding from_positive
  from_positive-AllOff mro event_type m e silent =
      rw (e, from_positive) (rebuild-AllOff mro event_type m silent)

  -- A lookup with no entry in the caches.
  find-AllOff :
      (mro : ℕ → List ℕ) (event_type : ℕ) (m : Matcher)
      → lookup event_type m.match_cache ≡ none
      → IsSilent m
      → AllOff (find mro event_type m).1
  unfolding find
  find-AllOff mro event_type m e silent =
      if_ind (λ (r : Matcher × List Connection). AllOff r.1)
        (m.negative_cache_version == m.connection_version) _ _
        (λ _.
          if_ind (λ (r : Matcher × List Connection). AllOff r.1)
            (contains event_type m.negative_cache) _ _ (λ _. tt)
            (λ _. from_positive-AllOff mro event_type m e silent))
        (λ _. from_positive-AllOff mro event_type (clear_negative m) e silent)

module _ (t : ℕ) (w : World) where
  -- The state before the caches are cleared.
  abbrev pub let_go : World
  let_go = disconnect_each (list_at Place.incoming ((all_gone t w).scopes t)) (all_gone t w)

  -- What is stored at the end is inactive.
  stored_inactive :
      (id : ℕ) (place : Place)
      → is_stored id place (let_go.scopes t) ≡ true
      → (release t w).active id ≡ false
  unfolding release
  stored_inactive id place stored =
      let gone = typed_gone t w in
      let rest = all_gone t w in
      elim (each_back id place t (list_at Place.incoming (rest.scopes t)) rest stored) [
        | inr off ↦ off
        | inl second ↦
            elim (each_back id place t (list_at Place.catch_all (gone.scopes t)) gone second) [
              | inr off ↦ each_stays id (list_at Place.incoming (rest.scopes t)) rest off
              | inl third ↦
                  elim (typed_back id place t (keys (w.scopes t).matcher.connections_by_type) w
                    third) [
                      | inr off ↦
                          each_stays id (list_at Place.incoming (rest.scopes t)) rest
                            (each_stays id (list_at Place.catch_all (gone.scopes t)) gone off)
                      | inl first ↦ release-inactive t w id place first
                    ]
            ]
      ]

  released_matcher : ((release t w).scopes t).matcher ≡ clear_caches (let_go.scopes t).matcher
  unfolding release
  released_matcher = rw (==_refl t)

  -- Afterwards no lookup of the scope finds a connection.
  pub release-silent :
      (mro : ℕ → List ℕ) (event_type : ℕ)
      → (get_matching_connections mro
          (release t w).active
          event_type
          ((release t w).scopes t).matcher).1
        ≡ []
  unfolding get_matching_connections clear_caches
  release-silent mro event_type =
      let active = (release t w).active in
      let m = clear_caches (let_go.scopes t).matcher in
      rw released_matcher (
        only_active-AllOff active (find mro event_type m).1 (
          find-AllOff active mro event_type m refl (
            λ cls. holds-AllOff active _ (λ id h. stored_inactive id (Place.in_type cls) h),
            holds-AllOff active _ (λ id h. stored_inactive id Place.catch_all h),
          )))
