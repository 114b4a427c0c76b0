-- ===== src/Scope/Linking/Stored.antt =====
-- Where a scope stores connections, and what a disconnection leaves there.
use agent_cdp.Prelude.{
  ℕ, ◌≡◌, refl, ap, sym, ◌∙◌, Bool, true, false, Option, none, some, List, [], ◌∷◌, Dict, insert,
  lookup-insert, ◌==◌, ==_iff, if◌then◌else◌, if_ind, Bool-cases, inl, inr, ◌⊎◌, arith,
}
use agent_cdp.Connection.{Connection}
use agent_cdp.Scope.Matching.{Matcher, typed, holds, remove, remove_connection}
use agent_cdp.Scope.Emission.{EventScope, World, put_scope}
use agent_cdp.Scope.Linking.{
  disconnect, remove_incoming, remove_from_target, remove_from_source, set_active,
}
use agent_cdp.Scope.Linking.Disconnected.{disconnect-inactive, target_active}

-- The lists of a scope.
pub data Place : Type 0 where
  in_type : ℕ → Place
  catch_all incoming : Place

abbrev pub list_at : Place → EventScope → List Connection
list_at (in_type cls) s = typed cls s.matcher.connections_by_type
list_at catch_all s = s.matcher.catch_all_connections
list_at incoming s = s.incoming

abbrev pub is_stored : ℕ → Place → EventScope → Bool
is_stored id place s = holds id (list_at place s)

module _ (id d : ℕ) (other : (id == d) ≡ false) where
  -- Taking one connection out leaves every other where it is.
  holds-remove : (cs : List Connection) → holds id (remove d cs) ≡ holds id cs
  holds-remove [] = refl
  holds-remove (c ∷ cs) = ground (arith, holds-remove cs)

pub typed-insert :
    (cls k : ℕ) (cs : List Connection) (by_type : Dict (List Connection))
    → typed cls (insert k cs by_type) ≡ (if cls == k then cs else typed cls by_type)
typed-insert cls k cs by_type = ground (arith, lookup-insert k cls cs by_type)

module _ (id : ℕ) (c : Connection) (other : (id == c.id) ≡ false) where
  removed-typed :
      (cls : ℕ) (m : Matcher)
      → holds id (typed cls (remove_connection c m).connections_by_type)
        ≡ holds id (typed cls m.connections_by_type)
  unfolding remove_connection
  removed-typed cls m =
      let k = c.event_type in
      let by_type = m.connections_by_type in
      ground (
        arith,
        typed-insert cls k (remove c.id (typed k by_type)) by_type,
        holds-remove id c.id other (typed k by_type),
        ap (λ j. holds id (typed j by_type)) {x = cls} {y = k},
      )

  removed-catch_all :
      (m : Matcher)
      → holds id (remove_connection c m).catch_all_connections ≡ holds id m.catch_all_connections
  unfolding remove_connection
  removed-catch_all m = ground (arith, holds-remove id c.id other m.catch_all_connections)

  removed-incoming : (cs : List Connection) → holds id (remove_incoming c cs) ≡ holds id cs
  removed-incoming cs = ground (arith, holds-remove id c.id other cs)

  removed-stored :
      (place : Place) (s : EventScope)
      → is_stored id place (record s { matcher = remove_connection c s.matcher })
        ≡ is_stored id place s
  removed-stored (Place.in_type cls) s = removed-typed cls s.matcher
  removed-stored Place.catch_all s = removed-catch_all s.matcher
  removed-stored Place.incoming s = refl

  unheard-stored :
      (place : Place) (s : EventScope)
      → is_stored id place (record s { incoming = remove_incoming c s.incoming })
        ≡ is_stored id place s
  unheard-stored (Place.in_type cls) s = refl
  unheard-stored Place.catch_all s = refl
  unheard-stored Place.incoming s = removed-incoming s.incoming

  put-stored :
      (place : Place) (k t : ℕ) (s : EventScope) (w : World)
      → is_stored id place s ≡ is_stored id place (w.scopes k)
      → is_stored id place ((put_scope k s w).scopes t) ≡ is_stored id place (w.scopes t)
  put-stored place k t s w h =
      if_ind (λ r. is_stored id place r ≡ is_stored id place (w.scopes t)) (t == k) s (w.scopes t)
        (λ same. h ∙ ap (λ i. is_stored id place (w.scopes i)) (sym ((==_iff t k).0 same)))
        (λ _. refl)

  from_target-stored :
      (place : Place) (t : ℕ) (target : Option ℕ) (w : World)
      → is_stored id place ((remove_from_target c target w).scopes t)
        ≡ is_stored id place (w.scopes t)
  from_target-stored place t none w = refl
  from_target-stored place t (some k) w =
      put-stored place k t _ w (unheard-stored place (w.scopes k))

  -- A disconnection leaves every other connection where it is stored.
  pub disconnect-stored :
      (place : Place) (t : ℕ) (w : World)
      → is_stored id place ((disconnect c w).scopes t) ≡ is_stored id place (w.scopes t)
  unfolding disconnect
  disconnect-stored place t w =
      if_ind (λ (v : World). is_stored id place (v.scopes t) ≡ is_stored id place (w.scopes t))
        (w.active c.id) _ w
        (λ _.
          let off = set_active c.id false w in
          from_target-stored place t c.target_scope (remove_from_source c off)
          ∙ put-stored place c.source_scope t _ off
              (removed-stored place (w.scopes c.source_scope)))
        (λ _. refl)

-- What is inactive stays so.
pub disconnect_stays :
    (id : ℕ) (c : Connection) (w : World) → w.active id ≡ false → (disconnect c w).active id ≡ false
unfolding disconnect
disconnect_stays id c w off =
    if_ind (λ (v : World). v.active id ≡ false) (w.active c.id) _ w
      (λ _.
        ap (λ (f : ℕ → Bool). f id)
          (target_active c c.target_scope (remove_from_source c (set_active c.id false w)))
        ∙ if_ind (λ b. b ≡ false) (id == c.id) false (w.active id) (λ _. refl) (λ _. off))
      (λ _. off)

-- A connection of the scope `t` is still stored, or it is inactive.
abbrev pub IsCovered : ℕ → Place → ℕ → World → Type 0
IsCovered id place t w = (is_stored id place (w.scopes t) ≡ true) ⊎ (w.active id ≡ false)

pub disconnect-IsCovered :
    (id : ℕ) (place : Place) (t : ℕ) (c : Connection) (w : World)
    → IsCovered id place t w
    → IsCovered id place t (disconnect c w)
disconnect-IsCovered id place t c w (inr off) = inr (disconnect_stays id c w off)
disconnect-IsCovered id place t c w (inl stored) = elim (Bool-cases (id == c.id)) [
  | inl same ↦ inr (ap (disconnect c w).active ((==_iff id c.id).0 same) ∙ disconnect-inactive c w)
  | inr other ↦ inl (disconnect-stored id c other place t w ∙ stored)
]

-- The queue of a scope is left alone, too.
pub put-loop :
    (k t : ℕ) (s : EventScope) (w : World)
    → s.event_loop ≡ (w.scopes k).event_loop
    → ((put_scope k s w).scopes t).event_loop ≡ (w.scopes t).event_loop
put-loop k t s w h =
    if_ind (λ (r : EventScope). r.event_loop ≡ (w.scopes t).event_loop) (t == k) s (w.scopes t)
      (λ same. h ∙ ap (λ i. (w.scopes i).event_loop) (sym ((==_iff t k).0 same))) (λ _. refl)

target-loop :
    (c : Connection) (target : Option ℕ) (t : ℕ) (w : World)
    → ((remove_from_target c target w).scopes t).event_loop ≡ (w.scopes t).event_loop
target-loop c none t w = refl
target-loop c (some k) t w = put-loop k t _ w refl

pub disconnect-loop :
    (c : Connection) (t : ℕ) (w : World)
    → ((disconnect c w).scopes t).event_loop ≡ (w.scopes t).event_loop
unfolding disconnect
disconnect-loop c t w =
    if_ind (λ (v : World). (v.scopes t).event_loop ≡ (w.scopes t).event_loop) (w.active c.id) _ w
      (λ _.
        let off = set_active c.id false w in
        target-loop c c.target_scope t (remove_from_source c off)
        ∙ put-loop c.source_scope t _ off refl)
      (λ _. refl)
