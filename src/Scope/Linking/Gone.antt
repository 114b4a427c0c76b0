-- ===== src/Scope/Linking/Gone.antt =====
-- A disconnection as a whole: what it takes out of the scopes, and what it leaves there.
use mathlib.Core.Path.{subst}
use agent_cdp.Prelude.{
  ℕ, ◌≡◌, refl, ap, sym, ◌∙◌, Bool, true, false, ◌&&◌, Option, none, some, List, [], ◌∷◌, All,
  insert, ◌==◌, ==_iff, ==_refl, if_ind, if_true, Bool-cases, inl, inr, arith,
}
use agent_cdp.Connection.{Connection}
use agent_cdp.Scope.Matching.{
  Matcher, typed, holds, remove, remove_connection, get_matching_connections,
}
use agent_cdp.Scope.Emission.{EventScope, World, put_scope}
use agent_cdp.Scope.Linking.{
  disconnect, remove_incoming, remove_from_target, remove_from_source, set_active,
}
use agent_cdp.Scope.Linking.Disconnected.{disconnect-get_matching_connections}
use agent_cdp.Scope.Linking.Stored.{Place, is_stored, typed-insert, disconnect-stored}

-- No two connections of a list have the same identifier.
abbrev pub Distinct : List Connection → Type 0
Distinct [] = Unit
Distinct (c ∷ cs) = (holds c.id cs ≡ false) × Distinct cs

holds-remove_self : (id : ℕ) (cs : List Connection) → Distinct cs → holds id (remove id cs) ≡ false
holds-remove_self id [] h = refl
holds-remove_self id (c ∷ cs) (alone, h) = elim (Bool-cases (id == c.id)) [
  | inl same ↦ rw same (ap (λ j. holds j cs) ((==_iff id c.id).0 same) ∙ alone)
  | inr other ↦ rw (other, other) (holds-remove_self id cs h)
]

removed_incoming :
    (c : Connection) (cs : List Connection)
    → Distinct cs
    → holds c.id (remove_incoming c cs) ≡ false
removed_incoming c cs h =
    if_ind (λ ds. holds c.id ds ≡ false) (holds c.id cs) _ _ (λ _. holds-remove_self c.id cs h)
      (λ absent. absent)

only_one : (a b : Bool) → a ≡ true → (a && b) ≡ false → b ≡ false
only_one a b h k = ground arith

module _ (c : Connection) (m : Matcher) where
  -- The two lists of the source that may have the connection; it stands in one of them at most.
  pub record IsFiled : Type 0 where
    pub by_type : Distinct (typed c.event_type m.connections_by_type)
    pub rest : Distinct m.catch_all_connections
    pub single :
        (holds c.id (typed c.event_type m.connections_by_type)
          && holds c.id m.catch_all_connections)
        ≡ false

  abbrev Cleared : Matcher → Type 0
  Cleared n =
      (holds c.id (typed c.event_type n.connections_by_type) ≡ false)
      × (holds c.id n.catch_all_connections ≡ false)

  typed_here :
      (cs : List Connection)
      → typed c.event_type (insert c.event_type cs m.connections_by_type) ≡ cs
  typed_here cs =
      typed-insert c.event_type c.event_type cs m.connections_by_type
      ∙ if_true (c.event_type == c.event_type) cs (typed c.event_type m.connections_by_type)
          (==_refl c.event_type)

  removed-Cleared : IsFiled → Cleared (remove_connection c m)
  unfolding remove_connection
  removed-Cleared filed =
      let here = typed c.event_type m.connections_by_type in
      if_ind Cleared (holds c.id here) _ _
        (λ e. (
          ap (holds c.id) (typed_here (remove c.id here))
              ∙ holds-remove_self c.id here filed.by_type,
          only_one (holds c.id here) (holds c.id m.catch_all_connections) e filed.single,
        ))
        (λ absent.
          if_ind Cleared (holds c.id m.catch_all_connections) _ _
            (λ _. (absent, holds-remove_self c.id m.catch_all_connections filed.rest))
            (λ nowhere. (absent, nowhere)))

put_scope_self : (t : ℕ) (s : EventScope) (w : World) → (put_scope t s w).scopes t ≡ s
put_scope_self t s w = if_true (t == t) s (w.scopes t) (==_refl t)

module _ (c : Connection) where
  -- The incoming connections of the target, if there is one.
  abbrev pub TargetIsFiled : Option ℕ → World → Type 0
  TargetIsFiled none w = Unit
  TargetIsFiled (some t) w = Distinct (w.scopes t).incoming

  abbrev pub IsUnheard : Option ℕ → World → Type 0
  IsUnheard none w = Unit
  IsUnheard (some t) w = is_stored c.id Place.incoming (w.scopes t) ≡ false

  put-incoming :
      (k t : ℕ) (s : EventScope) (w : World)
      → s.incoming ≡ (w.scopes k).incoming
      → ((put_scope k s w).scopes t).incoming ≡ (w.scopes t).incoming
  put-incoming k t s w h =
      if_ind (λ (r : EventScope). r.incoming ≡ (w.scopes t).incoming) (t == k) s (w.scopes t)
        (λ same. h ∙ ap (λ i. (w.scopes i).incoming) (sym ((==_iff t k).0 same))) (λ _. refl)

  put-matcher :
      (k t : ℕ) (s : EventScope) (w : World)
      → s.matcher ≡ (w.scopes k).matcher
      → ((put_scope k s w).scopes t).matcher ≡ (w.scopes t).matcher
  put-matcher k t s w h =
      if_ind (λ (r : EventScope). r.matcher ≡ (w.scopes t).matcher) (t == k) s (w.scopes t)
        (λ same. h ∙ ap (λ i. (w.scopes i).matcher) (sym ((==_iff t k).0 same))) (λ _. refl)

  target-matcher :
      (target : Option ℕ) (t : ℕ) (w : World)
      → ((remove_from_target c target w).scopes t).matcher ≡ (w.scopes t).matcher
  target-matcher none t w = refl
  target-matcher (some k) t w = put-matcher k t _ w refl

  target-IsUnheard :
      (target : Option ℕ) (w : World)
      → TargetIsFiled target w
      → IsUnheard target (remove_from_target c target w)
  target-IsUnheard none w h = tt
  target-IsUnheard (some t) w h =
      ap (λ (s : EventScope). holds c.id s.incoming) (put_scope_self t _ w)
      ∙ removed_incoming c (w.scopes t).incoming h

  source-TargetIsFiled :
      (target : Option ℕ) (w : World)
      → TargetIsFiled target w
      → TargetIsFiled target (remove_from_source c w)
  source-TargetIsFiled none w h = tt
  source-TargetIsFiled (some t) w h =
      let source = w.scopes c.source_scope in
      subst Distinct
        (sym (
          put-incoming c.source_scope t
            (record source { matcher = remove_connection c source.matcher }) w refl))
        h

  inactive-TargetIsFiled :
      (target : Option ℕ) (w : World)
      → TargetIsFiled target w
      → TargetIsFiled target (set_active c.id false w)
  inactive-TargetIsFiled none w h = tt
  inactive-TargetIsFiled (some t) w h = h

  abbrev from_source : World → World
  from_source w = remove_from_source c (set_active c.id false w)

  disconnected :
      (w : World)
      → w.active c.id ≡ true
      → disconnect c w ≡ remove_from_target c c.target_scope (from_source w)
  unfolding disconnect
  disconnected w on =
      if_true (w.active c.id) (remove_from_target c c.target_scope (from_source w)) w on

  gone_from_source :
      (w : World)
      → w.active c.id ≡ true
      → IsFiled c (w.scopes c.source_scope).matcher
      → Cleared c (w.scopes c.source_scope).matcher ((disconnect c w).scopes c.source_scope).matcher
  gone_from_source w on filed =
      let source = w.scopes c.source_scope in
      subst (Cleared c source.matcher)
        (sym (
          ap (λ (v : World). (v.scopes c.source_scope).matcher) (disconnected w on)
          ∙ target-matcher c.target_scope c.source_scope (from_source w)
          ∙ ap (λ (s : EventScope). s.matcher)
              (put_scope_self c.source_scope
                (record source { matcher = remove_connection c source.matcher })
                (set_active c.id false w))))
        (removed-Cleared c source.matcher filed)

  -- What a disconnection has done.
  pub record Gone (w w' : World) : Type 0 where
    pub unanswered :
        (mro : ℕ → List ℕ) (event_type : ℕ) (m : Matcher)
        → All
            (λ (d : Connection). (d.id == c.id) ≡ false)
            (get_matching_connections mro w'.active event_type m).1
    pub by_type : is_stored c.id (Place.in_type c.event_type) (w'.scopes c.source_scope) ≡ false
    pub rest : is_stored c.id Place.catch_all (w'.scopes c.source_scope) ≡ false
    pub incoming : IsUnheard c.target_scope w'
    pub others :
        (id : ℕ)
        → (id == c.id) ≡ false
        → (place : Place) (t : ℕ)
        → is_stored id place (w'.scopes t) ≡ is_stored id place (w.scopes t)

  -- The disconnection of a connection that is active takes it out of the lists of its source and of
  -- its target, and leaves every other connection where it is; no lookup of any scope that comes
  -- after it answers with the connection, whatever stands in the scope's caches. This needs lists
  -- in which no identifier occurs twice, and a connection in one list of its source at most.
  pub disconnect-Gone :
      (w : World)
      → w.active c.id ≡ true
      → IsFiled c (w.scopes c.source_scope).matcher
      → TargetIsFiled c.target_scope w
      → Gone w (disconnect c w)
  disconnect-Gone w on filed target = record {
    unanswered = disconnect-get_matching_connections c w;
    by_type = (gone_from_source w on filed).0;
    rest = (gone_from_source w on filed).1;
    incoming = subst (IsUnheard c.target_scope) (sym (disconnected w on)) (
        target-IsUnheard c.target_scope (from_source w) (
          source-TargetIsFiled c.target_scope (set_active c.id false w)
            (inactive-TargetIsFiled c.target_scope w target)));
    others = λ id other place t. disconnect-stored id c other place t w;
  }
