-- ===== src/Scope/Closing/Shutdown/Released.antt =====
-- What a complete `close` does to the connections of its scope.
use mathlib.Core.Path.{subst}
use agent_cdp.Prelude.{
  ℕ, ◌≡◌, ap, sym, ◌∙◌, true, false, List, [], ◌∷◌, Dict, keys, contains, ◌==◌, ==_iff, Bool-cases,
  inl, inr, ◌⊎◌, arith,
}
use agent_cdp.Connection.{Connection}
use agent_cdp.Scope.Matching.{typed, holds}
use agent_cdp.Scope.Emission.{World}
use agent_cdp.Scope.Linking.{disconnect}
use agent_cdp.Scope.Linking.Disconnected.{disconnect-inactive}
use agent_cdp.Scope.Linking.Stored.{
  Place, list_at, is_stored, disconnect-stored, disconnect_stays, IsCovered, disconnect-IsCovered,
}
use agent_cdp.Scope.Closing.Shutdown.{disconnect_each, disconnect_typed, release}

pub each_stays :
    (id : ℕ) (cs : List Connection) (w : World)
    → w.active id ≡ false
    → (disconnect_each cs w).active id ≡ false
unfolding disconnect_each
each_stays id [] w off = off
each_stays id (c ∷ cs) w off = each_stays id cs (disconnect c w) (disconnect_stays id c w off)

-- Each connection of the list is inactive at the end.
pub each_inactive :
    (id : ℕ) (cs : List Connection) (w : World)
    → holds id cs ≡ true
    → (disconnect_each cs w).active id ≡ false
unfolding disconnect_each
each_inactive id [] w h = cc
each_inactive id (c ∷ cs) w h = elim (Bool-cases (id == c.id)) [
  | inl same ↦
      each_stays id cs (disconnect c w)
        (ap (disconnect c w).active ((==_iff id c.id).0 same) ∙ disconnect-inactive c w)
  | inr other ↦ each_inactive id cs (disconnect c w) (ground arith)
]

module _ (id : ℕ) (place : Place) (t : ℕ) where
  each-IsCovered :
      (cs : List Connection) (w : World)
      → IsCovered id place t w
      → IsCovered id place t (disconnect_each cs w)
  unfolding disconnect_each
  each-IsCovered [] w h = h
  each-IsCovered (c ∷ cs) w h =
      each-IsCovered cs (disconnect c w) (disconnect-IsCovered id place t c w h)

  typed-IsCovered :
      (classes : List ℕ) (w : World)
      → IsCovered id place t w
      → IsCovered id place t (disconnect_typed t classes w)
  unfolding disconnect_typed
  typed-IsCovered [] w h = h
  typed-IsCovered (cls ∷ classes) w h =
      typed-IsCovered classes _ (each-IsCovered (list_at (Place.in_type cls) (w.scopes t)) w h)

  -- The turn of its list has come.
  turn :
      (w : World)
      → IsCovered id place t w
      → (disconnect_each (list_at place (w.scopes t)) w).active id ≡ false
  turn w (inl stored) = each_inactive id (list_at place (w.scopes t)) w stored
  turn w (inr off) = each_stays id (list_at place (w.scopes t)) w off

typed_stays :
    (id t : ℕ) (classes : List ℕ) (w : World)
    → w.active id ≡ false
    → (disconnect_typed t classes w).active id ≡ false
unfolding disconnect_typed
typed_stays id t [] w off = off
typed_stays id t (cls ∷ classes) w off =
    typed_stays id t classes _ (each_stays id (list_at (Place.in_type cls) (w.scopes t)) w off)

typed_inactive :
    (id t cls : ℕ) (classes : List ℕ) (w : World)
    → contains cls classes ≡ true
    → IsCovered id (Place.in_type cls) t w
    → (disconnect_typed t classes w).active id ≡ false
unfolding disconnect_typed
typed_inactive id t cls [] w h k = cc
typed_inactive id t cls (k ∷ classes) w h covered = elim (Bool-cases (cls == k)) [
  | inl same ↦ typed_stays id t classes _ (
      subst (λ i. (disconnect_each (list_at (Place.in_type i) (w.scopes t)) w).active id ≡ false)
        ((==_iff cls k).0 same) (turn id (Place.in_type cls) t w covered))
  | inr other ↦
      typed_inactive id t cls classes _ (ground arith)
        (each-IsCovered id (Place.in_type cls) t (list_at (Place.in_type k) (w.scopes t)) w covered)
]

-- A class with a connection is a key.
class_known :
    (id cls : ℕ) (by_type : Dict (List Connection))
    → holds id (typed cls by_type) ≡ true
    → contains cls (keys by_type) ≡ true
class_known id cls [] h = cc
class_known id cls ((k, cs) ∷ by_type) h = ground (arith, class_known id cls by_type)

module _ (t : ℕ) (w : World) where
  abbrev pub typed_gone : World
  typed_gone = disconnect_typed t (keys (w.scopes t).matcher.connections_by_type) w

  abbrev pub all_gone : World
  all_gone = disconnect_each (list_at Place.catch_all (typed_gone.scopes t)) typed_gone

  -- Every connection that the scope stores is inactive afterwards.
  pub release-inactive :
      (id : ℕ) (place : Place)
      → is_stored id place (w.scopes t) ≡ true
      → (release t w).active id ≡ false
  unfolding release
  release-inactive id (Place.in_type cls) stored =
      each_stays id (list_at Place.incoming (all_gone.scopes t)) all_gone (
        each_stays id (list_at Place.catch_all (typed_gone.scopes t)) typed_gone (
          typed_inactive id t cls (keys (w.scopes t).matcher.connections_by_type) w
            (class_known id cls (w.scopes t).matcher.connections_by_type stored) (inl stored)))
  release-inactive id Place.catch_all stored =
      each_stays id (list_at Place.incoming (all_gone.scopes t)) all_gone (
        turn id Place.catch_all t typed_gone (
          typed-IsCovered id Place.catch_all t (keys (w.scopes t).matcher.connections_by_type) w
            (inl stored)))
  release-inactive id Place.incoming stored = turn id Place.incoming t all_gone (
      each-IsCovered id Place.incoming t (list_at Place.catch_all (typed_gone.scopes t)) typed_gone
        (typed-IsCovered id Place.incoming t (keys (w.scopes t).matcher.connections_by_type) w
          (inl stored)))

-- What is stored afterwards was stored before, or is inactive.
module _ (id : ℕ) (place : Place) (t : ℕ) where
  abbrev pub IsFormer : World → World → Type 0
  IsFormer w w' = (is_stored id place (w.scopes t) ≡ true) ⊎ (w'.active id ≡ false)

  disconnect_back :
      (c : Connection) (w : World)
      → is_stored id place ((disconnect c w).scopes t) ≡ true
      → IsFormer w (disconnect c w)
  disconnect_back c w stored = elim (Bool-cases (id == c.id)) [
    | inl same ↦
        inr (ap (disconnect c w).active ((==_iff id c.id).0 same) ∙ disconnect-inactive c w)
    | inr other ↦ inl (sym (disconnect-stored id c other place t w) ∙ stored)
  ]

  pub each_back :
      (cs : List Connection) (w : World)
      → is_stored id place ((disconnect_each cs w).scopes t) ≡ true
      → IsFormer w (disconnect_each cs w)
  unfolding disconnect_each
  each_back [] w stored = inl stored
  each_back (c ∷ cs) w stored = elim (each_back cs (disconnect c w) stored) [
    | inr off ↦ inr off
    | inl before ↦ elim (disconnect_back c w before) [
      | inl first ↦ inl first
      | inr off ↦ inr (each_stays id cs (disconnect c w) off)
    ]
  ]

  pub typed_back :
      (classes : List ℕ) (w : World)
      → is_stored id place ((disconnect_typed t classes w).scopes t) ≡ true
      → IsFormer w (disconnect_typed t classes w)
  unfolding disconnect_typed
  typed_back [] w stored = inl stored
  typed_back (cls ∷ classes) w stored =
      let cs = list_at (Place.in_type cls) (w.scopes t) in
      elim (typed_back classes (disconnect_each cs w) stored) [
        | inr off ↦ inr off
        | inl before ↦ elim (each_back cs w before) [
          | inl first ↦ inl first
          | inr off ↦ inr (typed_stays id t classes (disconnect_each cs w) off)
        ]
      ]
