-- ===== src/Scope/Linking/Disconnected.antt =====
-- What remains of a connection that is disconnected.
use agent_cdp.Prelude.{
  ℕ, ◌≡◌, refl, ap, ◌∙◌, Bool, true, false, Option, none, some, List, [], ◌∷◌, All, ◌==◌, ==_iff,
  ==_refl, if_true, Bool-cases, inl, inr,
}
use agent_cdp.Connection.{Connection}
use agent_cdp.Scope.Matching.{Matcher, find, only_active, get_matching_connections}
use agent_cdp.Scope.Emission.{World}
use agent_cdp.Scope.Linking.{disconnect, remove_from_target, remove_from_source, set_active}

pub target_active :
    (c : Connection) (t : Option ℕ) (w : World) → (remove_from_target c t w).active ≡ w.active
target_active c none w = refl
target_active c (some t) w = refl

pub disconnect-inactive : (c : Connection) (w : World) → (disconnect c w).active c.id ≡ false
unfolding disconnect
disconnect-inactive c w = elim (Bool-cases (w.active c.id)) [
  | inl on ↦ rw on (
      ap (λ (f : ℕ → Bool). f c.id)
        (target_active c c.target_scope (remove_from_source c (set_active c.id false w)))
      ∙ if_true (c.id == c.id) false (w.active c.id) (==_refl c.id))
  | inr off ↦ rw off off
]

disconnect_off : (c : Connection) (w : World) → w.active c.id ≡ false → disconnect c w ≡ w
unfolding disconnect
disconnect_off c w off = rw off refl

-- Disconnecting a connection again changes nothing.
pub disconnect_twice : (c : Connection) (w : World) → disconnect c (disconnect c w) ≡ disconnect c w
disconnect_twice c w = disconnect_off c (disconnect c w) (disconnect-inactive c w)

others_only :
    (active : ℕ → Bool) (id : ℕ) (cs : List Connection)
    → active id ≡ false
    → All (λ (d : Connection). (d.id == id) ≡ false) (only_active active cs)
others_only active id [] off = tt
others_only active id (c ∷ cs) off = elim (Bool-cases (active c.id)) [
  | inl on ↦ rw on (differs on, others_only active id cs off)
  | inr off_too ↦ rw off_too (others_only active id cs off)
]
  where
    differs : active c.id ≡ true → (c.id == id) ≡ false
    differs on = elim (Bool-cases (c.id == id)) [
      | inl same ↦ cc (on, off, ap active ((==_iff c.id id).0 same))
      | inr other ↦ other
    ]

-- No lookup of any scope that comes after the disconnection answers with the connection, whatever
-- stands in the scope's caches.
pub disconnect-get_matching_connections :
    (c : Connection) (w : World) (mro : ℕ → List ℕ) (event_type : ℕ) (m : Matcher)
    → All
        (λ (d : Connection). (d.id == c.id) ≡ false)
        (get_matching_connections mro (disconnect c w).active event_type m).1
unfolding get_matching_connections
disconnect-get_matching_connections c w mro event_type m =
    others_only (disconnect c w).active c.id (find mro event_type m).1 (disconnect-inactive c w)
