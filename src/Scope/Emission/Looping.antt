-- ===== src/Scope/Emission/Looping.antt =====
-- The loop of `emit`, and the cancellation of what it skips.
use agent_cdp.Prelude.{
  ℕ, ◌≡◌, ap, sym, ◌∙◌, Bool, true, Option, none, some, List, [], ◌∷◌, All, lookup, has_key,
  is_some, if_ind, if◌then◌else◌, Bool-cases, Option-cases, inl, inr, or_else, clash,
}
use agent_cdp.Events.Values.{Exc}
use agent_cdp.Events.Event.{Event, EmitPolicy}
use agent_cdp.Connection.{Connection, is_direct}
use agent_cdp.Scope.Emission.{
  World, Handled, Dispatched, cancel_skipped, resolve_mode, dispatch_direct, dispatch, dispatch_all,
}
use agent_cdp.Scope.Emission.Settling.{Settled, cancel_skipped-Settled, dispatch_direct-Settled}
use agent_cdp.Scope.Emission.Evolution.{
  Evolves, Evolves-refl, Evolves-trans, Orderly, dispatch-Evolves,
}
use agent_cdp.Scope.Emission.Prepared.{
  Delivered, Settled-Delivered, Evolves-Delivered, cancel_skipped-Delivered, AllMade,
}

module _ (source : ℕ) where
  abbrev pub is_served_directly : Connection → Bool
  is_served_directly c = is_direct (resolve_mode source c.mode c.target_scope)

  abbrev pub AllDelivered : List Connection → Event → Type 0
  AllDelivered cs ev = All (λ (c : Connection). Delivered (is_served_directly c) c.id ev) cs

module _ (handlers : ℕ → ℕ → World → World × Handled) (now later source : ℕ) where
  direct_served :
      (e : ℕ) (c : Connection) (policy : EmitPolicy) (w : World)
      → has_key c.id (w.events e).event_results ≡ true
      → Settled c.id ((dispatch_direct handlers now later source e c policy w).0.events e)
  direct_served e c policy w known = elim (Option-cases (lookup c.id (w.events e).event_results)) [
    | inl missing ↦ absurd (clash (sym (ap is_some missing) ∙ known))
    | inr (r, found) ↦ dispatch_direct-Settled handlers now later source e c policy w r found
  ]

  dispatch-Delivered :
      Orderly handlers
      → (e : ℕ) (c : Connection) (policy : EmitPolicy) (w : World)
      → has_key c.id (w.events e).event_results ≡ true
      → Delivered
          (is_served_directly source c)
          c.id
          ((dispatch handlers now later source e c policy w).0.events e)
  unfolding dispatch
  dispatch-Delivered orderly e c policy w known =
      let grown =
        (dispatch-Evolves handlers now later source orderly e c policy w).grow e c.id known in
      elim (Bool-cases (is_served_directly source c)) [
        | inl direct ↦ rw direct (direct_served e c policy w known)
        | inr queued ↦ rw queued (rw queued at grown)
      ]

  -- What the loop leaves, and then the cancellation of what it skipped.
  abbrev pub Ended : ℕ → World → List Connection → Dispatched → Type 0
  Ended e w cs d =
      Evolves w.events d.world.events
      × AllDelivered source cs (cancel_skipped later d.skipped (d.world.events e))

  skipped-AllDelivered :
      (cs : List Connection) (ev : Event)
      → All (λ (c : Connection). Settled c.id ev) cs
      → AllDelivered source cs ev
  skipped-AllDelivered [] ev h = tt
  skipped-AllDelivered (c ∷ cs) ev (h, hs) =
      (Settled-Delivered (is_served_directly source c) c.id ev h, skipped-AllDelivered cs ev hs)

  AllMade-Evolves :
      (e : ℕ) (cs : List Connection) (old new : ℕ → Event)
      → Evolves old new
      → AllMade now source cs (old e)
      → AllMade now source cs (new e)
  AllMade-Evolves e [] old new h known = tt
  AllMade-Evolves e (c ∷ cs) old new h (known, rest) =
      (h.grow e c.id known, AllMade-Evolves e cs old new h rest)

  -- The loop stops here with the connections that are left, or goes on.
  stopped :
      (e : ℕ) (c : Connection) (cs : List Connection) (w w' : World) (rejection error : Option Exc)
      → Evolves w.events w'.events
      → Delivered (is_served_directly source c) c.id (w'.events e)
      → Ended e w
          (c ∷ cs)
          (record { world = w'; rejection = rejection; error = error; skipped = cs })
  stopped e c cs w w' rejection error evolved here = (
    evolved,
    (
      cancel_skipped-Delivered (is_served_directly source c) c.id later cs (w'.events e) here,
      skipped-AllDelivered cs _ (cancel_skipped-Settled later cs (w'.events e)),
    ),
  )

  after_one :
      (e : ℕ) (c : Connection) (cs : List Connection) (w : World) (rejection latest : Option Exc)
      (x : World × Option Exc × Option Exc)
      → Evolves w.events x.0.events
      → Delivered (is_served_directly source c) c.id (x.0.events e)
      → (rest : Dispatched) → Ended e x.0 cs rest
      → Ended e w (c ∷ cs) (elim x.2 as (λ _. Dispatched) [
        | some err ↦ record { world = x.0; rejection = rejection; error = some err; skipped = cs }
        | none ↦
            if (x.0.events e).consumed
            then record { world = x.0; rejection = latest; error = none; skipped = cs }
            else rest
      ])
  after_one e c cs w rejection latest (w', refused, some err) evolved here rest ended =
      stopped e c cs w w' rejection (some err) evolved here
  after_one e c cs w rejection latest (w', refused, none) evolved here rest (more, delivered) =
      if_ind (Ended e w (c ∷ cs)) (w'.events e).consumed _ _
        (λ _. stopped e c cs w w' latest none evolved here)
        (λ _. (
          Evolves-trans evolved more,
          (
            cancel_skipped-Delivered (is_served_directly source c) c.id later rest.skipped
                (rest.world.events e)
                (Evolves-Delivered (is_served_directly source c) c.id e w'.events rest.world.events
                  more here),
            delivered,
          ),
        ))

  pub dispatch_all-Ended :
      Orderly handlers
      → (e : ℕ) (policy : EmitPolicy) (rejection : Option Exc) (cs : List Connection) (w : World)
      → AllMade now source cs (w.events e)
      → Ended e w cs (dispatch_all handlers now later source e policy rejection cs w)
  unfolding dispatch_all
  dispatch_all-Ended orderly e policy rejection [] w h = (Evolves-refl w.events, tt)
  dispatch_all-Ended orderly e policy rejection (c ∷ cs) w (known, made) =
      let x = dispatch handlers now later source e c policy w in
      let evolved = dispatch-Evolves handlers now later source orderly e c policy w in
      let latest = or_else x.1 rejection in
      after_one e c cs w rejection latest x evolved (dispatch-Delivered orderly e c policy w known)
        (dispatch_all handlers now later source e policy latest cs x.0)
        (dispatch_all-Ended orderly e policy latest cs x.0
          (AllMade-Evolves e cs w.events x.0.events evolved made))
