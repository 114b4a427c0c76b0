-- ===== src/Bridge/Routing/Tracked.antt =====
-- What a bridge, its client and its scope hold of one another stays true (`Tracking`).
use agent_cdp.Prelude.{ℕ, ◌≡◌, refl, Bool, true, Option, List, [], ◌∷◌, if_ind}
use agent_cdp.Events.Values.{Exc, return}
use agent_cdp.Bridge.Routing.{Bridge, Factory, new_bridge, callback}
use agent_cdp.Bridge.Routing.Tracking.{is_known, Step, step, steps, IsTracked}
use agent_cdp.Bridge.Routing.Hits.{bridge-IsTracked, called_cases}
use agent_cdp.Bridge.Routing.Removals.{close-IsTracked}

new_bridge-IsTracked : (session_id : Option ℕ) → IsTracked (new_bridge session_id)
unfolding new_bridge
new_bridge-IsTracked session_id = record {
  listening = λ k h. h;
  in_scope = refl;
  open_counts = λ _. record { numbered = tt; distinct = tt; counted = tt; summed = λ m. refl };
}

module _ {W : Type 0} (scope_closed : W → Bool) (emit : ℕ → W → W × Option Exc) where
  step-IsTracked :
      (s : Bridge × W) (a : Step W) → IsTracked s.0 → IsTracked (step scope_closed emit s a).0
  unfolding step
  step-IsTracked (b, w) (Step.bridges method on_event) tracked =
      bridge-IsTracked method on_event b tracked
  step-IsTracked (b, w) (Step.is_called method k factory params route) tracked =
      if_ind (λ (x : Bridge × W). IsTracked x.0) (is_known method k b) _ _
        (λ is. (called_cases scope_closed emit method k factory params route b w tracked is).0)
        (λ _. tracked)
  step-IsTracked (b, w) (Step.closes off_event) tracked = close-IsTracked off_event b tracked
  step-IsTracked (b, w) (Step.goes_on w') tracked = tracked

  steps_keep :
      (s : Bridge × W) (as' : List (Step W))
      → IsTracked s.0
      → IsTracked (steps scope_closed emit s as').0
  unfolding steps
  steps_keep s [] tracked = tracked
  steps_keep s (a ∷ as') tracked =
      steps_keep (step scope_closed emit s a) as' (step-IsTracked s a tracked)

  -- After any calls of `bridge`, callbacks and calls of `close`, from a new bridge on, whatever the
  -- client raises: each callback that the client may still call is registered, so that a later
  -- `close` finds it; the scope knows the bridge until it is closed with nothing left to remove; and
  -- while it is open, each method's count is the sum of the hits of its registrations.
  pub steps-IsTracked :
      (session_id : Option ℕ) (w : W) (as' : List (Step W))
      → IsTracked (steps scope_closed emit (new_bridge session_id, w) as').0
  steps-IsTracked session_id w as' =
      steps_keep (new_bridge session_id, w) as' (new_bridge-IsTracked session_id)

  -- After any such steps, no call of a callback raises into the client's receive loop, whatever the
  -- event factory and the delivery do: not for a callback of a registration, and none once the
  -- bridge is closed.
  pub callback-returns :
      (session_id : Option ℕ) (w : W) (as' : List (Step W)) (method k : ℕ) (factory : Factory W)
      (params : ℕ) (route : Option ℕ)
      → is_known method k (steps scope_closed emit (new_bridge session_id, w) as').0 ≡ true
      → (callback scope_closed emit method k factory params route
          (steps scope_closed emit (new_bridge session_id, w) as')).2
        ≡ return tt
  callback-returns session_id w as' method k factory params route is =
      let s = steps scope_closed emit (new_bridge session_id, w) as' in
      (called_cases scope_closed emit method k factory params route s.0 s.1
        (steps-IsTracked session_id w as') is).1
