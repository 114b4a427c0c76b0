-- ===== src/Samples/Watchdogs.antt =====
-- A watchdog with a binding in each of two sessions of a scope, one with a callback that raises.
use agent_cdp.Prelude.{
  ℕ, ◌+◌, ◌≡◌, refl, ap, true, false, Option, none, some, [], ◌∷◌, pos, if◌then◌else◌, if_ind, ◌==◌,
  arith,
}
use agent_cdp.Events.Values.{Exc, value_error, is_cancelled}
use agent_cdp.Scope.Emission.{World}
use agent_cdp.Scope.Group.{no_resources}
use agent_cdp.Watchdog.{Binding, Watchdogs, active_bindings, close_binding, detach}
use agent_cdp.Watchdog.Cleanup.{IsPlain}
use agent_cdp.Watchdog.Closed.{CleanedUp, close_binding-CleanedUp}
use agent_cdp.Watchdog.Detaching.Exact.{Exact, detach-Exact}
use agent_cdp.Samples.{saver}
use agent_cdp.Samples.Scopes.{link}
use agent_cdp.Samples.Emissions.{program}

-- The session is the number of the binding.
abbrev binding : ℕ → Binding
binding b = record {
  scope = 1;
  session_id = some b;
  connections = link saver 5 (pos 1) ∷ [];
  close_callbacks = if b == 2 then 6 ∷ 7 ∷ [] else 8 ∷ [];
  closed = false;
  on_closed = true;
}

abbrev watchdogs : Watchdogs
watchdogs = record {
  world = program;
  resources = λ t. record no_resources { close_callbacks = 102 ∷ 103 ∷ [] };
  objects = binding;
  tracked = 2 ∷ 3 ∷ [];
}

abbrev close_of : ℕ → ℕ
close_of b = b + 100

abbrev fails : ℕ → Option Exc
fails k = if k == 6 then some value_error else none

abbrev effect : ℕ → World → World
effect k w = w

plain : IsPlain fails effect
plain k e h =
    if_ind (λ o. o ≡ some e → is_cancelled e ≡ false) (k == 6) (some value_error) none
      (λ _ g. ground (arith, ap is_cancelled {x = value_error} {y = e})) (λ _ g. cc) h

close_binding-CleanedUp_example :
    CleanedUp close_of fails effect 2 watchdogs (close_binding close_of fails effect 2 watchdogs)
close_binding-CleanedUp_example =
    close_binding-CleanedUp close_of fails effect plain 2 watchdogs refl

detach-Exact_example :
    Exact 1
      (some 3)
      close_of
      fails
      effect
      watchdogs
      (detach close_of fails effect 1 (some 3) watchdogs)
detach-Exact_example = detach-Exact 1 (some 3) close_of fails effect watchdogs

-- The callback that raised keeps its binding.
retained : active_bindings (detach close_of fails effect 1 (some 2) watchdogs).0 ≡ 2 ∷ 3 ∷ []
unfolding detach close_binding
retained = refl

detached : active_bindings (detach close_of fails effect 1 (some 3) watchdogs).0 ≡ 2 ∷ []
unfolding detach close_binding
detached = refl
