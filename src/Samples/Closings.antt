-- ===== src/Samples/Closings.antt =====
-- A scope with three resources: one is cleaned up at once, one raises, and the task of one goes on.
use agent_cdp.Prelude.{ℕ, ◌≡◌, refl, Bool, true, false, [], ◌∷◌, if◌then◌else◌, ◌==◌, arith, pos}
use agent_cdp.Events.Values.{value_error}
use agent_cdp.Scope.Emission.{put_scope}
use agent_cdp.Scope.Matching.{no_connections, add_connection}
use agent_cdp.Scope.Linking.{disconnect}
use agent_cdp.Scope.Closing.Shutdown.{Closing, close}
use agent_cdp.Scope.Closing.Shutdown.Verdict.{ClosedDown, close-ClosedDown}
use agent_cdp.Samples.{saver}
use agent_cdp.Samples.Scopes.{link}
use agent_cdp.Samples.Emissions.{program}
use agent_cdp.Scope.Closing.{Resources, Called, TaskStatus, close_resources}
use agent_cdp.Scope.Closing.Retained.{is_held, close_resources-retains}

abbrev open_scope : Resources
open_scope = record {
  closed = false;
  is_closed = false;
  close_callbacks = 1 ∷ 2 ∷ 3 ∷ [];
  cleanup_tasks = [];
  asked = [];
}

abbrev left_open : Resources
left_open = record {
  closed = true;
  is_closed = false;
  close_callbacks = 3 ∷ 2 ∷ [];
  cleanup_tasks = 3 ∷ [];
  asked = 3 ∷ [];
}

abbrev called : ℕ → Called
called k =
    if k == 1 then Called.finishes else if k == 2 then Called.raises value_error else Called.awaits

abbrev withdraws : ℕ → Bool
withdraws k = k == 2

close_resources-retains_example : is_held 2 left_open ≡ true
unfolding close_resources
close_resources-retains_example =
    close_resources-retains called withdraws (λ k. TaskStatus.unfinished) 2 open_scope left_open
      (value_error ∷ []) refl refl (λ e. ground arith) refl

-- A scope with a connection, whose only callback finishes.
abbrev connected : Closing
unfolding add_connection
connected = record {
  world =
      put_scope 1
        (record (program.scopes 1) {
          matcher = add_connection (link saver 5 (pos 1)) no_connections;
        })
        program;
  resources = record open_scope { close_callbacks = 1 ∷ [] };
}

abbrev closed_down : Closing
unfolding close
closed_down =
    (close called withdraws (λ k. TaskStatus.unfinished) (λ w. w) 8 9 1 true 2 (λ s. s) (pos 3) true
      connected).0

close-ClosedDown_example : ClosedDown 1 closed_down
unfolding close add_connection disconnect
close-ClosedDown_example =
    close-ClosedDown called withdraws (λ k. TaskStatus.unfinished) (λ w. w) 8 9 1 true 2 (λ s. s)
      (pos 3) true connected closed_down
      (record { complete = true; pending = []; pending_resources = 0 }) refl refl refl

released : closed_down.world.active 11 ≡ false
unfolding close add_connection disconnect
released = refl
