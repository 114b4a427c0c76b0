-- ===== src/Samples/Groups.antt =====
-- A group of two scopes: the callback of the first one raises, and the second one has none.
use agent_cdp.Prelude.{ℕ, ◌≡◌, refl, true, false, [], ◌∷◌, keys, pos, if◌then◌else◌, ◌==◌}
use agent_cdp.Events.Values.{value_error}
use agent_cdp.Scope.Closing.{Called, TaskStatus}
use agent_cdp.Scope.Group.{Group, Surroundings, no_resources, close_all}
use agent_cdp.Scope.Group.Registry.{IsKept, Answers, close_all-IsKept}
use agent_cdp.Prelude.{none, some, arith}
use agent_cdp.Events.Event.{deepcopy}
use agent_cdp.Scope.Emission.{World, Handled, returned}
use agent_cdp.Scope.Group.{broadcast}
use agent_cdp.Scope.Group.Copies.{emit_each, included, Numbered, broadcast-Isolated}
use agent_cdp.Samples.Scopes.{mro}
use agent_cdp.Samples.Emissions.{program}

abbrev surroundings : ℕ → Surroundings
surroundings at = record {
  called = λ k. Called.raises value_error;
  withdraws = λ k. false;
  status = λ k. TaskStatus.unfinished;
  cleaned = λ w. w;
  budget = 5;
  others = λ s. s;
  now = 8;
  later = 9;
  got_lock = true;
}

abbrev group : Group
group = record {
  world = program;
  resources =
      λ k. if k == 1 then record no_resources { close_callbacks = 4 ∷ [] } else no_resources;
  scopes = (21, 1) ∷ (22, 2) ∷ [];
}

close_all-IsKept_example :
    IsKept surroundings true (pos 3) 21 1 (close_all surroundings true (pos 3) group).0
    × Answers surroundings true
        (pos 3)
        (keys group.scopes)
        (close_all surroundings true (pos 3) group).1
close_all-IsKept_example = close_all-IsKept surroundings true (pos 3) group 21 1 refl

-- The second scope has gone.
left : keys (close_all surroundings true (pos 3) group).0.scopes ≡ 21 ∷ []
unfolding close_all
left = refl

abbrev idle : ℕ → ℕ → World → World × Handled
idle cid e w = (w, returned none)

-- The first scope is excluded.
broadcast-Isolated_example :
    let x = broadcast idle 8 9 mro (some (21 ∷ [])) 0 group.scopes 7 program in
    (x
      ≡ emit_each idle 8 9 mro
          (deepcopy (program.events 0))
          (included (some (21 ∷ [])) group.scopes)
          7
          program)
    × Numbered idle 8 9 mro 7 (included (some (21 ∷ [])) group.scopes) x.1
    × (x.0.events 0 ≡ program.events 0)
    × (x.0.events 1 ≡ program.events 1)
broadcast-Isolated_example =
    broadcast-Isolated idle 8 9 mro (some (21 ∷ [])) 0 1 group.scopes 7 program (λ cid k w e. refl)
      (λ cid k w e. refl) (omega arith) (omega arith)
