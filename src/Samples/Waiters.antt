-- ===== src/Samples/Waiters.antt =====
-- A waiter with a budget, which receives an event.
use agent_cdp.Prelude.{◌≡◌, refl, true, false, some, List, [], ◌∷◌, pos}
use agent_cdp.Events.Values.{return}
use agent_cdp.Expect.{Future, EventWaiter, new_waiter, receive, close}
use agent_cdp.Expect.Lifecycle.{Released, Step, step, steps, steps_once}
use agent_cdp.Expect.Cancelling.{Happening, happen, happens, IsAccounted, happens_lifecycle}

abbrev waiter : EventWaiter
waiter = record {
  future = Future.pending;
  scope = some 1;
  connection = some 2;
  timer = some 15;
  closed = false;
  connected = true;
  registered = true;
}

abbrev arrival : List Step
arrival = Step.receives (λ e. return true) (λ e. return false) 6 ∷ []

abbrev cancelled_arrival : List Happening
cancelled_arrival =
    Happening.cancels
    ∷ Happening.stepped (Step.receives (λ e. return true) (λ e. return false) 6)
    ∷ []

happens_lifecycle_example :
    IsAccounted (happens waiter cancelled_arrival)
    × Released (close (happens waiter cancelled_arrival))
    × (happens (close (happens waiter cancelled_arrival)) (Happening.stepped Step.expires ∷ [])
        ≡ close (happens waiter cancelled_arrival))
unfolding new_waiter
happens_lifecycle_example =
    happens_lifecycle 10 1 2 false (some (pos 5)) waiter cancelled_arrival
      (Happening.stepped Step.expires ∷ []) refl

-- After a cancellation the waiter is neither armed nor released, until it is closed.
cancelled_still_connected : (happens waiter cancelled_arrival).connected ≡ true
unfolding happens happen step receive
cancelled_still_connected = refl

steps_once_example : steps (steps waiter arrival) (Step.expires ∷ []) ≡ steps waiter arrival
unfolding new_waiter steps step receive
steps_once_example =
    steps_once 10 1 2 false (some (pos 5)) waiter arrival (Step.expires ∷ []) refl refl
