-- ===== src/Scope/Queue/Invariant.antt =====
-- The books of a queue: the order, the bound, the count of deliveries, and the records that the
-- deliveries rest on.
use agent_cdp.Prelude.{
  ℕ, ◌+◌, ◌≤◌, ◌≡◌, ◌⊎◌, true, Option, none, some, List, [], ◌∷◌, ◌++◌, All, Dict, keys, has_key,
  length, map,
}
use agent_cdp.Events.Event.{Event}
use agent_cdp.Scope.Queue.{Loop, System, Delivery}
use agent_cdp.Scope.Queue.Lists.{Above}

abbrev pub sequences : List Delivery → List ℕ
sequences ds = map (λ d. d.sequence) ds

abbrev pub active_sequence : Option Delivery → List ℕ
active_sequence none = []
active_sequence (some d) = d.sequence ∷ []

abbrev pub HasRecord : (ℕ → Event) → Delivery → Type 0
HasRecord events d = has_key d.connection.id (events d.event).event_results ≡ true

-- An entry of `pending` stands under its delivery's own number.
abbrev pub IsEntry : (ℕ → Event) → ℕ × Delivery → Type 0
IsEntry events e = (e.0 ≡ e.1.sequence) × HasRecord events e.1

abbrev pub AllPending : (ℕ → Event) → Dict Delivery → Type 0
AllPending events d = All (IsEntry events) d

-- The numbers of the deliveries of `pending` are those of the one in hand, `act`, and of the queue,
-- in the order of admission; the queue keeps its bound; and what was accepted is settled, pending
-- or, for `directs` of them, a direct handler under way.
pub record Shape (directs : ℕ) (act : List ℕ) (l : Loop) : Type 0 where
  pub order : keys l.pending ≡ act ++ sequences l.queue
  pub ascending : Above 0 (keys l.pending)
  pub given_out : All (λ n. n ≤ l.sequence) (keys l.pending)
  pub bounded : (l.maxsize ≡ 0) ⊎ (length l.queue ≤ l.maxsize)
  pub peak : length l.queue ≤ l.queue_peak
  pub counted : l.accepted ≡ l.completed + l.failed + l.cancelled + length l.pending + directs

-- Every delivery that is queued, pending or in hand has its record.
pub record Recorded (s : System) : Type 0 where
  pub waiting : All (HasRecord s.events) s.loop.queue
  pub pending : AllPending s.events s.loop.pending
  pub in_hand : (d : Delivery) → s.loop.active ≡ some d → HasRecord s.events d

pub record Inv (directs : ℕ) (s : System) : Type 0 where
  pub shape : Shape directs (active_sequence s.loop.active) s.loop
  pub recorded : Recorded s
