-- ===== src/Scope/Emission/Prepared.antt =====
-- The records that `emit` makes before any handler runs, and what keeps them.
use agent_cdp.Prelude.{
  ℕ, ◌≡◌, ap, Bool, true, false, none, some, List, [], ◌∷◌, All, has_key, is_some,
  lookup-insert_self,
}
use agent_cdp.Events.Values.{cancelled_error}
use agent_cdp.Events.Delivery.{ResultStatus}
use agent_cdp.Events.Event.{Event, Receiver, notify_changed, prepare_delivery, set_delivery_scope}
use agent_cdp.Connection.{Connection}
use agent_cdp.Scope.Queue.Records.{Keeps, has_key-insert, record_result-Keeps}
use agent_cdp.Scope.Emission.{prepare_all, cancel_skipped}
use agent_cdp.Scope.Emission.Settling.{Settled, settled_stays}
use agent_cdp.Scope.Emission.Evolution.{Evolves}

-- A direct delivery is settled, and a queued one is there.
abbrev pub Delivered : (direct : Bool) → ℕ → Event → Type 0
Delivered true cid ev = Settled cid ev
Delivered false cid ev = has_key cid ev.event_results ≡ true

pub Settled-Delivered :
    (direct : Bool) (cid : ℕ) (ev : Event) → Settled cid ev → Delivered direct cid ev
Settled-Delivered true cid ev h = h
Settled-Delivered false cid ev (r, e, t) = ap is_some e

pub Evolves-Delivered :
    (direct : Bool) (cid e : ℕ) (old new : ℕ → Event)
    → Evolves old new
    → Delivered direct cid (old e)
    → Delivered direct cid (new e)
Evolves-Delivered true cid e old new h (r, known, t) = (r, h.stand.stands e cid r known t, t)
Evolves-Delivered false cid e old new h known = h.grow e cid known

cancel_skipped-Keeps :
    (now : ℕ) (cs : List Connection) (ev : Event) → Keeps ev (cancel_skipped now cs ev)
unfolding cancel_skipped
cancel_skipped-Keeps now [] ev j h = h
cancel_skipped-Keeps now (c ∷ cs) ev j h = cancel_skipped-Keeps now cs _ j (
    record_result-Keeps now c.id c.handler_name none (some cancelled_error)
      (some ResultStatus.cancelled) ev j h)

pub cancel_skipped-Delivered :
    (direct : Bool) (cid now : ℕ) (cs : List Connection) (ev : Event)
    → Delivered direct cid ev
    → Delivered direct cid (cancel_skipped now cs ev)
cancel_skipped-Delivered true cid now cs ev h = settled_stays now cid cs ev h
cancel_skipped-Delivered false cid now cs ev h = cancel_skipped-Keeps now cs ev cid h

-- The records are made before any handler runs.
module _ (now source : ℕ) where
  prepare_one-Keeps :
      (c : Receiver) (token : ℕ) (queued : Bool) (ev : Event)
      → Keeps ev (set_delivery_scope c.id token (prepare_delivery now c source token queued ev))
  unfolding prepare_delivery set_delivery_scope notify_changed
  prepare_one-Keeps c token queued ev j h = has_key-insert j c.id _ ev.event_results h

  prepare_one-has_key :
      (c : Receiver) (token : ℕ) (queued : Bool) (ev : Event)
      → has_key c.id
          (set_delivery_scope c.id token
            (prepare_delivery now c source token queued ev)).event_results
        ≡ true
  unfolding prepare_delivery set_delivery_scope notify_changed
  prepare_one-has_key c token queued ev = ap is_some (lookup-insert_self c.id _ ev.event_results)

  prepare_all-Keeps : (cs : List Connection) (ev : Event) → Keeps ev (prepare_all now source cs ev)
  unfolding prepare_all
  prepare_all-Keeps [] ev j h = h
  prepare_all-Keeps (c ∷ cs) ev j h =
      prepare_all-Keeps cs _ j (prepare_one-Keeps c.receiver _ _ ev j h)

  abbrev pub AllMade : List Connection → Event → Type 0
  AllMade cs ev = All (λ (c : Connection). has_key c.id ev.event_results ≡ true) cs

  pub prepare_all-AllMade :
      (cs : List Connection) (ev : Event) → AllMade cs (prepare_all now source cs ev)
  unfolding prepare_all
  prepare_all-AllMade [] ev = tt
  prepare_all-AllMade (c ∷ cs) ev = (
    prepare_all-Keeps cs _ c.id (prepare_one-has_key c.receiver _ _ ev),
    prepare_all-AllMade cs _,
  )
