-- ===== src/Events/Event/State.antt =====
-- events/base.py: the fields of `BaseEvent`, and its counters. An `asyncio.Event` that is replaced
-- when it fires (`_changed`) is a generation number; `_completion` is whether it is set. A cancel
-- callback is the queue and the sequence number that it closes over.
use agent_cdp.Prelude.{
  ℕ, ◌+◌, ◌-◌, Bool, true, false, Option, none, List, [], Dict, ltb, ◌==◌, if◌then◌else◌,
}
use agent_cdp.Events.Contracts.{Participation, ResultContract, RequestContract}
use agent_cdp.Events.Delivery.{EventResult}

pub data EmitPolicy : Type 0 where
  fail_fast collect_errors : EmitPolicy

-- The part of a `Connection` that an event reads.
pub record Receiver : Type 0 where
  pub id : ℕ
  pub handler_name : ℕ
  pub participation : Participation
  pub receiver_key : Option ℕ
  pub result_contract : Option ResultContract

pub record ReceiverFailure : Type 0 where
  pub missing_receivers : List ℕ
  pub required_count : ℕ
  pub actual_count : ℕ

pub record Event : Type 0 where
  pub event_id : ℕ
  pub event_type : ℕ
  pub event_timeout : Option ℕ
  pub execution_timeout : Option ℕ
  pub non_droppable : Bool
  pub request_contract : Option RequestContract
  pub consumed : Bool
  pub event_parent_id : Option ℕ
  pub event_results : Dict EventResult
  pub emit_policy : EmitPolicy
  pub completion : Bool
  pub changed : ℕ
  pub pending_count : ℕ
  pub cancel_callbacks : Dict (ℕ × ℕ)
  pub result_contracts : Dict (List ResultContract)
  pub required_ids : List ℕ
  pub preflight_error : Option ReceiverFailure
  pub delivery_scope_tokens : Dict ℕ

unfoldable pub consume : Event → Event
consume ev = record ev { consumed = true }

unfoldable pub has_pending : Event → Bool
has_pending ev = ltb 0 ev.pending_count

unfoldable pub notify_changed : Event → Event
notify_changed ev = record ev { changed = ev.changed + 1 }

unfoldable pub increment_pending : Event → Event
unfolding notify_changed
increment_pending ev = notify_changed (record ev {
  completion = if ev.pending_count == 0 then false else ev.completion;
  pending_count = ev.pending_count + 1;
})

unfoldable pub decrement_pending : Event → Event
unfolding notify_changed
decrement_pending ev =
    let left = if ltb 0 ev.pending_count then ev.pending_count - 1 else ev.pending_count in
    notify_changed
      (record ev { pending_count = left; completion = if left == 0 then true else ev.completion })

-- `__deepcopy__`: the public fields, and fresh private state.
unfoldable pub deepcopy : Event → Event
deepcopy ev = record ev {
  completion = true;
  changed = 0;
  pending_count = 0;
  cancel_callbacks = [];
  result_contracts = [];
  required_ids = [];
  preflight_error = none;
  delivery_scope_tokens = [];
}
