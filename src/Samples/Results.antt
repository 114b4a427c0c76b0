-- ===== src/Samples/Results.antt =====
-- Aggregations of an event with two handlers' dicts.
use agent_cdp.Prelude.{ℕ, ◌≡◌, ◌↔◌, refl, true, false, none, some, [], ◌∷◌, Dict, lookup}
use agent_cdp.Events.Values.{Value, mapping, value_error, handler_error, return, raise, ◌>>=◌}
use agent_cdp.Events.Delivery.{ResultStatus, EventResult}
use agent_cdp.Events.Event.{Event}
use agent_cdp.Events.Success.{check_success}
use agent_cdp.Events.Aggregation.{
  maybe_raise_errors, or_none_error, event_result, event_results_list, event_results_flat_dict,
  aggregation_results, first_error, dicts,
}
use agent_cdp.Events.Aggregation.Selection.{
  head?, event_result-head, CheckVerdict, maybe_raise_errors_verdict,
}
use agent_cdp.Events.Aggregation.Merging.{PairwiseDisjoint, last_value, flat_dict_merges}
use agent_cdp.Samples.{new_event, queued_record}

abbrev given : ℕ → ℕ → Value → EventResult
given cid name v = record queued_record {
  connection_id = cid;
  handler_name = name;
  status = ResultStatus.completed;
  result = some v;
  started_at = some 5;
  completed_at = some 6;
}

abbrev answered_event : Event
answered_event = record new_event {
  request_contract = none;
  event_results =
      (1, given 1 21 (mapping ((1, 10) ∷ []))) ∷ (2, given 2 21 (mapping ((2, 20) ∷ []))) ∷ [];
}

event_result-head_example :
    event_result (return tt) answered_event true true
    ≡ (event_results_list (return tt) answered_event true >>= λ vs. or_none_error (head? vs) true)
event_result-head_example = event_result-head (return tt) answered_event true true

-- The second record has an error.
abbrev failed_event : Event
failed_event = record new_event {
  request_contract = none;
  event_results =
      (1, given 1 21 (mapping ((1, 10) ∷ [])))
      ∷ (2, record (given 2 22 (mapping [])) { business_error = some value_error })
      ∷ [];
}

maybe_raise_errors_verdict_example :
    CheckVerdict failed_event (maybe_raise_errors failed_event true)
maybe_raise_errors_verdict_example = maybe_raise_errors_verdict failed_event

first_error_named : maybe_raise_errors failed_event true ≡ raise (handler_error value_error 22 2)
unfolding maybe_raise_errors first_error aggregation_results
first_error_named = refl

flat_dict_merges_example :
    (n : Dict ℕ) × (event_results_flat_dict (return tt) answered_event true false ≡ return n)
    × ((k : ℕ) → lookup k n ≡ last_value k (dicts (aggregation_results answered_event)))
    × ((event_results_flat_dict (return tt) answered_event true true ≡ return n)
        ↔ PairwiseDisjoint (dicts (aggregation_results answered_event)))
unfolding maybe_raise_errors first_error aggregation_results check_success dicts
flat_dict_merges_example =
    flat_dict_merges (return tt) answered_event true refl refl ((refl, tt), ((refl, tt), tt))
