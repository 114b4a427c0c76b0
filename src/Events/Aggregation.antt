-- ===== src/Events/Aggregation.antt =====
-- src/agent_cdp/events/aggregation.py. Every function awaits the event first: `waited` is the
-- outcome of that `wait_for_results`, and the event is read as it is afterwards.
pub mod Selection
pub mod Merging
use agent_cdp.Prelude.{
  ℕ, Bool, true, false, not, ◌&&◌, ◌||◌, Option, none, some, List, [], ◌∷◌, ◌++◌, Dict, insert,
  values, has_key, select, any, is_empty, is_some, or_else, if◌then◌else◌,
}
use agent_cdp.Events.Values.{
  Value, mapping, sequence, Exc, handler_error, value_error, key_error, Outcome, return, raise,
  ◌>>=◌,
}
use agent_cdp.Events.Contracts.{is_handler}
use agent_cdp.Events.Delivery.{EventResult, is_success}
use agent_cdp.Events.Event.{Event}
use agent_cdp.Events.Success.{names_record, check_success}

abbrev pub Done : Type 0
Done = Outcome (Unit {0})

-- `_aggregation_results`
unfoldable pub aggregation_results : Event → List EventResult
aggregation_results ev = elim ev.request_contract [
  | none ↦ values ev.event_results
  | some contract ↦
      let names = contract.required_receivers in
      select
        (λ r.
          is_handler r.participation && (is_empty names || any (λ name. names_record name r) names))
        (values ev.event_results)
]

-- The first record with an error, as the HandlerError that it is raised in.
unfoldable pub first_error : List EventResult → Option Exc
first_error [] = none
first_error (r ∷ rs) = elim (or_else r.business_error r.error) [
  | some cause ↦ some (handler_error cause r.handler_name r.connection_id)
  | none ↦ first_error rs
]

-- `_maybe_raise_errors`
unfoldable pub maybe_raise_errors : Event → Bool → Done
maybe_raise_errors ev false = return tt
maybe_raise_errors ev true = elim (first_error (aggregation_results ev)) [
  | some e ↦ raise e
  | none ↦ check_success ev >>= λ _. return tt
]

-- `er.is_success and er.result is not None`
abbrev pub useful_result : EventResult → Option Value
useful_result r = if is_success r then r.result else none

unfoldable pub first_useful : List EventResult → Option Value
first_useful [] = none
first_useful (r ∷ rs) = or_else (useful_result r) (first_useful rs)

unfoldable pub useful_results : List EventResult → List Value
useful_results [] = []
useful_results (r ∷ rs) = elim (useful_result r) [
  | none ↦ useful_results rs
  | some v ↦ v ∷ useful_results rs
]

abbrev pub or_none_error : Option Value → Bool → Outcome (Option Value)
or_none_error (some v) raise_if_none = return (some v)
or_none_error none raise_if_none = if raise_if_none then raise value_error else return none

module _ (waited : Done) (ev : Event) where
  unfoldable pub event_result : Bool → Bool → Outcome (Option Value)
  event_result raise_if_any raise_if_none = waited >>= λ _.
      maybe_raise_errors ev raise_if_any >>= λ _.
      or_none_error (first_useful (aggregation_results ev)) raise_if_none

  unfoldable pub event_results_list : Bool → Outcome (List Value)
  event_results_list raise_if_any = waited >>= λ _.
      maybe_raise_errors ev raise_if_any >>= λ _. return (useful_results (aggregation_results ev))

-- The dict comprehension over handler names: a later entry takes the place of an earlier one.
unfoldable pub by_name : Dict (Option Value) → List EventResult → Dict (Option Value)
by_name acc [] = acc
by_name acc (r ∷ rs) = by_name (if is_success r then insert r.handler_name r.result acc else acc) rs

-- The dict that a record contributes, and the items.
abbrev pub dict_of : Option Value → Option (Dict ℕ)
dict_of (some (mapping d)) = some d
dict_of _ = none

abbrev pub items_of : Option Value → List ℕ
items_of (some (sequence xs)) = xs
items_of _ = []

unfoldable pub dicts : List EventResult → List (Dict ℕ)
dicts [] = []
dicts (r ∷ rs) = elim (if is_success r then dict_of r.result else none) [
  | none ↦ dicts rs
  | some d ↦ d ∷ dicts rs
]

-- `merged.update(r)`
abbrev pub update : Dict ℕ → Dict ℕ → Dict ℕ
update m [] = m
update m ((k, v) ∷ r) = update (insert k v m) r

-- `merged.keys() & r.keys()` is not empty.
abbrev pub conflicts : Dict ℕ → Dict ℕ → Bool
conflicts m [] = false
conflicts m ((k, v) ∷ r) = has_key k m || conflicts m r

unfoldable pub merge : Bool → Dict ℕ → List (Dict ℕ) → Outcome (Dict ℕ)
merge strict m [] = return m
merge strict m (d ∷ ds) =
    let rest = merge strict (update m d) ds in
    if strict && conflicts m d then raise key_error else rest

unfoldable pub items : List EventResult → List ℕ
items [] = []
items (r ∷ rs) = (if is_success r then items_of r.result else []) ++ items rs

-- `include` is a predicate of the caller.
unfoldable pub included : (EventResult → Bool) → Dict EventResult → Dict EventResult
included include d = select (λ e. include e.1) d

module _ (waited : Done) (ev : Event) where
  unfoldable pub event_results_by_handler_name : Bool → Outcome (Dict (Option Value))
  event_results_by_handler_name raise_if_any = waited >>= λ _.
      maybe_raise_errors ev raise_if_any >>= λ _. return (by_name [] (aggregation_results ev))

  unfoldable pub event_results_flat_dict : Bool → Bool → Outcome (Dict ℕ)
  event_results_flat_dict raise_if_any raise_if_conflicts = waited >>= λ _.
      maybe_raise_errors ev raise_if_any >>= λ _.
      merge raise_if_conflicts [] (dicts (aggregation_results ev))

  unfoldable pub event_results_flat_list : Bool → Outcome (List ℕ)
  event_results_flat_list raise_if_any = waited >>= λ _.
      maybe_raise_errors ev raise_if_any >>= λ _. return (items (aggregation_results ev))

  unfoldable pub event_results_filtered : (EventResult → Bool) → Outcome (Dict EventResult)
  event_results_filtered include = waited >>= λ _. return (included include ev.event_results)
