-- ===== src/Events/Aggregation/Selection.antt =====
-- Which records an aggregation reads, and how the single result relates to the list of all.
use agent_cdp.Prelude.{
  ℕ, ◌≡◌, ◌⊎◌, All, inl, inr, refl, Bool, true, Option, none, some, List, [], ◌∷◌, or_else, arith,
  lookup, lookup-insert, Dict, insert, if◌then◌else◌, ◌==◌,
}
use agent_cdp.Events.Values.{Value, Exc, handler_error, return, raise, ◌>>=◌, Outcome-cases}
use agent_cdp.Events.Delivery.{EventResult, is_success}
use agent_cdp.Events.Event.{Event}
use agent_cdp.Events.Success.{check_success}
use agent_cdp.Events.Success.Verdicts.{Succeeded, check_success_iff, check_success_value}
use agent_cdp.Events.Aggregation.{
  Done, aggregation_results, first_error, maybe_raise_errors, first_useful, useful_results,
  or_none_error, event_result, event_results_list, by_name, event_results_by_handler_name,
}

-- The first item of a list.
abbrev pub head? : List Value → Option Value
head? [] = none
head? (v ∷ vs) = some v

first_useful-head : (rs : List EventResult) → first_useful rs ≡ head? (useful_results rs)
unfolding first_useful useful_results
first_useful-head [] = refl
first_useful-head (r ∷ rs) = ground (arith, first_useful-head rs)

-- The single result is the first item of the list of all results, or `None` where that list is
-- empty and this is no error; it raises whatever the list raises.
pub event_result-head :
    (waited : Done) (ev : Event) (raise_if_any raise_if_none : Bool)
    → event_result waited ev raise_if_any raise_if_none
      ≡ (event_results_list waited ev raise_if_any >>= λ vs. or_none_error (head? vs) raise_if_none)
unfolding event_result event_results_list
event_result-head waited ev raise_if_any raise_if_none = elim (Outcome-cases waited) [
  | inr (e, w) ↦ rw w
  | inl (u, w) ↦ elim (Outcome-cases (maybe_raise_errors ev raise_if_any)) [
    | inr (e, m) ↦ rw (w, m)
    | inl (u, m) ↦ rw (w, m) (rw (first_useful-head (aggregation_results ev)))
  ]
]

-- The last successful record under a handler's name.
abbrev pub last_named : ℕ → List EventResult → Option (Option Value)
last_named name [] = none
last_named name (r ∷ rs) =
    or_else (last_named name rs)
      (if is_success r then (if name == r.handler_name then some r.result else none) else none)

lookup-by_name :
    (name : ℕ) (acc : Dict (Option Value)) (rs : List EventResult)
    → lookup name (by_name acc rs) ≡ or_else (last_named name rs) (lookup name acc)
unfolding by_name
lookup-by_name name acc [] = refl
lookup-by_name name acc (r ∷ rs) = ground (
  arith,
  lookup-by_name name acc rs,
  lookup-by_name name (insert r.handler_name r.result acc) rs,
  lookup-insert r.handler_name name r.result acc,
)

-- Where `event_results_by_handler_name` returns, each name carries the value of the last
-- successful record of that name among those aggregated, and no other name is there.
pub by_handler_name-last :
    (waited : Done) (ev : Event) (raise_if_any : Bool) {d : Dict (Option Value)}
    → event_results_by_handler_name waited ev raise_if_any ≡ return d
    → (name : ℕ) → lookup name d ≡ last_named name (aggregation_results ev)
unfolding event_results_by_handler_name
by_handler_name-last waited ev raise_if_any h name =
    ground (arith, lookup-by_name name [] (aggregation_results ev))

-- A record with neither kind of error.
abbrev pub IsClean : EventResult → Type 0
IsClean r = (r.error ≡ none) × (r.business_error ≡ none)

-- The error of a record: that of its rules comes before that of its handler.
abbrev pub Causes : EventResult → Exc → Type 0
Causes r cause =
    (r.business_error ≡ some cause) ⊎ ((r.business_error ≡ none) × (r.error ≡ some cause))

-- `e` names the first record of the list with an error, and wraps that error.
abbrev pub NamesFirst : Exc → List EventResult → Type 0
NamesFirst e [] = ⊥
NamesFirst e (r ∷ rs) =
    (IsClean r × NamesFirst e rs)
    ⊎ ((cause : Exc) × Causes r cause × (e ≡ handler_error cause r.handler_name r.connection_id))

-- What the search for an error has found.
abbrev Found : List EventResult → Option Exc → Type 0
Found rs none = All IsClean rs
Found rs (some e) = NamesFirst e rs

Found-later :
    (r : EventResult) (rs : List EventResult) (o : Option Exc)
    → IsClean r
    → Found rs o
    → Found (r ∷ rs) o
Found-later r rs none clean h = (clean, h)
Found-later r rs (some e) clean h = inl (clean, h)

Found-first :
    (r : EventResult) (rs : List EventResult) (business error : Option Exc) (rest : Option Exc)
    → r.business_error ≡ business
    → r.error ≡ error
    → Found rs rest
    → Found (r ∷ rs) (elim (or_else business error) as (λ _. Option Exc) [
      | some cause ↦ some (handler_error cause r.handler_name r.connection_id)
      | none ↦ rest
    ])
Found-first r rs (some b) error rest hb he h = inr (b, inl hb, refl)
Found-first r rs none (some x) rest hb he h = inr (x, inr (hb, he), refl)
Found-first r rs none none rest hb he h = Found-later r rs rest (he, hb) h

first_error-Found : (rs : List EventResult) → Found rs (first_error rs)
unfolding first_error
first_error-Found [] = tt
first_error-Found (r ∷ rs) =
    Found-first r rs r.business_error r.error (first_error rs) refl refl (first_error-Found rs)

-- How the error check ends.
abbrev pub CheckVerdict : Event → Done → Type 0
CheckVerdict ev (return u) = All IsClean (aggregation_results ev) × Succeeded ev
CheckVerdict ev (raise e) =
    NamesFirst e (aggregation_results ev)
    ⊎ (All IsClean (aggregation_results ev) × (check_success ev ≡ raise e) × ¬ (Succeeded ev))

checked :
    (ev : Event) (o : Option Exc)
    → Found (aggregation_results ev) o
    → CheckVerdict ev
        (elim o as (λ _. Done) [ some e ↦ raise e | none ↦ check_success ev >>= λ _. return tt ])
checked ev (some e) h = inl h
checked ev none h = elim (Outcome-cases (check_success ev)) [
  | inl (d, c) ↦ rw c (h, (check_success_iff ev).0 (check_success_value ev c))
  | inr (e, c) ↦ rw c (inr (h, c, λ s. cc (c, (check_success_iff ev).1 s)))
]

-- With `raise_if_any` an aggregation gets past its error check only if none of the aggregated
-- records holds an error of its handler or of its rules and the success check passes. Otherwise it
-- raises: the first record that holds an error, wrapped with its handler's name and connection,
-- where the error of the rules comes first; or, if there is none, what the success check raises.
pub maybe_raise_errors_verdict : (ev : Event) → CheckVerdict ev (maybe_raise_errors ev true)
unfolding maybe_raise_errors
maybe_raise_errors_verdict ev =
    checked ev (first_error (aggregation_results ev)) (first_error-Found (aggregation_results ev))
