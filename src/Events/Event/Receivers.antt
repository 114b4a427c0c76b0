-- ===== src/Events/Event/Receivers.antt =====
-- events/base.py: `BaseEvent._preflight`, the check of the receivers before any side effect.
use agent_cdp.Prelude.{
  ℕ, Bool, not, ◌||◌, Option, none, some, List, [], ◌∷◌, ◌++◌, select, any, is_empty, length, map,
  contains, is_key, ltb, ◌==◌, if◌then◌else◌,
}
use agent_cdp.Events.Contracts.{is_handler}
use agent_cdp.Events.Event.State.{Event, Receiver, ReceiverFailure}

-- `name in (c.id, c.receiver_key)`
abbrev pub answers : ℕ → ℕ → Option ℕ → Bool
answers name id key = name == id || is_key name key

abbrev pub names_receiver : ℕ → Receiver → Bool
names_receiver name c = answers name c.id c.receiver_key

-- `set.update`
abbrev pub add_all : List ℕ → List ℕ → List ℕ
add_all known [] = known
add_all known (x ∷ xs) = add_all (if contains x known then known else known ++ x ∷ []) xs

abbrev pub handlers_of : List Receiver → List Receiver
handlers_of cs = select (λ c. is_handler c.participation) cs

abbrev pub ids_of : List Receiver → List ℕ
ids_of cs = map (λ c. c.id) cs

-- The names that nothing among `xs` answers to.
abbrev pub unanswered {ℓ} : {A : Type ℓ} → (ℕ → A → Bool) → List ℕ → List A → List ℕ
unanswered p names xs = select (λ name. not (any (p name) xs)) names

-- The handlers that a request requires: all of them where it names none.
abbrev pub required_of : List ℕ → List Receiver → List Receiver
required_of names cs = select (λ c. is_empty names || any (λ name. names_receiver name c) names) cs

-- `_preflight`: the event, and the ReceiverContractError where it is raised.
unfoldable pub preflight : List Receiver → Event → Event × Option ReceiverFailure
preflight cs ev =
    let handlers = handlers_of cs in
    let cleared : Event = record ev { preflight_error = none } in
    elim ev.request_contract [
      | none ↦ (record cleared { required_ids = add_all ev.required_ids (ids_of handlers) }, none)
      | some contract ↦
          let names = contract.required_receivers in
          let missing = unanswered names_receiver names handlers in
          let failure : ReceiverFailure = record {
            missing_receivers = missing;
            required_count = contract.min_receivers;
            actual_count = length handlers;
          } in
          if not (is_empty missing) || ltb (length handlers) contract.min_receivers
          then (record cleared { preflight_error = some failure }, some failure)
          else (
            record cleared {
              required_ids = add_all ev.required_ids (ids_of (required_of names handlers));
            },
            none,
          )
    ]
