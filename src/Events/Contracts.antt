-- ===== src/Events/Contracts.antt =====
-- src/agent_cdp/events/contracts.py: participation, business result rules and receiver
-- requirements. A validator is a function into what calling it does.
pub mod Rules
use agent_cdp.Prelude.{ℕ, Bool, true, false, Option, none, some, List, [], ◌∷◌, if◌then◌else◌, ℤ}
use agent_cdp.Events.Values.{
  Value, Exc, type_error, value_error, result_contract_error, Outcome, return, raise,
}

pub data Participation : Type 0 where
  handler observer : Participation

abbrev pub is_handler : Participation → Bool
is_handler handler = true
is_handler observer = false

-- What a validator did: it returned a `bool`, returned something else, or raised.
pub data Verdict : Type 0 where
  accepted : Bool → Verdict
  not_bool : Verdict
  raised : Exc → Verdict

pub record ResultContract : Type 0 where
  pub validator : Option Value → Verdict
  pub description : ℕ

-- `ResultContract.validate`: `none` when it returns, `some e` when it raises `e`.
abbrev judge : Verdict → ℕ → Option Exc
judge (accepted true) description = none
judge (accepted false) description = some (result_contract_error description)
judge not_bool description = some type_error
judge (raised e) description = some e

unfoldable pub validate : ResultContract → Option Value → Option Exc
validate rule result = judge (rule.validator result) rule.description

pub data WaitFor : Type 0 where
  all required : WaitFor

pub record RequestContract : Type 0 where
  pub min_receivers : ℕ
  pub required_receivers : List ℕ
  pub wait_for : WaitFor
  pub result_contract : Option ResultContract

-- The constructor call with its `__post_init__`: a negative minimum is refused. `wait_for` is
-- `none` where the text passed is neither 'all' nor 'required'.
unfoldable pub request_contract :
    ℤ → List ℕ → Option WaitFor → Option ResultContract → Outcome RequestContract
request_contract (ℤ.negsuc n) names wait_for rule = raise value_error
request_contract (ℤ.pos n) names none rule = raise value_error
request_contract (ℤ.pos n) names (some w) rule =
    return (record {
      min_receivers = n;
      required_receivers = names;
      wait_for = w;
      result_contract = rule;
    })
