-- ===== src/Events/Contracts/Rules.antt =====
-- Which returned values satisfy a list of result rules, and which rule's error is kept.
use agent_cdp.Prelude.{◌≡◌, ◌↔◌, refl, true, Option, none, some, List, [], ◌∷◌, All, arith}
use agent_cdp.Events.Values.{Value, Exc}
use agent_cdp.Events.Contracts.{accepted, ResultContract, validate}

-- `for rule in rules: rule.validate(result)`: the first error ends the loop.
unfoldable pub run_rules : List ResultContract → Option Value → Option Exc
run_rules [] result = none
run_rules (rule ∷ rules) result = elim (validate rule result) [
  | none ↦ run_rules rules result
  | some e ↦ some e
]

pub validate_iff :
    (rule : ResultContract) (result : Option Value)
    → (validate rule result ≡ none) ↔ (rule.validator result ≡ accepted true)
unfolding validate
validate_iff rule result = (λ h. ground arith, λ h. ground arith)

-- A value passes a list of rules exactly when every validator returns `True` itself.
pub run_rules_iff :
    (rules : List ResultContract) (result : Option Value)
    → (run_rules rules result ≡ none) ↔ All (λ rule. rule.validator result ≡ accepted true) rules
unfolding run_rules
run_rules_iff [] result = (λ _. tt, λ _. refl)
run_rules_iff (rule ∷ rules) result =
    let ih = run_rules_iff rules result in
    let head = validate_iff rule result in
    (λ h. ground (arith, ih.0, head.0), λ h. ground (arith, ih.1, head.1))
