-- ===== src/Automation/Repository.antt =====
-- src/automation/rule_repository.cpp: the store of the rules. The mutex makes each operation a step.
use iot_dashboard_flutter.Common.{if◌then◌else◌, List, [], ◌∷◌, none, some, Str, str_instance}
use iot_dashboard_flutter.Common.Map.{lookup, insert, erase, contains}
use iot_dashboard_flutter.Errors.{Result, ok, err, invalid_input, data_not_found}
use iot_dashboard_flutter.Automation.{AutomationRule, RuleRepository}

module _ {N V : Type 0} where
  unfoldable pub add :
      AutomationRule N V → RuleRepository N V → RuleRepository N V × Result (Unit {0})
  add rule rules =
      if contains rule.id rules
      then (rules, err invalid_input)
      else (insert rule.id rule rules, ok tt)

  unfoldable pub update :
      AutomationRule N V → RuleRepository N V → RuleRepository N V × Result (Unit {0})
  update rule rules =
      if contains rule.id rules
      then (insert rule.id rule rules, ok tt)
      else (rules, err data_not_found)

  unfoldable pub remove : Str → RuleRepository N V → RuleRepository N V × Result (Unit {0})
  remove rule_id rules =
      if contains rule_id rules then (erase rule_id rules, ok tt) else (rules, err data_not_found)

  unfoldable pub get_by_id : Str → RuleRepository N V → Result (AutomationRule N V)
  get_by_id rule_id rules = elim (lookup rule_id rules) [
    | none ↦ err data_not_found
    | some rule ↦ ok rule
  ]

  unfoldable pub get_all : RuleRepository N V → List (AutomationRule N V)
  get_all [] = []
  get_all ((id, rule) ∷ rules) = rule ∷ get_all rules

  unfoldable pub get_enabled : RuleRepository N V → List (AutomationRule N V)
  get_enabled [] = []
  get_enabled ((id, rule) ∷ rules) =
      let rest = get_enabled rules in if rule.enabled then rule ∷ rest else rest
