-- ===== src/Automation/Engine.antt =====
-- src/automation/rule_engine.cpp.
pub mod Firing
pub mod Disabling
use iot_dashboard_flutter.Common.{Bool, true, false, if◌then◌else◌, List, [], ◌∷◌, ◌++◌, Str}
use iot_dashboard_flutter.Errors.{Result, ok, err}
use iot_dashboard_flutter.Automation.{
  Double, Action, AutomationRule, SensorReading, RuleRepository, evaluate_all,
}
use iot_dashboard_flutter.Automation.Repository

module _ (double : Double) where
  open double use {Number}

  module _ {V : Type 0} where
    -- The loop over the enabled rules.
    unfoldable pub fire : List (AutomationRule Number V) → SensorReading Number → List (Action V)
    fire [] reading = []
    fire (rule ∷ rules) reading =
        let rest = fire rules reading in
        if evaluate_all double rule.conditions reading then rule.actions ++ rest else rest

    unfoldable pub evaluate_rules :
        RuleRepository Number V → SensorReading Number → Result (List (Action V))
    unfolding fire
    evaluate_rules rules reading = ok (fire (Repository.get_enabled rules) reading)

module _ {N V : Type 0} where
  unfoldable pub set_enabled :
      Bool → Str → RuleRepository N V → RuleRepository N V × Result (Unit {0})
  set_enabled flag rule_id rules = elim (Repository.get_by_id rule_id rules) [
    | err e ↦ (rules, err e)
    | ok rule ↦ Repository.update (record rule { enabled = flag }) rules
  ]

  unfoldable pub enable_rule : Str → RuleRepository N V → RuleRepository N V × Result (Unit {0})
  enable_rule = set_enabled true

  unfoldable pub disable_rule : Str → RuleRepository N V → RuleRepository N V × Result (Unit {0})
  disable_rule = set_enabled false
