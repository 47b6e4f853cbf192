-- ===== src/Automation/Engine/Firing.antt =====
-- What the engine fires.
use iot_dashboard_flutter.Common.{
  true, List, [], ◌∷◌, Str, ◌≡◌, subst, ap, ◌↔◌, inl, inr, Bool-cases,
}
use iot_dashboard_flutter.Errors.{Result, ok, err}
use iot_dashboard_flutter.Automation.{
  Double, Action, AutomationRule, SensorReading, RuleRepository, evaluate_all,
}
use iot_dashboard_flutter.Automation.Repository
use iot_dashboard_flutter.Common.Any.{Any, Any-left, Any-right, Any-split}
use iot_dashboard_flutter.Automation.Engine.{fire, evaluate_rules}

module _ (double : Double) {V : Type 0} (P : Action V → Type 0) where
  open double use {Number}

  actions_of : Result (List (Action V)) → List (Action V)
  actions_of (err e) = []
  actions_of (ok actions) = actions

  -- An enabled rule whose conditions hold for the reading, with such an action.
  unfoldable pub Fires : SensorReading Number → Str × AutomationRule Number V → Type 0
  Fires reading (key, rule) =
      rule.enabled ≡ true × evaluate_all double rule.conditions reading ≡ true × Any P rule.actions

  fire-Fires :
      (rules : RuleRepository Number V) (reading : SensorReading Number)
      → Any P (fire double (Repository.get_enabled rules) reading)
      → Any (Fires reading) rules
  unfolding fire Any Repository.get_enabled Fires
  fire-Fires [] reading h = h
  fire-Fires ((key, rule) ∷ rules) reading h = elim (Bool-cases rule.enabled) [
    | inr disabled ↦
        inr (fire-Fires rules reading (rw (disabled, fire, Repository.get_enabled) at h))
    | inl enabled ↦ elim (Bool-cases (evaluate_all double rule.conditions reading)) [
      | inr fails ↦ inr (fire-Fires rules reading (rw (enabled, fails) at h))
      | inl holds ↦
          elim (Any-split P rule.actions (fire double (Repository.get_enabled rules) reading)
            (rw (enabled, holds) at h)) [
              | inl own ↦ inl (enabled, holds, own)
              | inr later ↦ inr (fire-Fires rules reading later)
            ]
    ]
  ]

  Fires-fire :
      (rules : RuleRepository Number V) (reading : SensorReading Number)
      → Any (Fires reading) rules
      → Any P (fire double (Repository.get_enabled rules) reading)
  unfolding fire Any Repository.get_enabled Fires
  Fires-fire [] reading h = h
  Fires-fire ((key, rule) ∷ rules) reading (inl (enabled, holds, own)) =
      rw (enabled, holds) (Any-left P rule.actions _ own)
  Fires-fire ((key, rule) ∷ rules) reading (inr h) = elim (Bool-cases rule.enabled) [
    | inr disabled ↦ rw (disabled) (Fires-fire rules reading h)
    | inl enabled ↦ elim (Bool-cases (evaluate_all double rule.conditions reading)) [
      | inr fails ↦ rw (enabled, fails) (Fires-fire rules reading h)
      | inl holds ↦ rw (enabled, holds) (Any-right P rule.actions _ (Fires-fire rules reading h))
    ]
  ]

  -- Evaluating a reading gives an action exactly where an enabled rule whose conditions hold has it.
  pub evaluate_rules-Fires :
      (rules : RuleRepository Number V) (reading : SensorReading Number) (actions : List (Action V))
      → evaluate_rules double rules reading ≡ ok actions
      → Any P actions ↔ Any (Fires reading) rules
  unfolding evaluate_rules actions_of
  evaluate_rules-Fires rules reading actions e =
      subst (λ fired. Any P fired ↔ Any (Fires reading) rules) (ap actions_of e)
        (fire-Fires rules reading, Fires-fire rules reading)
