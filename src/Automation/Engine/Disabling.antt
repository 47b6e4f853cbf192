-- ===== src/Automation/Engine/Disabling.antt =====
-- A disabled rule fires as little as a removed one.
use iot_dashboard_flutter.Common.{
  false, ◌==◌, str_instance, str_beq_iff, [], ◌∷◌, Option, none, some, Str, ◌≡◌, refl, sym, ap, ◌∙◌,
  subst, inl, inr, arith, Bool-cases, Option-cases,
}
use iot_dashboard_flutter.Common.Map.{lookup, insert, erase, contains, contains-lookup}
use iot_dashboard_flutter.Automation.{Double, AutomationRule, SensorReading, RuleRepository}
use iot_dashboard_flutter.Automation.Repository.{get_enabled, get_by_id, update, remove}
use iot_dashboard_flutter.Automation.Engine.{evaluate_rules, set_enabled, disable_rule}

module _ {N V : Type 0} where
  -- Every rule stands under its id, and no id twice.
  unfoldable pub IsKeyed : RuleRepository N V → Type 0
  IsKeyed [] = Unit
  IsKeyed ((key, rule) ∷ rules) = rule.id ≡ key × contains key rules ≡ false × IsKeyed rules

  erase-absent : (k : Str) (m : RuleRepository N V) → contains k m ≡ false → erase k m ≡ m
  unfolding contains erase
  erase-absent k [] h = refl
  erase-absent k ((i, w) ∷ m) h = elim (Bool-cases (i == k)) [
    | inl same ↦ absurd (ground (arith, h, same))
    | inr other ↦ rw (other) (ap (◌∷◌ (i, w)) (erase-absent k m (rw (other) at h)))
  ]

  lookup-id :
      (k : Str) (m : RuleRepository N V) (rule : AutomationRule N V)
      → IsKeyed m
      → lookup k m ≡ some rule
      → rule.id ≡ k
  unfolding lookup IsKeyed
  lookup-id k [] rule w h = absurd (ground (arith, h))
  lookup-id k ((i, r) ∷ m) rule w h = elim (Bool-cases (i == k)) [
    | inl same ↦ ap (id_or k) (sym (rw (same) at h)) ∙ w.0 ∙ (str_beq_iff i k).0 same
    | inr other ↦ lookup-id k m rule w.2 (rw (other) at h)
  ]
    where
      id_or : Str → Option (AutomationRule N V) → Str
      id_or default none = default
      id_or default (some r) = r.id

  get_enabled-insert_disabled :
      (k : Str) (rule : AutomationRule N V) (m : RuleRepository N V)
      → rule.enabled ≡ false
      → IsKeyed m
      → get_enabled (insert k rule m) ≡ get_enabled (erase k m)
  unfolding get_enabled insert erase IsKeyed
  get_enabled-insert_disabled k rule [] off w = rw (off)
  get_enabled-insert_disabled k rule ((i, r) ∷ m) off w = elim (Bool-cases (i == k)) [
    | inl same ↦
        rw (same, off)
          (ap get_enabled (
            sym (
              erase-absent k m (subst (λ x. contains x m ≡ false) ((str_beq_iff i k).0 same) w.1))))
    | inr other ↦ rw (other, get_enabled-insert_disabled k rule m off w.2)
  ]

  get_enabled-disable_rule :
      (k : Str) (m : RuleRepository N V)
      → IsKeyed m
      → get_enabled (disable_rule k m).0 ≡ get_enabled (erase k m)
  unfolding disable_rule set_enabled get_by_id update
  get_enabled-disable_rule k m w = elim (Option-cases (lookup k m)) [
    | inl missing ↦
        rw (missing, set_enabled, get_by_id)
          (ap get_enabled (sym (erase-absent k m (contains-lookup k m ∙ rw (missing)))))
    | inr (rule, found) ↦
        rw (found, set_enabled, get_by_id, lookup-id k m rule w found, contains-lookup k m)
          (rw (found)
            (get_enabled-insert_disabled k (record rule { id = k; enabled = false }) m refl w))
  ]

  get_enabled-remove :
      (k : Str) (m : RuleRepository N V) → get_enabled (remove k m).0 ≡ get_enabled (erase k m)
  unfolding remove
  get_enabled-remove k m = elim (Bool-cases (contains k m)) [
    | inl known ↦ rw (known, remove)
    | inr unknown ↦ rw (unknown, remove) (ap get_enabled (sym (erase-absent k m unknown)))
  ]

-- After a rule is disabled, every reading fires the same actions as when the rule is removed: those of
-- the other rules, and none of its own.
pub evaluate_rules-disable_rule :
    (double : Double) {V : Type 0} (rule_id : Str) (rules : RuleRepository double.Number V)
    (reading : SensorReading double.Number)
    → IsKeyed rules
    → evaluate_rules double (disable_rule rule_id rules).0 reading
      ≡ evaluate_rules double (remove rule_id rules).0 reading
unfolding evaluate_rules
evaluate_rules-disable_rule double rule_id rules reading w =
    rw (get_enabled-disable_rule rule_id rules w, get_enabled-remove rule_id rules)
