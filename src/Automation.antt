-- ===== src/Automation.antt =====
-- src/automation/rule_types.hpp and condition_evaluator.cpp; the child modules have the repository
-- and the engine. Numbers of type `double` are a parameter, and so is JSON, whose values are the
-- actions' parameters.
pub mod Evaluation
pub mod Repository
pub mod Engine
pub mod Json
use iot_dashboard_flutter.Common.{
  ℕ, Bool, true, false, not, ◌||◌, ◌==◌, str_instance, is_empty, all_of, keep_if, if◌then◌else◌,
  List, [], ◌∷◌, ◌++◌, map, Option, none, some, Str, str, ◌≡◌,
}
use iot_dashboard_flutter.Common.Map.{lookup, insert, erase, contains}
use iot_dashboard_flutter.Errors.{Result, ok, err, invalid_input, data_not_found}

-- The comparisons of `double`, with those of IEEE 754 as laws. A number that is not a NaN is equal to
-- itself.
pub record Double : Type 1 where
  pub Number : Type 0
  pub less : Number → Number → Bool
  pub equal : Number → Number → Bool
  pub less_or_equal : Number → Number → Bool
  pub less_or_equal_iff : (a b : Number) → less_or_equal a b ≡ (less a b || equal a b)
  pub less_total :
      (a b : Number) → equal a a ≡ true → equal b b ≡ true → less a b ≡ not (less b a || equal b a)
  pub unordered : (a b : Number) → equal a a ≡ false → less a b ≡ false
  pub unordered_right : (a b : Number) → equal b b ≡ false → less a b ≡ false
  pub equal_nan : (a b : Number) → equal a a ≡ false → equal a b ≡ false
  pub equal_nan_right : (a b : Number) → equal b b ≡ false → equal a b ≡ false
  pub equal_sym : (a b : Number) → equal a b ≡ equal b a

pub data ComparisonOp : Type 0 where
  greater_than less_than equal_to not_equal greater_or_equal less_or_equal_to : ComparisonOp

unfoldable pub op_from_string : Str → ComparisonOp
op_from_string s =
    if s == str ">"
    then greater_than
    else if s == str "<"
    then less_than
    else if s == str "=="
    then equal_to
    else if s == str "!="
    then not_equal
    else if s == str ">="
    then greater_or_equal
    else if s == str "<="
    then less_or_equal_to
    else equal_to

unfoldable pub op_to_string : ComparisonOp → Str
op_to_string greater_than = str ">"
op_to_string less_than = str "<"
op_to_string equal_to = str "=="
op_to_string not_equal = str "!="
op_to_string greater_or_equal = str ">="
op_to_string less_or_equal_to = str "<="

pub record Action (V : Type 0) : Type 0 where
  pub device_id : Str
  pub command : Str
  pub parameters : V

pub record Condition (N : Type 0) : Type 0 where
  pub sensor_type : Str
  pub op : ComparisonOp
  pub threshold : N

pub record AutomationRule (N V : Type 0) : Type 0 where
  pub id : Str
  pub name : Str
  pub enabled : Bool
  pub conditions : List (Condition N)
  pub actions : List (Action V)
  pub created_by : Str

pub record SensorReading (N : Type 0) : Type 0 where
  pub device_id : Str
  pub sensor : Str
  pub value : N
  pub unit : Str
  pub timestamp : ℕ
  pub quality : Option Str

-- `m_rules` of the repository
abbrev pub RuleRepository : Type 0 → Type 0 → Type 0
RuleRepository N V = List (Str × AutomationRule N V)

module _ (double : Double) where
  open double use {Number, less, equal, less_or_equal}

  -- `v op t`
  unfoldable pub compare : ComparisonOp → Number → Number → Bool
  compare greater_than v t = less t v
  compare less_than v t = less v t
  compare equal_to v t = equal v t
  compare not_equal v t = not (equal v t)
  compare greater_or_equal v t = less_or_equal t v
  compare less_or_equal_to v t = less_or_equal v t

  unfoldable pub evaluate : Condition Number → SensorReading Number → Bool
  unfolding compare
  evaluate condition reading =
      if not (reading.sensor == condition.sensor_type)
      then false
      else compare condition.op reading.value condition.threshold

  unfoldable pub evaluate_all : List (Condition Number) → SensorReading Number → Bool
  unfolding evaluate
  evaluate_all conditions reading =
      if is_empty conditions then false else all_of (λ c. evaluate c reading) conditions
