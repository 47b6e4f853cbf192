-- ===== src/Automation/Evaluation.antt =====
-- What conditions and rules mean.
use iot_dashboard_flutter.Common.{
  true, false, not, str_instance, str_beq, is_empty, all_of, List, [], ◌∷◌, str, ◌≡◌, refl, ◌↔◌,
  arith, All, str_beq_iff,
}
use iot_dashboard_flutter.Automation.{
  Double, ComparisonOp, greater_than, less_than, equal_to, not_equal, greater_or_equal,
  less_or_equal_to, op_from_string, op_to_string, Condition, SensorReading, compare, evaluate,
  evaluate_all,
}

-- A comparison written as text is read as the same comparison.
pub op_from_string-to_string : (op : ComparisonOp) → op_from_string (op_to_string op) ≡ op
unfolding op_from_string op_to_string str str_beq
op_from_string-to_string greater_than = refl
op_from_string-to_string less_than = refl
op_from_string-to_string equal_to = refl
op_from_string-to_string not_equal = refl
op_from_string-to_string greater_or_equal = refl
op_from_string-to_string less_or_equal_to = refl

unfoldable pub opposite : ComparisonOp → ComparisonOp
opposite greater_than = less_or_equal_to
opposite less_than = greater_or_equal
opposite equal_to = not_equal
opposite not_equal = equal_to
opposite greater_or_equal = less_than
opposite less_or_equal_to = greater_than

module _ (double : Double) where
  open double use {Number, equal}

  -- On numbers that are not NaN a comparison holds exactly where the opposite one does not.
  compare-opposite :
      (op : ComparisonOp) (v t : Number)
      → equal v v ≡ true
      → equal t t ≡ true
      → compare double (opposite op) v t ≡ not (compare double op v t)
  unfolding compare opposite
  compare-opposite greater_than v t hv ht =
      ground (arith, double.less_or_equal_iff v t, double.less_total t v ht hv)
  compare-opposite less_than v t hv ht =
      ground (arith, double.less_or_equal_iff t v, double.less_total v t hv ht)
  compare-opposite equal_to v t hv ht = refl
  compare-opposite not_equal v t hv ht = ground arith
  compare-opposite greater_or_equal v t hv ht =
      ground (arith, double.less_or_equal_iff t v, double.less_total v t hv ht)
  compare-opposite less_or_equal_to v t hv ht =
      ground (arith, double.less_or_equal_iff v t, double.less_total t v ht hv)

  -- The condition is on the reading's sensor, and its comparison holds.
  unfoldable pub IsSatisfied : SensorReading Number → Condition Number → Type 0
  IsSatisfied reading c =
      reading.sensor ≡ c.sensor_type × compare double c.op reading.value c.threshold ≡ true

  evaluate_iff :
      (c : Condition Number) (reading : SensorReading Number)
      → evaluate double c reading ≡ true ↔ IsSatisfied reading c
  unfolding evaluate IsSatisfied
  evaluate_iff c reading = ground (arith, str_beq_iff reading.sensor c.sensor_type)

  all_of_iff :
      (cs : List (Condition Number)) (reading : SensorReading Number)
      → all_of (λ c. evaluate double c reading) cs ≡ true ↔ All (IsSatisfied reading) cs
  all_of_iff [] reading = (λ h. tt, λ h. refl)
  all_of_iff (c ∷ cs) reading = ground (arith, evaluate_iff c reading, all_of_iff cs reading)

  -- The conditions of a rule hold for a reading exactly where there is one at least, and each is on the
  -- reading's sensor and satisfied by its value.
  evaluate_all_iff :
      (cs : List (Condition Number)) (reading : SensorReading Number)
      → evaluate_all double cs reading ≡ true ↔ (is_empty cs ≡ false × All (IsSatisfied reading) cs)
  unfolding evaluate_all
  evaluate_all_iff cs reading = ground (arith, all_of_iff cs reading)
