-- ===== src/Status/Tests.antt =====
-- The status conditions of a data plane, at concrete values.
use gateway_operator.Prelude.{
  String, ◌≡◌, refl, true, false, some, [], ◌∷◌, arith, eq_iff, ◌↔◌, length,
}
use gateway_operator.Api.Meta.{Condition, empty_meta}
use gateway_operator.Api.Resources.{DataPlane, empty_options, data_plane_object}
use gateway_operator.Status.{
  condition_true, condition_false, ready_type, set_condition, get_condition, set_ready, is_ready,
  needs_update, data_plane_conditions, needs_update_in, is_valid_condition_in, ready_condition,
  set_condition_in,
}
use gateway_operator.Status.Conditions.{
  IsKeyed, get-set_condition, set_condition-IsKeyed, is_ready-set_ready, OthersTrue,
}
use gateway_operator.Status.Update.{needs_update_iff, Covers}

abbrev condition : String → String → Condition
condition t status = record {
  type = t;
  status = status;
  reason = "PodsNotReady";
  message = "m";
  observed_generation = 1;
  last_transition_time = 7;
}

abbrev plane : DataPlane
plane = record {
  metadata = empty_meta;
  spec = empty_options;
  conditions = condition ready_type condition_false ∷ condition "Provisioned" condition_true ∷ [];
  service = "";
}

plane-IsKeyed : IsKeyed plane.conditions
plane-IsKeyed t =
    ground (arith, eq_iff "Ready" t, eq_iff "Provisioned" t, eq_iff "Ready" "Provisioned")

get-set_condition_example :
    get_condition "Provisioned" (set_condition (condition "Provisioned" condition_false) plane)
    ≡ some (condition "Provisioned" condition_false)
get-set_condition_example =
    get-set_condition "Provisioned" (condition "Provisioned" condition_false) plane

set_condition-IsKeyed_example :
    IsKeyed (set_condition (condition "Provisioned" condition_false) plane).conditions
set_condition-IsKeyed_example =
    set_condition-IsKeyed (condition "Provisioned" condition_false) plane plane-IsKeyed

is_ready-set_ready_example : (is_ready (set_ready 9 plane) ≡ true) ↔ OthersTrue plane.conditions
is_ready-set_ready_example = is_ready-set_ready 9 plane

needs_update_iff_example : (needs_update plane (set_ready 9 plane) ≡ false) ↔ (
    (length plane.conditions ≡ length (set_ready 9 plane).conditions)
    × Covers plane.conditions (set_ready 9 plane).conditions)
needs_update_iff_example = needs_update_iff plane (set_ready 9 plane) plane-IsKeyed

ready_after_set : is_ready (set_ready 9 plane) ≡ true
unfolding is_ready set_ready is_valid_condition_in set_condition_in ready_condition
ready_after_set = refl

update_wanted : needs_update plane (set_ready 9 plane) ≡ true
unfolding needs_update needs_update_in set_ready set_condition_in ready_condition
update_wanted = refl
