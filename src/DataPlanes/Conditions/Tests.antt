-- ===== src/DataPlanes/Conditions/Tests.antt =====
-- The marking of a data plane that was provisioned.
use gateway_operator.Prelude.{String, ◌≡◌, refl, true, List, [], ◌∷◌, All, any_of, ◌==◌, string_eq}
use gateway_operator.Api.Meta.{Condition}
use gateway_operator.DataPlanes.Conditions.{provisioned_type, not_provisioned_conditions}
use gateway_operator.DataPlanes.Conditions.NotProvisioned.{Agrees, marked-Agrees}

abbrev condition : String → String → Condition
condition status reason = record {
  type = "Provisioned";
  status = status;
  reason = reason;
  message = "";
  observed_generation = 1;
  last_transition_time = 5;
}

abbrev failed : Condition
failed = condition "False" "ValidationFailed"

abbrev before : List Condition
before = condition "True" "PodsReady" ∷ []

marked-Agrees_example :
    All (Agrees failed) (not_provisioned_conditions failed before).0
    × (any_of (λ c. c.type == provisioned_type) (not_provisioned_conditions failed before).0 ≡ true)
marked-Agrees_example = marked-Agrees failed before refl
