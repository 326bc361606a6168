-- ===== src/Status.antt =====
-- internal/utils/kubernetes/status.go: the status conditions of a resource.
pub mod Conditions
pub mod Completed
pub mod Update
mod Tests
use gateway_operator.Prelude.{
  ℕ, String, ◌≡◌, refl, Bool, true, false, not, ◌&&◌, ◌||◌, Option, none, some, List, [], ◌∷◌, ◌++◌,
  ◌==◌, string_eq, nat_eq, filter_if, find_if, all_of, any_of, length, if◌then◌else◌,
}
use gateway_operator.Api.Meta.{Condition}
use gateway_operator.Api.Resources.{DataPlane, ControlPlane, GatewayConfiguration, Gateway}

abbrev pub condition_true : String
condition_true = "True"

abbrev pub condition_false : String
condition_false = "False"

abbrev pub ready_type : String
ready_type = "Ready"

abbrev pub dependencies_not_ready_reason : String
dependencies_not_ready_reason = "DependenciesNotReady"

abbrev pub resource_ready_reason : String
resource_ready_reason = "ResourceReady"

abbrev pub waiting_to_become_ready_reason : String
waiting_to_become_ready_reason = "WaitingToBecomeReady"

abbrev pub resource_created_or_updated_reason : String
resource_created_or_updated_reason = "ResourceCreatedOrUpdated"

abbrev pub unable_to_provision_reason : String
unable_to_provision_reason = "UnableToProvision"

abbrev pub dependencies_not_ready_message : String
dependencies_not_ready_message = "There are other conditions that are not yet ready"

abbrev pub waiting_to_become_ready_message : String
waiting_to_become_ready_message = "Waiting for the resource to become ready"

abbrev pub resource_created_message : String
resource_created_message = "Resource has been created"

abbrev pub resource_updated_message : String
resource_updated_message = "Resource has been updated"

-- The interface ConditionsAware, with the law that its implementations meet.
pub record ConditionsAware (A : Type 0) : Type 0 where
  pub get_conditions : A → List Condition
  pub set_conditions : List Condition → A → A
  pub get-set_conditions : (cs : List Condition) (a : A) → get_conditions (set_conditions cs a) ≡ cs

instance abbrev pub data_plane_conditions : ConditionsAware DataPlane
data_plane_conditions = record {
  get_conditions = λ d. d.conditions;
  set_conditions = λ cs d. record d { conditions = cs };
  get-set_conditions = λ cs d. refl;
}

instance abbrev pub control_plane_conditions : ConditionsAware ControlPlane
control_plane_conditions = record {
  get_conditions = λ c. c.conditions;
  set_conditions = λ cs c. record c { conditions = cs };
  get-set_conditions = λ cs c. refl;
}

instance abbrev pub gateway_configuration_conditions : ConditionsAware GatewayConfiguration
gateway_configuration_conditions = record {
  get_conditions = λ g. g.conditions;
  set_conditions = λ cs g. record g { conditions = cs };
  get-set_conditions = λ cs g. refl;
}

instance abbrev pub gateway_conditions : ConditionsAware Gateway
gateway_conditions = record {
  get_conditions = λ g. g.conditions;
  set_conditions = λ cs g. record g { conditions = cs };
  get-set_conditions = λ cs g. refl;
}

-- The loop of SetCondition, on the slice.
unfoldable pub set_condition_in : Condition → List Condition → List Condition
set_condition_in c cs = filter_if (λ d. not (d.type == c.type)) cs ++ c ∷ []

-- The loop of GetCondition.
unfoldable pub get_condition_in : String → List Condition → Option Condition
get_condition_in t cs = find_if (λ c. c.type == t) cs

-- `none` is the zero Condition with `false`.
abbrev pub is_status_true : Option Condition → Bool
is_status_true none = false
is_status_true (some c) = c.status == condition_true

unfoldable pub is_valid_condition_in : String → List Condition → Bool
is_valid_condition_in t cs = is_status_true (find_if (λ c. c.type == t) cs)

unfoldable pub are_all_conditions_ready_in : List Condition → Bool
are_all_conditions_ready_in cs =
    all_of (λ c. not (not (c.type == ready_type) && not (c.status == condition_true))) cs

unfoldable pub new_condition : ℕ → String → String → String → String → Condition
new_condition now t status reason message = record {
  type = t;
  status = status;
  reason = reason;
  message = message;
  observed_generation = 0;
  last_transition_time = now;
}

unfoldable pub ready_condition : ℕ → List Condition → Condition
unfolding are_all_conditions_ready_in
ready_condition now cs = record {
  type = ready_type;
  status = if ready then condition_true else condition_false;
  reason = if ready then resource_ready_reason else dependencies_not_ready_reason;
  message = if ready then "" else dependencies_not_ready_message;
  observed_generation = 0;
  last_transition_time = now;
}
  where
    ready : Bool
    ready = are_all_conditions_ready_in cs

-- Whether the condition differs from its namesake in the updated resource, or has none there.
unfoldable pub condition_outdated : Option Condition → Condition → Bool
condition_outdated none c = true
condition_outdated (some u) c =
    not (u.reason == c.reason) || not (u.message == c.message) || not (u.status == c.status)

unfoldable pub needs_update_in : List Condition → List Condition → Bool
unfolding condition_outdated get_condition_in
needs_update_in current updated =
    if not (length current == length updated)
    then true
    else any_of (λ c. condition_outdated (get_condition_in c.type updated) c) current

module _ {A : Type 0} ⦃r : ConditionsAware A⦄ where
  unfoldable pub set_condition : Condition → A → A
  set_condition c a = r.set_conditions (set_condition_in c (r.get_conditions a)) a

  unfoldable pub get_condition : String → A → Option Condition
  get_condition t a = get_condition_in t (r.get_conditions a)

  unfoldable pub is_valid_condition : String → A → Bool
  is_valid_condition t a = is_valid_condition_in t (r.get_conditions a)

  unfoldable pub init_ready : ℕ → A → A
  unfolding set_condition
  init_ready now = set_condition (
      new_condition now ready_type condition_false dependencies_not_ready_reason
        dependencies_not_ready_message)

  unfoldable pub set_ready : ℕ → A → A
  unfolding set_condition
  set_ready now a = set_condition (ready_condition now (r.get_conditions a)) a

  unfoldable pub are_all_conditions_ready : A → Bool
  are_all_conditions_ready a = are_all_conditions_ready_in (r.get_conditions a)

  -- The loop is that of IsValidCondition, written out once more.
  unfoldable pub is_ready : A → Bool
  is_ready a = is_valid_condition_in ready_type (r.get_conditions a)

  unfoldable pub needs_update : A → A → Bool
  needs_update current updated =
      needs_update_in (r.get_conditions current) (r.get_conditions updated)
