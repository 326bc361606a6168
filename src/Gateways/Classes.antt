-- ===== src/Gateways/Classes.antt =====
-- controllers/gateway_controller_reconciler_utils.go and gateway_controller_watch.go: the class of a
-- gateway, and the configuration that the class refers to.
use gateway_operator.Prelude.{
  String, ◌<>◌, Bool, true, not, ◌&&◌, ◌||◌, Option, none, some, List, [], ◌==◌, string_eq,
  if◌then◌else◌, map,
}
use gateway_operator.Errors.{
  Err, Result, ok, err, message, unsupported_gateway, missing_parameters_ref,
  is_missing_parameters_ref,
}
use gateway_operator.Api.Meta.{empty_meta}
use gateway_operator.Api.Resources.{
  DeploymentOptions, Gateway, GatewayClass, GatewayConfiguration, ParametersReference,
  ControlPlaneOptions, empty_options, scheme_group,
}
use gateway_operator.DataPlanes.Defaults.{set_data_plane_defaults}
use gateway_operator.ControlPlanes.Env.{set_control_plane_defaults}
use gateway_operator.Client.{Client, M, pure, raise, attempt, ◌>>=◌}
use gateway_operator.Client.Calls

-- `new(operatorv1alpha1.GatewayConfiguration)`
abbrev pub empty_configuration : GatewayConfiguration
empty_configuration = record {
  metadata = empty_meta;
  data_plane_options = none;
  control_plane_options = none;
  conditions = [];
}

-- A pointer to a text that is nil or empty.
abbrev pub is_unset : Option String → Bool
is_unset none = true
is_unset (some s) = s == ""

-- The group and the kind of a reference are those of a GatewayConfiguration.
abbrev pub refers_to_configuration : ParametersReference → Bool
refers_to_configuration ref = ref.group == scheme_group && ref.kind == "GatewayConfiguration"

abbrev namespace_of : Option String → String
namespace_of none = ""
namespace_of (some s) = s

-- The client, and vars.ControllerName.
module _ (c : Client) (controller_name : String) where
  unfoldable pub gateway_class_matches_controller : GatewayClass → Bool
  gateway_class_matches_controller k = k.controller_name == controller_name

  unfoldable pub verify_gateway_class_support : Gateway → M GatewayClass
  unfolding gateway_class_matches_controller
  verify_gateway_class_support g =
      if g.gateway_class_name == "" then raise unsupported_gateway else (do
        k ← Calls.get_gateway_class c g.gateway_class_name
        if not (gateway_class_matches_controller k) then raise unsupported_gateway else pure k)

  -- The error for another kind of reference has no message.
  unfoldable pub get_gateway_config_for_gateway_class : GatewayClass → M GatewayConfiguration
  get_gateway_config_for_gateway_class k = elim k.parameters_ref [
    | none ↦ raise (missing_parameters_ref (", gatewayClass = " <> k.metadata.name))
    | some ref ↦
        if not (refers_to_configuration ref)
        then raise (Err.api "")
        else if is_unset ref.namespace || ref.name == ""
        then raise (
            message (
              "GatewayClass " <> k.metadata.name
              <> " has invalid ParametersRef: both namespace and name must be provided"))
        else Calls.get_gateway_config c
            (record { namespace = namespace_of ref.namespace; name = ref.name })
  ]

  abbrev pub or_empty_configuration : Result GatewayConfiguration → M GatewayConfiguration
  or_empty_configuration (ok g) = pure g
  or_empty_configuration (err e) =
      if is_missing_parameters_ref e then pure empty_configuration else raise e

  unfoldable pub get_or_create_gateway_configuration : GatewayClass → M GatewayConfiguration
  unfolding get_gateway_config_for_gateway_class
  get_or_create_gateway_configuration k = do
    r ← attempt (get_gateway_config_for_gateway_class k)
    or_empty_configuration r

-- The options of a configuration, with `new(…)` in place of a nil pointer.
abbrev pub data_plane_options_of : GatewayConfiguration → DeploymentOptions
data_plane_options_of g = elim g.data_plane_options [ none ↦ empty_options | some o ↦ o ]

abbrev pub control_plane_options_of : GatewayConfiguration → ControlPlaneOptions
control_plane_options_of g = elim g.control_plane_options [
  | none ↦ record { deployment = empty_options; data_plane = none }
  | some o ↦ o
]

-- setDataplaneGatewayConfigDefaults, with the order in which Go ranges over the defaults.
unfoldable pub set_dataplane_gateway_config_defaults :
    List (String × String) → GatewayConfiguration → GatewayConfiguration
unfolding set_data_plane_defaults
set_dataplane_gateway_config_defaults order g = record g {
  data_plane_options = some (set_data_plane_defaults order (data_plane_options_of g));
}

-- The options with the name of the data plane where they name none.
abbrev with_data_plane : String → ControlPlaneOptions → ControlPlaneOptions
with_data_plane name o = record o {
  data_plane = if is_unset o.data_plane then some name else o.data_plane;
}

-- setControlplaneGatewayConfigDefaults: what the user has set is not overridden.
unfoldable pub set_controlplane_gateway_config_defaults :
    Gateway → GatewayConfiguration → String → String → GatewayConfiguration
unfolding set_control_plane_defaults
set_controlplane_gateway_config_defaults g config data_plane_name service_name =
    let o = with_data_plane data_plane_name (control_plane_options_of config) in
    record config {
      control_plane_options = some (
          (set_control_plane_defaults o g.metadata.namespace service_name
            (map (λ e. e.name) o.deployment.env)).0);
    }
