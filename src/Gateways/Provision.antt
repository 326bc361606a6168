-- ===== src/Gateways/Provision.antt =====
-- controllers/gateway_controller.go: the data plane and the control plane of a gateway, and what its
-- status says of them. A function that changes the gateway through its pointer returns it.
pub mod Told
pub mod OfData
pub mod OfControl
mod Tests
use gateway_operator.Prelude.{
  String, ◌<>◌, Option, none, some, List, string_eq, if◌then◌else◌, at_most_one, show_count, length,
}
use gateway_operator.Errors.{Err, Result, ok, err, message, error_text}
use gateway_operator.Api.Resources.{
  DataPlane, ControlPlane, ControlPlaneOptions, DeploymentOptions, Gateway, GatewayClass,
  GatewayConfiguration,
}
use gateway_operator.Api.Workloads.{Service}
use gateway_operator.Status.{
  data_plane_conditions, control_plane_conditions, gateway_conditions, condition_true,
  condition_false, new_condition, set_condition, is_ready, resource_ready_reason,
  waiting_to_become_ready_reason, resource_created_or_updated_reason, unable_to_provision_reason,
  waiting_to_become_ready_message, resource_created_message, resource_updated_message,
}
use gateway_operator.DataPlanes.Generators.{data_plane_spec_deep_equal}
use gateway_operator.ControlPlanes.Generators.{control_plane_spec_deep_equal}
use gateway_operator.Gateways.{list_data_planes_for_gateway, list_control_planes_for_gateway}
use gateway_operator.Gateways.Classes.{
  set_dataplane_gateway_config_defaults, set_controlplane_gateway_config_defaults,
}
use gateway_operator.Gateways.Owned.{create_data_plane, create_control_plane}
use gateway_operator.Client.{Client, M, pure, read, attempt, ◌>>=◌}
use gateway_operator.Client.Calls

abbrev pub gateway_scheduled_type : String
gateway_scheduled_type = "GatewayScheduled"

abbrev pub gateway_service_type : String
gateway_service_type = "GatewayService"

abbrev pub control_plane_ready_type : String
control_plane_ready_type = "ControlPlaneReady"

abbrev pub data_plane_ready_type : String
data_plane_ready_type = "DataPlaneReady"

abbrev pub gateway_service_error_reason : String
gateway_service_error_reason = "GatewayServiceError"

-- GatewayConditionScheduled and GatewayReasonScheduled of the Gateway API.
abbrev pub scheduled : String
scheduled = "Scheduled"

module _ (c : Client) where
  -- SetCondition with a NewCondition, which reads the clock.
  unfoldable pub mark : String → String → String → String → Gateway → M Gateway
  unfolding set_condition new_condition
  mark type status reason text g = do
    now ← read c.now
    pure (set_condition (new_condition now type status reason text) g)

  -- What both provisioning functions do with an error: there is no plane.
  unfoldable pub unable : {A : Type 0} → String → Gateway → Err → M (Gateway × Option A)
  unfolding mark
  unable type g e = do
    g' ← mark type condition_false unable_to_provision_reason (error_text e) g
    pure (g', none)

  unfoldable pub created :
      {A : Type 0} → String → Gateway → Result (Unit {0}) → M (Gateway × Option A)
  unfolding mark unable
  created type g (ok _) = do
    g' ← mark type condition_false resource_created_or_updated_reason resource_created_message g
    pure (g', none)
  created type g (err e) = unable type g e

  -- Whether the data plane is ready.
  unfoldable pub await_data_plane : Gateway → DataPlane → M (Gateway × Option DataPlane)
  unfolding mark is_ready
  await_data_plane g d =
      if is_ready d
      then (do
        g' ← mark data_plane_ready_type condition_true resource_ready_reason "" g
        pure (g', some d))
      else (do
        g' ←
            mark data_plane_ready_type condition_false waiting_to_become_ready_reason
              waiting_to_become_ready_message g
        pure (g', some d))

  unfoldable pub updated_data_plane : Gateway → Result DataPlane → M (Gateway × Option DataPlane)
  unfolding mark unable await_data_plane
  updated_data_plane g (ok d) = do
    g' ←
        mark data_plane_ready_type condition_false resource_created_or_updated_reason
          resource_updated_message g
    await_data_plane g' d
  updated_data_plane g (err e) = unable data_plane_ready_type g e

  unfoldable pub refresh_data_plane :
      Gateway → Option DeploymentOptions → DataPlane → M (Gateway × Option DataPlane)
  unfolding await_data_plane updated_data_plane data_plane_spec_deep_equal
  refresh_data_plane g none d = await_data_plane g d
  refresh_data_plane g (some options) d =
      if data_plane_spec_deep_equal d.spec options then await_data_plane g d else (do
        r ← attempt (Calls.update_data_plane c (record d { spec = options }))
        updated_data_plane g r)

  unfoldable pub found_data_planes :
      Gateway → GatewayConfiguration → Result (List DataPlane) → M (Gateway × Option DataPlane)
  unfolding create_data_plane created unable refresh_data_plane
  found_data_planes g config (err e) = unable data_plane_ready_type g e
  found_data_planes g config (ok ds) =
      at_most_one (do r ← attempt (create_data_plane c g config); created data_plane_ready_type g r)
        (refresh_data_plane g config.data_plane_options)
        (unable data_plane_ready_type g (
          message (
            "data plane deployments found: "
            <> show_count (length ds)
            <> ", expected: 1, requeing")))
        ds

  -- With the order in which Go ranges over the defaults. These are set in the options for data planes,
  -- which are not read after this.
  unfoldable pub provision_data_plane :
      List (String × String) → Gateway → GatewayConfiguration → M (Gateway × Option DataPlane)
  unfolding set_dataplane_gateway_config_defaults list_data_planes_for_gateway found_data_planes
  provision_data_plane order g config = do
    r ← attempt (list_data_planes_for_gateway c g)
    found_data_planes g (set_dataplane_gateway_config_defaults order config) r

  -- Whether the control plane is ready: there is none before it is.
  unfoldable pub await_control_plane : Gateway → ControlPlane → M (Gateway × Option ControlPlane)
  unfolding mark is_ready
  await_control_plane g p =
      if is_ready p
      then (do
        g' ← mark control_plane_ready_type condition_true resource_ready_reason "" g
        pure (g', some p))
      else (do
        g' ←
            mark control_plane_ready_type condition_false waiting_to_become_ready_reason
              waiting_to_become_ready_message g
        pure (g', none))

  unfoldable pub updated_control_plane :
      Gateway → Result ControlPlane → M (Gateway × Option ControlPlane)
  unfolding mark unable await_control_plane
  updated_control_plane g (ok p) = do
    g' ←
        mark control_plane_ready_type condition_false resource_created_or_updated_reason
          resource_updated_message g
    await_control_plane g' p
  updated_control_plane g (err e) = unable control_plane_ready_type g e

  unfoldable pub refresh_control_plane :
      Gateway → Option ControlPlaneOptions → ControlPlane → M (Gateway × Option ControlPlane)
  unfolding await_control_plane updated_control_plane control_plane_spec_deep_equal
  refresh_control_plane g none p = await_control_plane g p
  refresh_control_plane g (some options) p =
      if control_plane_spec_deep_equal p.spec options then await_control_plane g p else (do
        r ← attempt (Calls.update_control_plane c (record p { spec = options }))
        updated_control_plane g r)

  unfoldable pub found_control_planes :
      GatewayClass
      → Gateway
      → GatewayConfiguration
      → String
      → Result (List ControlPlane)
      → M (Gateway × Option ControlPlane)
  unfolding create_control_plane created unable refresh_control_plane
  found_control_planes k g config data_plane_name (err e) = unable control_plane_ready_type g e
  found_control_planes k g config data_plane_name (ok ps) =
      at_most_one
        (do
          r ← attempt (create_control_plane c k g config data_plane_name)
          created control_plane_ready_type g r)
        (refresh_control_plane g config.control_plane_options)
        (unable control_plane_ready_type g (
          message (
            "control plane deployments found: "
            <> show_count (length ps)
            <> ", expected: 1, requeing")))
        ps

  unfoldable pub provision_control_plane :
      GatewayClass
      → Gateway
      → GatewayConfiguration
      → DataPlane
      → Service
      → M (Gateway × Option ControlPlane)
  unfolding set_controlplane_gateway_config_defaults list_control_planes_for_gateway
      found_control_planes
  provision_control_plane k g config d service = do
    r ← attempt (list_control_planes_for_gateway c g)
    found_control_planes k g
        (set_controlplane_gateway_config_defaults g config d.metadata.name service.metadata.name)
        d.metadata.name r
