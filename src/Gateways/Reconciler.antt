-- ===== src/Gateways/Reconciler.antt =====
-- controllers/gateway_controller.go: one reconciliation of a gateway, one definition for each stage.
pub mod Safety
pub mod Planes
pub mod Writes
pub mod Provisioned
pub mod Stages
pub mod Progress
mod Tests
use gateway_operator.Prelude.{String, ◌<>◌, not, Option, none, some, List, string_eq, if◌then◌else◌}
use gateway_operator.Errors.{Result, ok, err, panic, is_not_found, is_unsupported_gateway}
use gateway_operator.Api.Meta.{NamespacedName}
use gateway_operator.Api.Resources.{
  DataPlane, ControlPlane, Gateway, GatewayClass, GatewayConfiguration,
}
use gateway_operator.Status.{
  data_plane_conditions, control_plane_conditions, gateway_conditions, condition_true,
  is_valid_condition, init_ready, set_ready, is_ready,
}
use gateway_operator.Gateways.Classes.{
  verify_gateway_class_support, get_or_create_gateway_configuration,
}
use gateway_operator.Gateways.Owned.{ensure_data_plane_has_network_policy}
use gateway_operator.Client.{Client, M, pure, raise, read, attempt, ◌>>=◌}
use gateway_operator.Client.Calls
use gateway_operator.Gateways.Provision.{
  mark, provision_data_plane, provision_control_plane, gateway_scheduled_type, scheduled,
  data_plane_ready_type, control_plane_ready_type,
}
use gateway_operator.Gateways.Readiness.{
  service_of, ensure_gateway_marked_ready, mark_service, update_status,
}

-- A nil pointer to a plane that is needed.
abbrev pub needed : {A : Type 0} → Option A → M A
needed none = raise (panic "nil pointer dereference")
needed (some a) = pure a

-- The client, vars.ControllerName, and the order in which Go ranges over the defaults.
module _ (c : Client) (controller_name : String) (order : List (String × String)) where
  -- Everything is in place.
  unfoldable pub finish : Gateway → DataPlane → M (Unit {0})
  unfolding ensure_gateway_marked_ready mark_service set_ready is_ready update_status
  finish g d = do
    (announced, r) ← ensure_gateway_marked_ready c g d
    marked ← mark_service c announced r
    now ← read c.now
    update_status c (if is_ready marked then marked else set_ready now marked)

  unfoldable pub secure : Gateway → DataPlane → ControlPlane → M (Unit {0})
  unfolding ensure_data_plane_has_network_policy finish
  secure g d p = do
    written ← ensure_data_plane_has_network_policy c g d p
    if written then pure tt else finish g d

  -- There is a data plane that is ready, with its Service.
  unfoldable pub control : GatewayClass → Gateway → GatewayConfiguration → DataPlane → M (Unit {0})
  unfolding service_of provision_control_plane secure update_status is_valid_condition
  control k g config d = do
    service ← service_of c d
    (g', found) ← provision_control_plane c k g config d service
    if not (is_valid_condition control_plane_ready_type g')
        then update_status c g'
        else do p ← needed found; secure g' d p

  unfoldable pub provision : GatewayClass → Gateway → GatewayConfiguration → M (Unit {0})
  unfolding provision_data_plane control update_status is_valid_condition
  provision k g config = do
    (g', found) ← provision_data_plane c order g config
    if not (is_valid_condition data_plane_ready_type g')
        then update_status c g'
        else do d ← needed found; control k g' config d

  unfoldable pub schedule : Gateway → M Gateway
  unfolding mark is_valid_condition
  schedule g =
      if is_valid_condition gateway_scheduled_type g
      then pure g
      else mark c scheduled condition_true scheduled
          ("this gateway has been picked up by the " <> controller_name <> " and will be processed")
          g

  unfoldable pub supported : Gateway → Result GatewayClass → M (Unit {0})
  unfolding schedule get_or_create_gateway_configuration provision
  supported g (err e) = if is_unsupported_gateway e then pure tt else raise e
  supported g (ok k) = do
    g' ← schedule g
    config ← get_or_create_gateway_configuration c controller_name k
    provision k g' config

  unfoldable pub reconcile_found : Gateway → M (Unit {0})
  unfolding init_ready verify_gateway_class_support supported
  reconcile_found fetched = do
    now ← read c.now
    let g = init_ready now fetched
    r ← attempt (verify_gateway_class_support c controller_name g)
    supported g r

  unfoldable pub or_gone : Result Gateway → M (Unit {0})
  unfolding reconcile_found
  or_gone (ok g) = reconcile_found g
  or_gone (err e) = if is_not_found e then pure tt else raise e

  unfoldable pub reconcile : NamespacedName → M (Unit {0})
  unfolding or_gone
  reconcile name = do r ← attempt (Calls.get_gateway c name); or_gone r
