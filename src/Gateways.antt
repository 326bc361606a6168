-- ===== src/Gateways.antt =====
-- internal/utils/gateway/{ownerrefs.go,status.go}: the objects of a gateway, and its status.
pub mod ServiceName
pub mod Classes
pub mod Owned
pub mod Watch
pub mod Provision
pub mod Readiness
pub mod Reconciler
pub mod Samples
mod Tests
use gateway_operator.Prelude.{
  String, ◌<>◌, Bool, true, false, ◌&&◌, Option, none, some, List, [], ◌∷◌, ◌==◌, string_eq, any_of,
  if◌then◌else◌, length, show_count, at_most_one,
}
use gateway_operator.Errors.{message, data_plane_not_set}
use gateway_operator.Api.Meta.{NamespacedName, Condition}
use gateway_operator.Api.Resources.{DataPlane, ControlPlane, Gateway}
use gateway_operator.Api.Workloads.{Service, NetworkPolicy}
use gateway_operator.Metadata.{
  gateway_operator_controlled_label, data_plane_managed_label_value, gateway_managed_label_value,
}
use gateway_operator.Status.{condition_true, ready_type, resource_ready_reason}
use gateway_operator.Lists.{owned_items, list_services_for_owner}
use gateway_operator.Client.{Client, ListOptions, M, pure, raise, ◌>>=◌}
use gateway_operator.Client.Calls

-- GatewayConditionScheduled and GatewayReasonScheduled are both "Scheduled".
unfoldable pub is_scheduled : Gateway → Bool
is_scheduled g =
    any_of (λ c. c.type == "Scheduled" && c.reason == "Scheduled" && c.status == condition_true)
      g.conditions

unfoldable pub is_gateway_ready : Gateway → Bool
is_gateway_ready g =
    any_of
      (λ c. c.type == ready_type && c.reason == resource_ready_reason && c.status == condition_true)
      g.conditions

abbrev gateway_managed : Gateway → ListOptions
gateway_managed g = record {
  namespace = some g.metadata.namespace;
  label = gateway_operator_controlled_label;
  value = gateway_managed_label_value;
}

module _ (c : Client) where
  unfoldable pub list_data_planes_for_gateway : Gateway → M (List DataPlane)
  unfolding owned_items
  list_data_planes_for_gateway g =
      if g.metadata.namespace == ""
      then raise
          (message "can't list dataplanes for gateway: gateway resource was missing namespace")
      else (do
        items ← Calls.list_data_planes c (gateway_managed g)
        pure (owned_items (λ d. d.metadata) g.metadata.uid items))

  unfoldable pub list_control_planes_for_gateway : Gateway → M (List ControlPlane)
  unfolding owned_items
  list_control_planes_for_gateway g =
      if g.metadata.namespace == ""
      then raise
          (message "can't list dataplanes for gateway: gateway resource was missing namespace")
      else (do
        items ← Calls.list_control_planes c (gateway_managed g)
        pure (owned_items (λ p. p.metadata) g.metadata.uid items))

  unfoldable pub list_network_policies_for_gateway : Gateway → M (List NetworkPolicy)
  unfolding owned_items
  list_network_policies_for_gateway g =
      if g.metadata.namespace == ""
      then raise
          (message "can't list networkpolicies for gateway: gateway resource was missing namespace")
      else (do
        items ← Calls.list_network_policies c (gateway_managed g)
        pure (owned_items (λ p. p.metadata) g.metadata.uid items))

  unfoldable pub get_data_plane_for_control_plane : ControlPlane → M DataPlane
  get_data_plane_for_control_plane p =
      let unset = raise (
        data_plane_not_set
          (", controlplane = " <> p.metadata.namespace <> "/" <> p.metadata.name)) in
      elim p.spec.data_plane [
        | none ↦ unset
        | some name ↦
            if name == ""
            then unset
            else Calls.get_data_plane c (record { namespace = p.metadata.namespace; name = name })
      ]

  unfoldable pub get_data_plane_service_name : DataPlane → M String
  unfolding list_services_for_owner show_count
  get_data_plane_service_name d = do
    services ←
        list_services_for_owner c gateway_operator_controlled_label data_plane_managed_label_value
          d.metadata.namespace d.metadata.uid
    at_most_one (raise (message "found 0 services for DataPlane")) (λ s. pure s.metadata.name)
        (raise (
          message (
            "found "
            <> show_count (length services)
            <> " services for DataPlane currently unsupported: expected 1 or less")))
        services
