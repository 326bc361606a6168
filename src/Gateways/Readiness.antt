-- ===== src/Gateways/Readiness.antt =====
-- ensureGatewayMarkedReady of controllers/gateway_controller_reconciler_utils.go, and updateStatus of
-- controllers/gateway_controller.go. A function that changes the gateway returns it also on failure.
pub mod Addresses
mod Tests
use gateway_operator.Prelude.{
  String, ◌<>◌, List, [], ◌∷◌, ◌==◌, string_eq, if◌then◌else◌, at_most_one, show_count, length,
}
use gateway_operator.Errors.{Result, ok, err, message, error_text, is_not_found}
use gateway_operator.Api.Meta.{empty_meta}
use gateway_operator.Api.Resources.{DataPlane, Gateway}
use gateway_operator.Api.Workloads.{Service}
use gateway_operator.Metadata.{gateway_operator_controlled_label, data_plane_managed_label_value}
use gateway_operator.Status.{
  data_plane_conditions, control_plane_conditions, gateway_conditions, condition_true,
  condition_false, set_ready, is_ready, needs_update, resource_ready_reason,
}
use gateway_operator.Lists.{list_services_for_owner}
use gateway_operator.Client.{Client, M, pure, raise, read, attempt, ◌>>=◌, ◌>>◌}
use gateway_operator.Client.Calls
use gateway_operator.Gateways.Provision.{mark, gateway_service_type, gateway_service_error_reason}

abbrev empty_gateway : Gateway
empty_gateway = record {
  metadata = empty_meta;
  gateway_class_name = "";
  conditions = [];
  addresses = [];
}

module _ (c : Client) where
  -- The one Service of a data plane, for two callers.
  unfoldable pub service_of : DataPlane → M Service
  unfolding list_services_for_owner
  service_of d = do
    services ←
        list_services_for_owner c gateway_operator_controlled_label data_plane_managed_label_value
          d.metadata.namespace d.metadata.uid
    at_most_one
        (raise (
          message
            ("no services found for dataplane " <> d.metadata.namespace <> "/" <> d.metadata.name)))
        pure
        (raise (
          message (
            "found "
            <> show_count (length services)
            <> " services for DataPlane currently unsupported: expected 1 or less")))
        services

  -- The addresses of a Service: that of its load balancer, if it has one, and that in the cluster.
  unfoldable pub addresses_of : Service → Result (List String)
  addresses_of s =
      if s.cluster_ip == ""
      then err
          (message ("service " <> s.metadata.name <> " doesn't have a ClusterIP yet, not ready"))
      else elim s.ingress_ips [
        | [] ↦ ok (s.cluster_ip ∷ [])
        | ip ∷ _ ↦
            if ip == ""
            then err (message "missing loadbalancer.ingress[0].ip")
            else ok (ip ∷ s.cluster_ip ∷ [])
      ]

  -- The gateway that a status write leaves.
  abbrev written_gateway : Gateway → Result Gateway → Gateway × Result (Unit {0})
  written_gateway g (ok stored) = (stored, ok tt)
  written_gateway g (err e) = (g, err e)

  unfoldable pub announce : Gateway → Result (List String) → M (Gateway × Result (Unit {0}))
  unfolding set_ready
  announce g (err e) = pure (g, err e)
  announce g (ok addresses) = do
    now ← read c.now
    let ready = set_ready now (record g { addresses = addresses })
    r ← attempt (Calls.update_status_gateway c ready)
    pure (written_gateway ready r)

  unfoldable pub ensure_gateway_marked_ready : Gateway → DataPlane → M (Gateway × Result (Unit {0}))
  unfolding service_of addresses_of announce is_ready
  ensure_gateway_marked_ready g d =
      if is_ready g
      then pure (g, ok tt)
      else (do r ← attempt (service_of d); announce g (addresses_of_result r))
    where
      addresses_of_result : Result Service → Result (List String)
      addresses_of_result (ok s) = addresses_of s
      addresses_of_result (err e) = err e

  -- The resource that a read has left: an empty one if there is none.
  unfoldable pub or_empty : Result Gateway → M Gateway
  or_empty (ok g) = pure g
  or_empty (err e) = if is_not_found e then pure empty_gateway else raise e

  unfoldable pub update_status : Gateway → M (Unit {0})
  unfolding needs_update or_empty
  update_status updated = do
    r ← attempt (
        Calls.get_gateway c
          (record { namespace = updated.metadata.namespace; name = updated.metadata.name }))
    current ← or_empty r
    if needs_update current updated
        then (do Calls.update_status_gateway c updated; pure tt)
        else pure tt

  -- The GatewayService condition, by the outcome of the announcement.
  unfoldable pub mark_service : Gateway → Result (Unit {0}) → M Gateway
  unfolding mark
  mark_service g (ok _) = mark c gateway_service_type condition_true resource_ready_reason "" g
  mark_service g (err e) =
      mark c gateway_service_type condition_false gateway_service_error_reason (error_text e) g
