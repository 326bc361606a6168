-- ===== src/DataPlanes/Owned.antt =====
-- controllers/dataplane_controller_reconciler_utils.go: the Service, the certificate and the
-- Deployment of a data plane.
pub mod Deployments
mod Tests
use gateway_operator.Prelude.{
  String, ◌<>◌, Bool, true, false, not, ◌||◌, Option, none, some, List, [], ◌∷◌, ◌==◌, list_eq,
  if◌then◌else◌, at_most_one, show_count, length,
}
use gateway_operator.Errors.{message}
use gateway_operator.Api.Meta.{NamespacedName}
use gateway_operator.Api.Env.{env_var_eq, env_from_source_eq}
use gateway_operator.Api.Resources.{DataPlane, data_plane_object}
use gateway_operator.Api.Workloads.{Deployment, Service, Secret, Container, PodSpec}
use gateway_operator.Metadata.{
  set_owner_for_object, add_label_for_data_plane, ensure_object_meta_is_updated,
  gateway_operator_controlled_label, data_plane_managed_label_value,
}
use gateway_operator.Owners.{Owner}
use gateway_operator.Signing.{Crypto}
use gateway_operator.Certificates.{maybe_create_certificate_secret}
use gateway_operator.Lists.{list_deployments_for_owner, list_services_for_owner}
use gateway_operator.DataPlanes.Generators.{
  data_plane_proxy_container_name, generate_new_deployment_for_data_plane,
  generate_new_service_for_data_plane, get_pod_container_by_name, with_container,
}
use gateway_operator.Client.{Client, M, pure, raise, lift, ◌>>=◌}
use gateway_operator.Client.Calls

-- The generated objects, with their owner and their label.
unfoldable pub generated_deployment : DataPlane → String → Deployment
unfolding generate_new_deployment_for_data_plane set_owner_for_object add_label_for_data_plane
generated_deployment d cert_secret_name =
    let g = generate_new_deployment_for_data_plane d cert_secret_name in
    record g { metadata = add_label_for_data_plane (set_owner_for_object g.metadata d) }

unfoldable pub generated_service : DataPlane → Service
unfolding generate_new_service_for_data_plane set_owner_for_object add_label_for_data_plane
generated_service d =
    let g = generate_new_service_for_data_plane d in
    record g { metadata = set_owner_for_object (add_label_for_data_plane g.metadata) d }

-- The containers with a proxy among them, and whether they had to be replaced.
unfoldable pub with_proxy : List Container → PodSpec → List Container × Bool
unfolding get_pod_container_by_name
with_proxy generated pod = elim (get_pod_container_by_name pod data_plane_proxy_container_name) [
  | none ↦ (generated, true)
  | some _ ↦ (pod.containers, false)
]

-- Whether the proxy's environment is not that of the data plane.
abbrev env_differs : DataPlane → Option Container → Bool
env_differs d none = false
env_differs d (some c) = not (c.env == d.spec.env) || not (c.env_from == d.spec.env_from)

-- The containers of the existing pod as the data plane wants them, and whether this changes them.
unfoldable pub refreshed_containers : DataPlane → List Container → PodSpec → List Container × Bool
unfolding with_proxy with_container get_pod_container_by_name
refreshed_containers d generated pod =
    let (containers, replaced) = with_proxy generated pod in
    let proxy =
      get_pod_container_by_name (record pod { containers = containers })
        data_plane_proxy_container_name in
    (
      with_container data_plane_proxy_container_name
          (λ c. record c { env = d.spec.env; env_from = d.spec.env_from }) containers,
      replaced || env_differs d proxy,
    )

module _ (c : Client) where
  unfoldable pub update_owned_deployment :
      DataPlane → Deployment → Deployment → M (Bool × Deployment)
  unfolding ensure_object_meta_is_updated refreshed_containers
  update_owned_deployment d generated existing = do
    (meta_updated, meta) ← lift (ensure_object_meta_is_updated existing.metadata generated.metadata)
    let (containers, changed) =
        refreshed_containers d generated.template.containers existing.template
    let deployment = record existing {
      metadata = meta;
      template = record existing.template { containers = containers };
    }
    if meta_updated || changed
        then (do stored ← Calls.update_deployment c deployment; pure (true, stored))
        else pure (false, deployment)

  unfoldable pub ensure_deployment_for_data_plane : DataPlane → String → M (Bool × Deployment)
  unfolding update_owned_deployment generated_deployment
  ensure_deployment_for_data_plane d cert_secret_name = do
    deployments ←
        list_deployments_for_owner c gateway_operator_controlled_label
          data_plane_managed_label_value d.metadata.namespace d.metadata.uid
    let generated = generated_deployment d cert_secret_name
    at_most_one (do stored ← Calls.create_deployment c generated; pure (true, stored))
        (update_owned_deployment d generated)
        (raise (
          message (
            "found "
            <> show_count (length deployments)
            <> " deployments for DataPlane currently unsupported: expected 1 or less")))
        deployments

  unfoldable pub update_owned_service : Service → Service → M (Bool × Service)
  unfolding ensure_object_meta_is_updated
  update_owned_service generated existing = do
    (updated, meta) ← lift (ensure_object_meta_is_updated existing.metadata generated.metadata)
    let service = record existing { metadata = meta }
    if updated
        then (do stored ← Calls.update_service c service; pure (true, stored))
        else pure (false, service)

  unfoldable pub ensure_service_for_data_plane : DataPlane → M (Bool × Service)
  unfolding update_owned_service generated_service
  ensure_service_for_data_plane d = do
    services ←
        list_services_for_owner c gateway_operator_controlled_label data_plane_managed_label_value
          d.metadata.namespace d.metadata.uid
    let generated = generated_service d
    at_most_one (do stored ← Calls.create_service c generated; pure (true, stored))
        (update_owned_service generated)
        (raise (
          message (
            "found "
            <> show_count (length services)
            <> " services for DataPlane currently unsupported: expected 1 or less")))
        services

  unfoldable pub ensure_certificate :
      Crypto → NamespacedName → DataPlane → String → M (Bool × Secret)
  unfolding maybe_create_certificate_secret
  ensure_certificate crypto ca_name d service_name =
      maybe_create_certificate_secret c crypto (Owner.of_data_plane d)
        (service_name <> "." <> d.metadata.namespace <> ".svc") ca_name
        ("key encipherment" ∷ "digital signature" ∷ "server auth" ∷ [])
