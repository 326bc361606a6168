-- ===== src/ControlPlanes/Owned.antt =====
-- controllers/controlplane_controller_reconciler_utils.go: the Deployment, the ServiceAccount, the
-- ClusterRoleBinding and the certificate of a control plane. The messages speak of deployments.
pub mod Scale
mod Tests
use gateway_operator.Prelude.{
  ℕ, String, ◌<>◌, Bool, true, false, not, ◌&&◌, ◌||◌, Option, none, some, List, [], ◌∷◌, ◌==◌,
  nat_eq, option_eq, list_eq, if◌then◌else◌, at_most_one, show_count, length,
}
use gateway_operator.Errors.{Err, message}
use gateway_operator.Api.Meta.{NamespacedName, empty_meta}
use gateway_operator.Api.Env.{env_var_eq, env_from_source_eq}
use gateway_operator.Api.Resources.{ControlPlane, control_plane_object}
use gateway_operator.Api.Workloads.{
  Deployment, Secret, Container, PodSpec, ServiceAccount, ClusterRoleBinding,
}
use gateway_operator.Metadata.{
  set_owner_for_object, add_label_for_control_plane, ensure_object_meta_is_updated,
  gateway_operator_controlled_label, control_plane_managed_label_value,
}
use gateway_operator.Owners.{Owner, control_plane_prefix}
use gateway_operator.Signing.{Crypto}
use gateway_operator.Certificates.{maybe_create_certificate_secret}
use gateway_operator.Lists.{
  list_deployments_for_owner, list_service_accounts_for_owner, list_cluster_role_bindings_for_owner,
}
use gateway_operator.DataPlanes.Generators.{get_pod_container_by_name, with_container}
use gateway_operator.ControlPlanes.Env.{data_plane_is_set}
use gateway_operator.ControlPlanes.Generators.{
  controller_container_name, generate_new_deployment_for_control_plane,
}
use gateway_operator.Client.{Client, M, pure, raise, lift, ◌>>=◌}
use gateway_operator.Client.Calls

abbrev pub num_replicas_when_no_dataplane : ℕ
num_replicas_when_no_dataplane = 0

-- The switch over the replicas: the cases for a data plane just unset and one just set, and neither.
pub data Scaling : Type 0 where
  scale_down scale_up keep_scale : Scaling

unfoldable pub scaling : Bool → Option ℕ → Scaling
scaling set replicas =
    if not set && not (replicas == some num_replicas_when_no_dataplane)
    then scale_down
    else if set && replicas == some num_replicas_when_no_dataplane
    then scale_up
    else keep_scale

abbrev pub scaled_replicas : Scaling → Option ℕ → Option ℕ
scaled_replicas scale_down replicas = some num_replicas_when_no_dataplane
scaled_replicas scale_up replicas = none
scaled_replicas keep_scale replicas = replicas

abbrev pub is_scaled : Scaling → Bool
is_scaled scale_down = true
is_scaled scale_up = true
is_scaled keep_scale = false

-- `if len(container.Env) > 0 { container.Env = controlplane.Spec.Env }` of the second case
abbrev pub scaled_container : Scaling → ControlPlane → Container → Container
scaled_container scale_down p c = c
scaled_container scale_up p c = record c {
  env = if length c.env == 0 then c.env else p.spec.deployment.env;
}
scaled_container keep_scale p c = c

-- The containers with a controller among them, and whether they had to be replaced.
unfoldable pub with_controller : List Container → PodSpec → List Container × Bool
unfolding get_pod_container_by_name
with_controller generated pod = elim (get_pod_container_by_name pod controller_container_name) [
  | none ↦ (generated, true)
  | some _ ↦ (pod.containers, false)
]

-- Whether the environment of the controller is not that of the control plane.
abbrev pub controller_differs : ControlPlane → Scaling → Option Container → Bool
controller_differs p s none = false
controller_differs p s (some c) =
    not ((scaled_container s p c).env == p.spec.deployment.env)
    || not (c.env_from == p.spec.deployment.env_from)

-- The controller with the environment of the control plane.
abbrev pub with_spec : ControlPlane → Container → Container
with_spec p c = record c { env = p.spec.deployment.env; env_from = p.spec.deployment.env_from }

-- The existing Deployment as the control plane wants it, and whether this changes it.
unfoldable pub refreshed_deployment : ControlPlane → List Container → Deployment → Deployment × Bool
unfolding with_controller with_container get_pod_container_by_name scaling
refreshed_deployment p generated existing =
    let (containers, replaced) = with_controller generated existing.template in
    let controller =
      get_pod_container_by_name (record existing.template { containers = containers })
        controller_container_name in
    let scale = scaling (data_plane_is_set p.spec) existing.replicas in
    (
      record existing {
        replicas = scaled_replicas scale existing.replicas;
        template = record existing.template {
          containers = with_container controller_container_name (with_spec p) containers;
        };
      },
      replaced || is_scaled scale || controller_differs p scale controller,
    )

-- The generated objects, with their owner and their label.
unfoldable pub controller_deployment : ControlPlane → String → String → Deployment
unfolding generate_new_deployment_for_control_plane set_owner_for_object add_label_for_control_plane
controller_deployment p service_account_name cert_secret_name =
    let g = generate_new_deployment_for_control_plane p service_account_name cert_secret_name in
    record g { metadata = add_label_for_control_plane (set_owner_for_object g.metadata p) }

-- A generated Deployment without a data plane has no replicas.
unfoldable pub dormant_deployment : ControlPlane → Deployment → Deployment
dormant_deployment p g =
    if data_plane_is_set p.spec
    then g
    else record g { replicas = some num_replicas_when_no_dataplane }

unfoldable pub generate_new_service_account_for_control_plane : String → String → ServiceAccount
generate_new_service_account_for_control_plane namespace name = record {
  metadata = record empty_meta {
    generate_name = control_plane_prefix <> "-" <> name <> "-";
    namespace = namespace;
    labels = some (("app", name) ∷ []);
  };
}

unfoldable pub generate_new_cluster_role_binding_for_control_plane :
    String → String → String → String → ClusterRoleBinding
generate_new_cluster_role_binding_for_control_plane namespace name account role = record {
  metadata = record empty_meta {
    generate_name = control_plane_prefix <> "-" <> name <> "-";
    labels = some (("app", name) ∷ []);
  };
  role_ref = record { api_group = "rbac.authorization.k8s.io"; kind = "ClusterRole"; name = role };
  subjects = record { kind = "ServiceAccount"; name = account; namespace = namespace } ∷ [];
}

-- "found %d … for ControlPlane currently unsupported: expected 1 or less"
abbrev pub too_many : {A : Type 0} → String → List A → Err
too_many what xs = message (
    "found "
    <> show_count (length xs)
    <> " "
    <> what
    <> " for ControlPlane currently unsupported: expected 1 or less")

module _ (c : Client) where
  unfoldable pub update_controller_deployment :
      ControlPlane → Deployment → Deployment → M (Bool × Deployment)
  unfolding ensure_object_meta_is_updated refreshed_deployment
  update_controller_deployment p generated existing = do
    (meta_updated, meta) ← lift (ensure_object_meta_is_updated existing.metadata generated.metadata)
    let (deployment, changed) =
        refreshed_deployment p generated.template.containers (record existing { metadata = meta })
    if meta_updated || changed
        then (do stored ← Calls.update_deployment c deployment; pure (true, stored))
        else pure (false, deployment)

  unfoldable pub ensure_deployment_for_control_plane :
      ControlPlane → String → String → M (Bool × Deployment)
  unfolding update_controller_deployment controller_deployment dormant_deployment
  ensure_deployment_for_control_plane p service_account_name cert_secret_name = do
    deployments ←
        list_deployments_for_owner c gateway_operator_controlled_label
          control_plane_managed_label_value p.metadata.namespace p.metadata.uid
    let generated = controller_deployment p service_account_name cert_secret_name
    at_most_one
        (do
          stored ← Calls.create_deployment c (dormant_deployment p generated)
          pure (true, stored))
        (update_controller_deployment p generated) (raise (too_many "deployments" deployments))
        deployments

  unfoldable pub ensure_service_account_for_control_plane : ControlPlane → M (Bool × ServiceAccount)
  unfolding ensure_object_meta_is_updated generate_new_service_account_for_control_plane
      set_owner_for_object add_label_for_control_plane
  ensure_service_account_for_control_plane p = do
    accounts ←
        list_service_accounts_for_owner c gateway_operator_controlled_label
          control_plane_managed_label_value p.metadata.namespace p.metadata.uid
    let g = generate_new_service_account_for_control_plane p.metadata.namespace p.metadata.name
    let generated = record g {
      metadata = add_label_for_control_plane (set_owner_for_object g.metadata p);
    }
    at_most_one (do stored ← Calls.create_service_account c generated; pure (true, stored))
        (λ existing. do
          (updated, meta) ←
              lift (ensure_object_meta_is_updated existing.metadata generated.metadata)
          let account = record existing { metadata = meta }
          if updated
              then (do stored ← Calls.update_service_account c account; pure (true, stored))
              else pure (false, account))
        (raise (too_many "serviceAccounts" accounts)) accounts

  unfoldable pub ensure_cluster_role_binding_for_control_plane :
      ControlPlane → String → String → M (Bool × ClusterRoleBinding)
  unfolding ensure_object_meta_is_updated generate_new_cluster_role_binding_for_control_plane
      set_owner_for_object add_label_for_control_plane
  ensure_cluster_role_binding_for_control_plane p account_name role_name = do
    bindings ←
        list_cluster_role_bindings_for_owner c gateway_operator_controlled_label
          control_plane_managed_label_value p.metadata.uid
    let g =
        generate_new_cluster_role_binding_for_control_plane p.metadata.namespace p.metadata.name
          account_name role_name
    let generated = record g {
      metadata = add_label_for_control_plane (set_owner_for_object g.metadata p);
    }
    at_most_one (do stored ← Calls.create_cluster_role_binding c generated; pure (true, stored))
        (λ existing. do
          (updated, meta) ←
              lift (ensure_object_meta_is_updated existing.metadata generated.metadata)
          let binding = record existing { metadata = meta }
          if updated
              then (do stored ← Calls.update_cluster_role_binding c binding; pure (true, stored))
              else pure (false, binding))
        (raise (too_many "deployments" bindings)) bindings

  unfoldable pub ensure_certificate : Crypto → NamespacedName → ControlPlane → M (Bool × Secret)
  unfolding maybe_create_certificate_secret
  ensure_certificate crypto ca_name p =
      maybe_create_certificate_secret c crypto (Owner.of_control_plane p)
        (p.metadata.name <> "." <> p.metadata.namespace) ca_name
        ("key encipherment" ∷ "digital signature" ∷ "client auth" ∷ [])
