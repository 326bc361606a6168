-- ===== src/ControlPlanes/Reconciler/Reads.antt =====
-- The parts of a reconciliation of a control plane that write nothing under conditions, and the role.
use gateway_operator.Prelude.{none, some, Option, String, ◌≡◌, List, [], ◌∷◌, refl}
use gateway_operator.Errors.{Result, ok, err}
use gateway_operator.Api.Meta.{NamespacedName}
use gateway_operator.Api.Resources.{DataPlane, ControlPlane}
use gateway_operator.Api.Workloads.{Secret, ClusterRole}
use gateway_operator.Lists.{
  list_secrets_for_owner, list_services_for_owner, list_service_accounts_for_owner,
  list_cluster_roles_for_owner, list_cluster_role_bindings_for_owner,
}
use gateway_operator.Certificates.{
  maybe_create_certificate_secret, create_certificate_secret, update_certificate_secret,
}
use gateway_operator.Gateways.{get_data_plane_for_control_plane, get_data_plane_service_name}
use gateway_operator.ControlPlanes.Owned.{
  ensure_service_account_for_control_plane, ensure_cluster_role_binding_for_control_plane,
  ensure_certificate,
}
use gateway_operator.ControlPlanes.Conditions.{ensure_data_plane_configuration, or_empty}
use gateway_operator.ControlPlanes.Reconciler.{Outside, connected_service}
use gateway_operator.ControlPlanes.Reconciler.Safety.{Guarded}
use gateway_operator.Client.{Client, Trace, lift}
use gateway_operator.Client.Keeps.{Keeps, keeps_rules, Keeps-bind, Keeps-bind_answer, Keeps-lift}
use gateway_operator.ControlPlanes.Roles.{
  ensure_cluster_role_for_control_plane, generate_new_cluster_role_for_control_plane,
  owned_cluster_role, check_count, update_owned_cluster_role, create_or_update,
}
use gateway_operator.ControlPlanes.Roles.Permissions.{ReadsSecrets, cluster_role-ReadsSecrets}
use gateway_operator.Client.Monad.{lift_answer}

module _ (c : Client) (ca_name : NamespacedName) (o : Outside) (request : NamespacedName) where
  pub service_account-Keeps :
      (p : ControlPlane) (u : Trace)
      → Keeps u (Guarded c ca_name o request) (ensure_service_account_for_control_plane c p)
  unfolding ensure_service_account_for_control_plane list_service_accounts_for_owner
  service_account-Keeps p u = search keeps_rules depth 10

  pub binding-Keeps :
      (p : ControlPlane) (account role : String) (u : Trace)
      → Keeps u
          (Guarded c ca_name o request)
          (ensure_cluster_role_binding_for_control_plane c p account role)
  unfolding ensure_cluster_role_binding_for_control_plane list_cluster_role_bindings_for_owner
  binding-Keeps p account role u = search keeps_rules depth 10

  create_certificate-Keeps :
      (secret : Secret) (subject : String) (usages : List String) (u : Trace)
      → Keeps u
          (Guarded c ca_name o request)
          (create_certificate_secret c o.crypto secret subject ca_name usages)
  unfolding create_certificate_secret
  create_certificate-Keeps secret subject usages u = search keeps_rules depth 14

  update_certificate-Keeps :
      (existing generated : Secret) (u : Trace)
      → Keeps u
          (Guarded c ca_name o request)
          (update_certificate_secret c o.crypto existing generated)
  unfolding update_certificate_secret
  update_certificate-Keeps existing generated u = search keeps_rules depth 8

  pub certificate-Keeps :
      (p : ControlPlane) (u : Trace)
      → Keeps u (Guarded c ca_name o request) (ensure_certificate c o.crypto ca_name p)
  unfolding ensure_certificate maybe_create_certificate_secret list_secrets_for_owner
  certificate-Keeps p u =
      search (keeps_rules, create_certificate-Keeps, update_certificate-Keeps) depth 10

  service_name-Keeps :
      (d : DataPlane) (u : Trace)
      → Keeps u (Guarded c ca_name o request) (get_data_plane_service_name c d)
  unfolding get_data_plane_service_name list_services_for_owner
  service_name-Keeps d u = search keeps_rules depth 8

  pub connected_service-Keeps :
      (p : ControlPlane) (r : Result DataPlane) (u : Trace)
      → Keeps u (Guarded c ca_name o request) (connected_service c ca_name o p r)
  unfolding connected_service
  connected_service-Keeps p (ok d) u = search (keeps_rules, service_name-Keeps)
  connected_service-Keeps p (err e) u = search keeps_rules

  named_data_plane-Keeps :
      (name : Option String) (p : ControlPlane) (u : Trace)
      → p.spec.data_plane ≡ name
      → Keeps u (Guarded c ca_name o request) (get_data_plane_for_control_plane c p)
  unfolding get_data_plane_for_control_plane
  named_data_plane-Keeps none p u e = rw e (search keeps_rules)
  named_data_plane-Keeps (some name) p u e = rw e (search keeps_rules)

  pub data_plane-Keeps :
      (p : ControlPlane) (u : Trace)
      → Keeps u (Guarded c ca_name o request) (get_data_plane_for_control_plane c p)
  data_plane-Keeps p u = named_data_plane-Keeps p.spec.data_plane p u refl

  pub or_empty-Keeps :
      (r : Result ControlPlane) (u : Trace) → Keeps u (Guarded c ca_name o request) (or_empty c r)
  unfolding or_empty
  or_empty-Keeps (ok p) u = search keeps_rules
  or_empty-Keeps (err e) u = search keeps_rules

  pub configuration-Keeps :
      (p : ControlPlane) (service_name : String) (u : Trace)
      → Keeps u (Guarded c ca_name o request) (ensure_data_plane_configuration c p service_name)
  unfolding ensure_data_plane_configuration
  configuration-Keeps p service_name u = search keeps_rules

  check_count-Keeps :
      (roles : List ClusterRole) (u : Trace)
      → Keeps u (Guarded c ca_name o request) (check_count c o.semver roles)
  check_count-Keeps [] u = search keeps_rules
  check_count-Keeps (x ∷ []) u = search keeps_rules
  check_count-Keeps (x ∷ y ∷ xs) u = search keeps_rules

  update_role-Keeps :
      (generated existing : ClusterRole) (u : Trace)
      → Keeps u
          (Guarded c ca_name o request)
          (update_owned_cluster_role c o.semver generated existing)
  unfolding update_owned_cluster_role
  update_role-Keeps generated existing u = search keeps_rules depth 8

  create_or_update-Keeps :
      (generated : ClusterRole) (roles : List ClusterRole) (u : Trace)
      → ReadsSecrets generated.rules
      → Keeps u (Guarded c ca_name o request) (create_or_update c o.semver generated roles)
  create_or_update-Keeps generated [] u reads = search keeps_rules
  create_or_update-Keeps generated (existing ∷ _) u reads = update_role-Keeps generated existing u

  pub cluster_role-Keeps :
      (p : ControlPlane) (u : Trace)
      → Keeps u (Guarded c ca_name o request) (ensure_cluster_role_for_control_plane c o.semver p)
  unfolding ensure_cluster_role_for_control_plane list_cluster_roles_for_owner
  cluster_role-Keeps p u = Keeps-bind _ _ (search keeps_rules depth 8) (λ roles.
      Keeps-bind (check_count c o.semver roles) _ (check_count-Keeps roles u) (λ _.
        Keeps-bind_answer (lift generated) _ (Keeps-lift generated) (λ g t answered.
          create_or_update-Keeps (owned_cluster_role c o.semver p g) roles t (
            cluster_role-ReadsSecrets o.semver p.metadata.name p.spec.deployment.container_image
              (lift_answer generated answered.before t answered.answer)))))
    where
      generated : Result ClusterRole
      generated =
          generate_new_cluster_role_for_control_plane o.semver p.metadata.name
            p.spec.deployment.container_image
