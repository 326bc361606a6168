-- ===== src/ControlPlanes/Reconciler/Tests.antt =====
-- A reconciliation of a control plane without a data plane, whose ServiceAccount is to be created.
use gateway_operator.Prelude.{◌≡◌, ◌↔◌, refl, String, none, List, [], ◌∷◌, true, if◌then◌else◌}
use gateway_operator.Status.{
  is_ready, control_plane_conditions, set_condition, needs_update, new_condition, set_condition_in,
  init_ready, get_condition, get_condition_in, condition_true,
}
use gateway_operator.ControlPlanes.Conditions.{
  ensure_data_plane_status, data_plane_condition, is_news,
}
use gateway_operator.ControlPlanes.Reconciler.{
  Outside, reconcile, Deployment, ServiceAccount, some, connected_service,
}
use gateway_operator.Client.{
  Call, read, ◌>>=◌, raise, pure, lift, attempt, request, continue, Client, Trace,
}
use gateway_operator.ControlPlanes.Roles.{
  ensure_cluster_role_for_control_plane, update_owned_cluster_role, split_colons, role_version,
  select_rules, generate_new_cluster_role_for_control_plane, Semver,
}
use gateway_operator.ControlPlanes.Owned.{
  ensure_deployment_for_control_plane, scaling, with_controller, refreshed_deployment,
  update_controller_deployment, controller_deployment,
  generate_new_cluster_role_binding_for_control_plane,
  generate_new_service_account_for_control_plane, ensure_certificate,
  ensure_cluster_role_binding_for_control_plane, ensure_service_account_for_control_plane,
  dormant_deployment,
}
use gateway_operator.ControlPlanes.Generators.{
  controller_container, generate_new_deployment_for_control_plane,
}
use gateway_operator.DataPlanes.Generators.{get_pod_container_by_name, with_container}
use gateway_operator.Owners.{get_managed_label_for_owner, Owner}
use gateway_operator.Certificates.{
  update_certificate_secret, maybe_create_certificate_secret, generated_secret,
}
use gateway_operator.Prelude.Labels.{lookup, contained, insert_all, insert, same_entries}
use gateway_operator.Metadata.{
  same_labels, write_labels, ensure_object_meta_is_updated, get_api_version_for_object,
  add_label_for_control_plane, set_owner_for_object, is_owned_by_ref_uid,
  generate_owner_reference_for_object, ensure_finalizers_in_metadata, add_finalizers,
}
use gateway_operator.Errors.{Err, ok, is_data_plane_not_set}
use gateway_operator.Api.Meta.{Condition, NamespacedName, empty_meta}
use gateway_operator.Api.Resources.{ControlPlane, empty_options, control_plane_object}
use gateway_operator.ControlPlanes.Cleanup.{cleanup_cluster_role, cleanup_cluster_role_binding}
use gateway_operator.ControlPlanes.Reconciler.Safety.{settled_spec}
use gateway_operator.ControlPlanes.Reconciler.Progress.{
  InOrder, control_plane_completes, settled_plane, placed_plane,
}
use gateway_operator.Gateways.{get_data_plane_for_control_plane}
use gateway_operator.Api.Env.{EnvVar}
use gateway_operator.DataPlanes.Conditions.{provisioned_type}
use gateway_operator.Status.Completed.{OthersTrueBut}
use gateway_operator.ControlPlanes.Env.{
  pod_field, set_control_plane_defaults, reported_defaults, tls_defaults, ensure_source,
  env_var_source_by_name, ensure_value, env_value_by_name, unless_disabled, set_value, update_env,
  set_control_plane_env_on_data_plane_change, data_plane_env, ensure_rejected,
}
use gateway_operator.Samples.{offline, plain_crypto}
use gateway_operator.Api.Workloads.{ClusterRole, ClusterRoleBinding, Secret}
use gateway_operator.ControlPlanes.RoleRules.Ge21Lt22.{rules_ge2_1_lt2_2}
use gateway_operator.Lists.{
  list_service_accounts_for_owner, list_cluster_roles_for_owner,
  list_cluster_role_bindings_for_owner, list_secrets_for_owner, list_deployments_for_owner,
  owned_items,
}
use gateway_operator.Client.Calls

abbrev any_version : Semver
any_version = record {
  Version = String;
  Constraints = String;
  new_version = λ v. ok v;
  new_constraint = λ r. ok r;
  check = λ r v. true;
}

abbrev first_error : List Err → Err
first_error [] = Err.message ""
first_error (e ∷ es) = e

abbrev outside : Outside
outside = record {
  crypto = plain_crypto;
  semver = any_version;
  set_owner_reference = λ p d. ok d;
  combine = first_error;
}

abbrev provisioning : Condition
provisioning = record {
  type = "Provisioned";
  status = "False";
  reason = "PodsNotReady";
  message = "";
  observed_generation = 0;
  last_transition_time = 1;
}

abbrev plane : ControlPlane
plane = record {
  metadata = record empty_meta {
    name = "cp";
    namespace = "default";
    uid = "c1";
    finalizers = cleanup_cluster_role ∷ cleanup_cluster_role_binding ∷ [];
  };
  spec = record { deployment = empty_options; data_plane = none };
  gateway_class = none;
  ingress_class = none;
  conditions = provisioning ∷ [];
}

abbrev cluster : Client
cluster = record offline {
  control_plane_at = λ t n. ok plane;
  service_accounts = λ t o. ok [];
  cluster_roles = λ t o. ok [];
  cluster_role_bindings = λ t o. ok [];
  secrets = λ t o. ok [];
  deployments = λ t o. ok [];
}

abbrev ca_name : NamespacedName
ca_name = record { namespace = "kong-system"; name = "ca" }

abbrev asked : NamespacedName
asked = record { namespace = "default"; name = "cp" }

-- A control plane with the pod's fields set, without a data plane, whose objects are all there.
abbrev field : String → String → EnvVar
field name path = record { name = name; value = ""; value_from = some (pod_field path) }

abbrev settled : ControlPlane
settled = record plane {
  spec = record {
    deployment = record empty_options {
      env = field "POD_NAMESPACE" "metadata.namespace" ∷ field "POD_NAME" "metadata.name" ∷ [];
    };
    data_plane = none;
  };
}

abbrev account : ServiceAccount
account =
    let g = generate_new_service_account_for_control_plane "default" "cp" in
    record g { metadata = add_label_for_control_plane (set_owner_for_object g.metadata settled) }

abbrev role : ClusterRole
role = record {
  metadata = add_label_for_control_plane (
      set_owner_for_object
        (record empty_meta { generate_name = "cp-"; labels = some (("app", "cp") ∷ []) }) settled);
  rules = rules_ge2_1_lt2_2;
}

abbrev binding : ClusterRoleBinding
binding =
    let g = generate_new_cluster_role_binding_for_control_plane "default" "cp" "" "" in
    record g { metadata = add_label_for_control_plane (set_owner_for_object g.metadata settled) }

abbrev certificate : Secret
certificate = generated_secret (Owner.of_control_plane settled)

abbrev running : Trace → Deployment
running t =
    record (controller_deployment (placed_plane offline ca_name outside settled "" t t) "" "") {
      replicas = some 0;
      status_replicas = 1;
      available_replicas = 1;
    }

abbrev complete : Client
complete = record offline {
  control_plane_at = λ t n. ok settled;
  service_accounts = λ t o. ok (account ∷ []);
  cluster_roles = λ t o. ok (role ∷ []);
  cluster_role_bindings = λ t o. ok (binding ∷ []);
  secrets = λ t o. ok (certificate ∷ []);
  deployments = λ t o. ok (running t ∷ []);
}

abbrev found_after : Trace
found_after = (Calls.get_control_plane complete asked []).1

abbrev placed : ControlPlane
placed = placed_plane complete ca_name outside settled "" found_after found_after

abbrev accounts_after : Trace
accounts_after = (ensure_service_account_for_control_plane complete placed found_after).1

abbrev roles_after : Trace
roles_after = (ensure_cluster_role_for_control_plane complete any_version placed accounts_after).1

abbrev bindings_after : Trace
bindings_after = (ensure_cluster_role_binding_for_control_plane complete placed "" "" roles_after).1

abbrev secrets_after : Trace
secrets_after = (ensure_certificate complete plain_crypto ca_name placed bindings_after).1

abbrev calls_after : Trace
calls_after = (ensure_deployment_for_control_plane complete placed "" "" secrets_after).1

in_order : InOrder complete ca_name outside asked [] calls_after
unfolding ensure_cluster_role_for_control_plane ensure_deployment_for_control_plane
    ensure_service_account_for_control_plane ensure_cluster_role_binding_for_control_plane
    ensure_certificate list_service_accounts_for_owner list_cluster_roles_for_owner
    list_cluster_role_bindings_for_owner list_secrets_for_owner list_deployments_for_owner
    owned_items is_owned_by_ref_uid set_owner_for_object generate_owner_reference_for_object
    get_api_version_for_object add_label_for_control_plane ensure_object_meta_is_updated
    write_labels same_labels same_entries insert insert_all lookup
    generate_new_service_account_for_control_plane
    generate_new_cluster_role_binding_for_control_plane generate_new_cluster_role_for_control_plane
    select_rules role_version split_colons update_owned_cluster_role maybe_create_certificate_secret
    update_certificate_secret generated_secret get_managed_label_for_owner
    update_controller_deployment refreshed_deployment with_controller with_container
    get_pod_container_by_name scaling controller_deployment
    generate_new_deployment_for_control_plane controller_container continue request attempt lift
    pure raise ◌>>=◌ read contained set_control_plane_defaults reported_defaults tls_defaults
    ensure_source env_var_source_by_name ensure_value env_value_by_name unless_disabled set_value
    update_env set_control_plane_env_on_data_plane_change data_plane_env ensure_rejected init_ready
    set_condition get_condition get_condition_in new_condition ensure_data_plane_status
    data_plane_condition is_news set_condition_in ensure_finalizers_in_metadata add_finalizers
    get_data_plane_for_control_plane connected_service is_data_plane_not_set dormant_deployment
    settled_plane placed_plane
in_order = record {
  fetched = settled;
  mark = provisioning;
  data_plane = (get_data_plane_for_control_plane complete (init_ready 100 settled) found_after).0;
  service_name = "";
  account = account;
  role = role;
  binding = binding;
  secret = certificate;
  deployment = running secrets_after;
  found = found_after;
  planes = found_after;
  services = found_after;
  accounts = accounts_after;
  roles = roles_after;
  bindings = bindings_after;
  secrets = secrets_after;
  has_control_plane = refl;
  is_kept = refl;
  has_finalizers = refl;
  is_marked = refl;
  has_data_plane = refl;
  has_service = refl;
  is_defaulted = refl;
  is_aligned = refl;
  has_account = refl;
  has_role = refl;
  has_binding = refl;
  has_secret = refl;
  has_deployment = refl;
  is_available = refl;
}

control_plane_completes_example :
    (p : ControlPlane) × (p.metadata ≡ settled.metadata)
    × (p.spec ≡ settled_spec settled "")
    × ((k : Condition) × (get_condition provisioned_type p ≡ some k) × (k.status ≡ condition_true))
    × ((is_ready p ≡ true) ↔ OthersTrueBut provisioned_type settled.conditions)
    × ((stored : ControlPlane)
        → complete.control_plane_at (Call.get_control_plane asked ∷ calls_after) asked ≡ ok stored
        → (reconcile complete ca_name outside asked []).1 ≡ (
            if needs_update stored p
            then Call.update_status_control_plane p ∷ Call.get_control_plane asked ∷ calls_after
            else Call.get_control_plane asked ∷ calls_after))
unfolding in_order
control_plane_completes_example =
    control_plane_completes complete ca_name outside asked [] calls_after in_order
