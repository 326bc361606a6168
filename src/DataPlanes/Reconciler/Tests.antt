-- ===== src/DataPlanes/Reconciler/Tests.antt =====
-- Reconciliations of a data plane in a cluster that has its Service.
use gateway_operator.Prelude.{
  ◌==◌, string_eq, ◌≡◌, refl, some, [], ◌∷◌, if◌then◌else◌, ◌↔◌, true, arith, eq_iff, All, any_of,
  ◌≢◌, ◌⊎◌,
}
use gateway_operator.Errors.{Err, ok}
use gateway_operator.Api.Meta.{Condition, NamespacedName, empty_meta}
use gateway_operator.Api.Resources.{DataPlane, empty_options}
use gateway_operator.Api.Workloads.{Service, Secret, Deployment}
use gateway_operator.Validation.{
  validate, validate_deploy_options, get_db_mode_from_env, env_loop, env_var_mode, check_db_mode,
}
use gateway_operator.DataPlanes.Defaults.{kong_defaults}
use gateway_operator.DataPlanes.Owned.{
  generated_service, generated_deployment, update_owned_deployment, refreshed_containers,
  with_proxy, ensure_certificate, ensure_deployment_for_data_plane, ensure_service_for_data_plane,
  update_owned_service,
}
use gateway_operator.DataPlanes.Reconciler.{reconcile, error_text, String}
use gateway_operator.DataPlanes.Reconciler.Stages.{Refused, rejected_calls}
use gateway_operator.Client.{
  Client, Call, pure, raise, continue, ◌>>=◌, Trace, attempt, request, lift, read,
}
use gateway_operator.Samples.{offline, plain_crypto, data_plane, off_options, literal}
use gateway_operator.Owners.{Owner, get_managed_label_for_owner}
use gateway_operator.Certificates.{
  update_certificate_secret, maybe_create_certificate_secret, generated_secret,
}
use gateway_operator.Prelude.Labels.{lookup, contained, insert_all, insert, same_entries}
use gateway_operator.Metadata.{
  same_labels, write_labels, ensure_object_meta_is_updated, get_api_version_for_object,
  add_label_for_data_plane, set_owner_for_object, is_owned_by_ref_uid,
  generate_owner_reference_for_object,
}
use gateway_operator.Lists.{
  list_secrets_for_owner, list_deployments_for_owner, owned_items, list_services_for_owner,
}
use gateway_operator.DataPlanes.Generators.{
  get_pod_container_by_name, with_container, proxy_container,
  generate_new_deployment_for_data_plane, generate_new_service_for_data_plane,
}
use gateway_operator.DataPlanes.Reconciler.Progress.{InPlace, data_plane_completes}
use gateway_operator.DataPlanes.Conditions.{provisioned_type, validation_failed_reason}
use gateway_operator.Status.{
  init_ready, get_condition, get_condition_in, condition_true, is_ready, data_plane_conditions,
  set_condition, needs_update, condition_false, ready_type,
}
use gateway_operator.Status.Completed.{OthersTrueBut}
use gateway_operator.Client.Calls

abbrev ca_name : NamespacedName
ca_name = record { namespace = "kong-system"; name = "ca" }

abbrev scheduled : Condition
scheduled = record {
  type = "Provisioned";
  status = "False";
  reason = "PodsNotReady";
  message = "";
  observed_generation = 0;
  last_transition_time = 1;
}

abbrev plane : DataPlane
plane = record (data_plane off_options) { conditions = scheduled ∷ [] }

abbrev exposed : Service
exposed = record (generated_service plane) { cluster_ip = "10.0.0.1" }

abbrev ca : Secret
ca = record {
  metadata = empty_meta;
  type = "kubernetes.io/tls";
  contents = some (("tls.crt", "cert") ∷ ("tls.key", "key") ∷ []);
  string_data = [];
}

-- The data plane is there, with its Service; there is no certificate and no Deployment yet.
abbrev cluster : Client
cluster = record offline {
  data_plane_at = λ t n. ok plane;
  services = λ t o. ok (exposed ∷ []);
  secrets = λ t o. ok [];
  deployments = λ t o. ok [];
  secret_at = λ t n. ok ca;
}

abbrev asked : NamespacedName
asked = record { namespace = "default"; name = "dp" }

-- Everything of the data plane is there, and its pods are available.
abbrev certificate : Secret
certificate = generated_secret (Owner.of_data_plane plane)

abbrev running : Deployment
running = record (generated_deployment plane "") { status_replicas = 1; available_replicas = 1 }

abbrev complete : Client
complete = record offline {
  data_plane_at = λ t n. ok plane;
  services = λ t o. ok (exposed ∷ []);
  secrets = λ t o. ok (certificate ∷ []);
  deployments = λ t o. ok (running ∷ []);
}

abbrev read_plane : DataPlane
read_plane = init_ready 100 plane

abbrev found_after : Trace
found_after = (Calls.get_data_plane complete asked []).1

abbrev served_after : Trace
served_after = (ensure_service_for_data_plane complete read_plane found_after).1

abbrev secrets_after : Trace
secrets_after =
    (ensure_certificate complete plain_crypto ca_name read_plane exposed.metadata.name
      served_after).1

abbrev calls_after : Trace
calls_after = (ensure_deployment_for_data_plane complete read_plane "" secrets_after).1

in_place : InPlace complete plain_crypto ca_name kong_defaults asked [] calls_after
unfolding validate validate_deploy_options get_db_mode_from_env env_loop env_var_mode check_db_mode
    ensure_certificate ensure_deployment_for_data_plane list_secrets_for_owner
    ensure_service_for_data_plane update_owned_service list_services_for_owner generated_service
    generate_new_service_for_data_plane init_ready set_condition get_condition get_condition_in
    list_deployments_for_owner owned_items is_owned_by_ref_uid set_owner_for_object
    generate_owner_reference_for_object get_api_version_for_object add_label_for_data_plane
    ensure_object_meta_is_updated write_labels same_labels same_entries insert insert_all lookup
    maybe_create_certificate_secret update_certificate_secret generated_secret
    get_managed_label_for_owner generated_deployment generate_new_deployment_for_data_plane
    proxy_container update_owned_deployment refreshed_containers with_proxy with_container
    get_pod_container_by_name contained continue request attempt lift pure raise ◌>>=◌ read
in_place = record {
  fetched = plane;
  mark = scheduled;
  service = exposed;
  secret = certificate;
  deployment = running;
  found = found_after;
  served = served_after;
  checked = served_after;
  secrets = secrets_after;
  has_data_plane = refl;
  is_marked = refl;
  has_service = refl;
  has_address = λ e. ground (arith, eq_iff "10.0.0.1" "", e);
  is_configured = refl;
  is_accepted = refl;
  has_secret = refl;
  has_deployment = refl;
  is_available = refl;
}

data_plane_completes_example :
    (d : DataPlane) × (d.metadata ≡ plane.metadata)
    × (d.spec ≡ plane.spec)
    × ((k : Condition) × (get_condition provisioned_type d ≡ some k) × (k.status ≡ condition_true))
    × ((is_ready d ≡ true) ↔ OthersTrueBut provisioned_type plane.conditions)
    × ((stored : DataPlane)
        → complete.data_plane_at (Call.get_data_plane asked ∷ calls_after) asked ≡ ok stored
        → (reconcile complete plain_crypto ca_name kong_defaults asked []).1 ≡ (
            if needs_update stored d
            then Call.update_status_data_plane d ∷ Call.get_data_plane asked ∷ calls_after
            else Call.get_data_plane asked ∷ calls_after))
unfolding in_place
data_plane_completes_example =
    data_plane_completes complete plain_crypto ca_name kong_defaults asked [] calls_after in_place

-- The same data plane with options that the validation rejects.
abbrev postgres : DataPlane
postgres = record plane {
  spec = record empty_options { env = literal "KONG_DATABASE" "postgres" ∷ [] };
}

abbrev unsupported : Err
unsupported = Err.message "database backend postgres of dataplane not supported currently"

abbrev with_postgres : Client
with_postgres = record complete { data_plane_at = λ t n. ok postgres }

refused : Refused with_postgres plain_crypto ca_name kong_defaults asked [] served_after
unfolding validate validate_deploy_options get_db_mode_from_env env_loop env_var_mode check_db_mode
    ensure_service_for_data_plane update_owned_service list_services_for_owner generated_service
    generate_new_service_for_data_plane init_ready set_condition get_condition get_condition_in
    owned_items is_owned_by_ref_uid set_owner_for_object generate_owner_reference_for_object
    get_api_version_for_object add_label_for_data_plane ensure_object_meta_is_updated write_labels
    same_labels same_entries insert insert_all lookup get_managed_label_for_owner contained continue
    request attempt lift pure raise ◌>>=◌ read
refused = record {
  fetched = postgres;
  mark = scheduled;
  service = exposed;
  cause = unsupported;
  found = found_after;
  served = served_after;
  has_data_plane = refl;
  is_marked = refl;
  has_service = refl;
  has_address = λ e. ground (arith, eq_iff "10.0.0.1" "", e);
  is_configured = refl;
  is_rejected = refl;
}

rejected_calls_example :
    (d : DataPlane) × (d.metadata ≡ plane.metadata)
    × (d.spec ≡ postgres.spec)
    × All
        (λ k.
          k.type ≡ provisioned_type
          → (k.status ≡ condition_false)
            × (k.reason ≡ validation_failed_reason)
            × (k.message ≡ error_text unsupported))
        d.conditions
    × (any_of (λ k. k.type == provisioned_type) d.conditions ≡ true)
    × ((type : String)
        → type ≢ provisioned_type
        → type ≢ ready_type
        → get_condition type d ≡ get_condition type postgres)
    × (((reconcile with_postgres plain_crypto ca_name kong_defaults asked []).1
          ≡ Call.update_status_data_plane d ∷ served_after)
        ⊎ (((reconcile with_postgres plain_crypto ca_name kong_defaults asked []).1 ≡ served_after)
            × (d.conditions ≡ (init_ready 100 postgres).conditions)))
unfolding refused
rejected_calls_example =
    rejected_calls with_postgres plain_crypto ca_name kong_defaults asked [] served_after refused
