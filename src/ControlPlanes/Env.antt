-- ===== src/ControlPlanes/Env.antt =====
-- controllers/controlplane_controller_utils.go: the environment of a control plane.
pub mod Values
pub mod Settings
pub mod Tls
pub mod Defaulted
mod Tests
use gateway_operator.Prelude.{
  ℕ, String, ◌<>◌, Bool, true, false, not, ◌&&◌, Option, none, some, List, [], ◌∷◌, ◌++◌, ◌==◌,
  string_eq, option_eq, any_of, filter_if, find_if, if◌then◌else◌, show_count,
}
use gateway_operator.Api.Env.{EnvVar, EnvVarSource, ObjectFieldSelector, env_var_source_eq}
use gateway_operator.Api.Resources.{ControlPlaneOptions, DeploymentOptions}
use gateway_operator.DataPlanes.Defaults.{default_kong_admin_port}

unfoldable pub controller_kong_admin_url : String → String → String
unfolding show_count
controller_kong_admin_url name namespace =
    "https://" <> name <> "." <> namespace <> ".svc:" <> show_count default_kong_admin_port

unfoldable pub controller_publish_service : String → String → String
controller_publish_service name namespace = namespace <> "/" <> name

abbrev value_of : Option EnvVar → String
value_of none = ""
value_of (some v) = v.value

abbrev source_of : Option EnvVar → Option EnvVarSource
source_of none = none
source_of (some v) = v.value_from

unfoldable pub env_value_by_name : List EnvVar → String → String
env_value_by_name env name = value_of (find_if (λ v. v.name == name) env)

unfoldable pub env_var_source_by_name : List EnvVar → String → Option EnvVarSource
env_var_source_by_name env name = source_of (find_if (λ v. v.name == name) env)

unfoldable pub reject_env_by_name : List EnvVar → String → List EnvVar
reject_env_by_name env name = filter_if (λ v. not (v.name == name)) env

unfoldable pub update_env : List EnvVar → String → String → List EnvVar
update_env env name value =
    filter_if (λ v. not (v.name == name)) env
    ++ record { name = name; value = value; value_from = none } ∷ []

unfoldable pub update_env_source : List EnvVar → String → EnvVarSource → List EnvVar
update_env_source env name source =
    filter_if (λ v. not (v.name == name)) env
    ++ record { name = name; value = ""; value_from = some source } ∷ []

-- The environment so far, and `changed`.
abbrev pub Progress : Type 0
Progress = List EnvVar × Bool

-- `if envValueByName(…) != value { …; changed = true }`
unfoldable pub ensure_value : String → String → Progress → Progress
unfolding env_value_by_name update_env
ensure_value name value p =
    if env_value_by_name p.0 name == value then p else (update_env p.0 name value, true)

unfoldable pub ensure_source : String → EnvVarSource → Progress → Progress
unfolding env_var_source_by_name update_env_source
ensure_source name source p =
    if some source == env_var_source_by_name p.0 name
    then p
    else (update_env_source p.0 name source, true)

-- `if envValueByName(…) != "" { …; changed = true }`
unfoldable pub ensure_rejected : String → Progress → Progress
unfolding env_value_by_name reject_env_by_name
ensure_rejected name p =
    if env_value_by_name p.0 name == "" then p else (reject_env_by_name p.0 name, true)

-- An assignment that does not touch `changed`.
unfoldable pub set_value : String → String → Progress → Progress
unfolding update_env
set_value name value p = (update_env p.0 name value, p.1)

-- `if _, isOverrideDisabled := dontOverride[name]; !isOverrideDisabled { … }`
unfoldable pub unless_disabled :
    List String → String → (String → Progress → Progress) → Progress → Progress
unless_disabled dont_override name f p =
    if any_of (λ n. n == name) dont_override then p else f name p

abbrev pub pod_field : String → EnvVarSource
pod_field path = record {
  field_ref = some (record { api_version = "v1"; field_path = path });
  resource_field_ref = none;
  config_map_key_ref = none;
  secret_key_ref = none;
}

abbrev pub publish_service_name : String
publish_service_name = "CONTROLLER_PUBLISH_SERVICE"

abbrev pub kong_admin_url_name : String
kong_admin_url_name = "CONTROLLER_KONG_ADMIN_URL"

abbrev pub tls_client_cert_file_name : String
tls_client_cert_file_name = "CONTROLLER_KONG_ADMIN_TLS_CLIENT_CERT_FILE"

abbrev pub tls_client_key_file_name : String
tls_client_key_file_name = "CONTROLLER_KONG_ADMIN_TLS_CLIENT_KEY_FILE"

abbrev pub ca_cert_file_name : String
ca_cert_file_name = "CONTROLLER_KONG_ADMIN_CA_CERT_FILE"

-- The first part of setControlPlaneDefaults: what `changed` reports.
unfoldable pub reported_defaults : String → String → List String → Progress → Progress
unfolding ensure_source ensure_value unless_disabled
reported_defaults namespace service_name dont_override p =
    let p1 = ensure_source "POD_NAMESPACE" (pod_field "metadata.namespace") p in
    let p2 = ensure_source "POD_NAME" (pod_field "metadata.name") p1 in
    let p3 =
      unless_disabled dont_override publish_service_name
        (λ name. ensure_value name (controller_publish_service service_name namespace)) p2 in
    let p4 =
      unless_disabled dont_override kong_admin_url_name
        (λ name. ensure_value name (controller_kong_admin_url service_name namespace)) p3 in
    if not (namespace == "") && not (service_name == "") then p4 else p2

-- The second part: the files of the TLS client.
unfoldable pub tls_defaults : List String → Progress → Progress
unfolding set_value unless_disabled
tls_defaults dont_override p =
    let p1 =
      unless_disabled dont_override tls_client_cert_file_name
        (λ name. set_value name "/var/cluster-certificate/tls.crt") p in
    let p2 =
      unless_disabled dont_override tls_client_key_file_name
        (λ name. set_value name "/var/cluster-certificate/tls.key") p1 in
    unless_disabled dont_override ca_cert_file_name
      (λ name. set_value name "/var/cluster-certificate/ca.crt") p2

abbrev with_env : ControlPlaneOptions → List EnvVar → ControlPlaneOptions
with_env spec env = record spec { deployment = record spec.deployment { env = env } }

unfoldable pub set_control_plane_defaults :
    ControlPlaneOptions → String → String → List String → ControlPlaneOptions × Bool
unfolding reported_defaults tls_defaults
set_control_plane_defaults spec namespace service_name dont_override =
    let p =
      tls_defaults dont_override
        (reported_defaults namespace service_name dont_override (spec.deployment.env, false)) in
    (with_env spec p.0, p.1)

-- `spec.DataPlane != nil && *spec.DataPlane != ""`
abbrev pub data_plane_is_set : ControlPlaneOptions → Bool
data_plane_is_set spec = elim spec.data_plane [ none ↦ false | some name ↦ not (name == "") ]

unfoldable pub data_plane_env : Bool → String → String → Progress → Progress
unfolding ensure_value ensure_rejected controller_publish_service controller_kong_admin_url
data_plane_env set namespace service_name p =
    if set
    then ensure_value kong_admin_url_name (controller_kong_admin_url service_name namespace)
        (ensure_value publish_service_name (controller_publish_service service_name namespace) p)
    else ensure_rejected kong_admin_url_name (ensure_rejected publish_service_name p)

unfoldable pub set_control_plane_env_on_data_plane_change :
    ControlPlaneOptions → String → String → ControlPlaneOptions × Bool
unfolding data_plane_env
set_control_plane_env_on_data_plane_change spec namespace service_name =
    let p =
      data_plane_env (data_plane_is_set spec) namespace service_name (spec.deployment.env, false) in
    (with_env spec p.0, p.1)
