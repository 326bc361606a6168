-- ===== src/ControlPlanes/Env/Tests.antt =====
-- The environment of a control plane at concrete options.
use gateway_operator.Prelude.{
  String, ◌≡◌, ◌≢◌, refl, false, Option, none, some, List, [], ◌∷◌, string_eq, arith, eq_iff,
}
use gateway_operator.Api.Env.{EnvVar}
use gateway_operator.Api.Resources.{ControlPlaneOptions, empty_options}
use gateway_operator.ControlPlanes.Env.{
  env_value_by_name, publish_service_name, kong_admin_url_name, data_plane_is_set,
  set_control_plane_env_on_data_plane_change, set_control_plane_defaults, pod_field,
  reported_defaults, ensure_source, env_var_source_by_name,
}
use gateway_operator.ControlPlanes.Env.Values.{has_env}
use gateway_operator.ControlPlanes.Env.Settings.{wanted_service, wanted_url, data_plane_change_lem}
use gateway_operator.ControlPlanes.Env.Defaulted.{unreported_change}
use gateway_operator.Samples.{literal}

abbrev options : List EnvVar → Option String → ControlPlaneOptions
options env data_plane = record {
  deployment = record empty_options { env = env };
  data_plane = data_plane;
}

abbrev stale : ControlPlaneOptions
stale = options (literal "CONTROLLER_PUBLISH_SERVICE" "default/old" ∷ []) (some "dp")

data_plane_change_lem_example :
    let r = set_control_plane_env_on_data_plane_change stale "default" "dp-svc" in
    (env_value_by_name r.0.deployment.env publish_service_name
      ≡ wanted_service (data_plane_is_set stale) "default" "dp-svc")
    × (env_value_by_name r.0.deployment.env kong_admin_url_name
        ≡ wanted_url (data_plane_is_set stale) "default" "dp-svc")
    × ((n : String)
        → publish_service_name ≢ n
        → kong_admin_url_name ≢ n
        → env_value_by_name r.0.deployment.env n ≡ env_value_by_name stale.deployment.env n)
    × (data_plane_is_set stale ≡ false
        → (env_value_by_name stale.deployment.env publish_service_name ≢ ""
            → has_env r.0.deployment.env publish_service_name ≡ false)
          × (env_value_by_name stale.deployment.env kong_admin_url_name ≢ ""
              → has_env r.0.deployment.env kong_admin_url_name ≡ false))
    × (r.1 ≡ false → r.0 ≡ stale)
data_plane_change_lem_example = data_plane_change_lem "default" "dp-svc" stale

-- The pod's fields are there, and nothing of the TLS client.
abbrev without_tls : ControlPlaneOptions
without_tls =
    options
      (record {
        name = "POD_NAMESPACE";
        value = "";
        value_from = some (pod_field "metadata.namespace");
      }
        ∷ record { name = "POD_NAME"; value = ""; value_from = some (pod_field "metadata.name") }
        ∷ [])
      none

unreported_change_example :
    let r = set_control_plane_defaults without_tls "" "" [] in (r.1 ≡ false) × (r.0 ≢ without_tls)
unfolding reported_defaults ensure_source env_value_by_name env_var_source_by_name
unreported_change_example =
    unreported_change without_tls "" "" [] refl refl
      (λ e. ground (arith, eq_iff "" "/var/cluster-certificate/tls.crt", e))
