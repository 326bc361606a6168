-- ===== src/DataPlanes/Defaults.antt =====
-- internal/utils/dataplane/config.go and internal/utils/kubernetes/envvars.go: the environment that
-- a data plane gets where its owner has set nothing.
pub mod Kept
pub mod Valid
mod Tests
use gateway_operator.Prelude.{
  ℕ, String, ◌<>◌, Bool, true, false, none, List, [], ◌∷◌, ◌++◌, ◌==◌, string_eq, any_of,
  if◌then◌else◌,
}
use Prim.Native.String.{compare}
use text.Mathlib.Text.{is_lt}
use gateway_operator.Api.Env.{EnvVar}
use gateway_operator.Api.Resources.{DeploymentOptions}

abbrev pub default_http_port : ℕ
default_http_port = 80

abbrev pub default_https_port : ℕ
default_https_port = 443

abbrev pub default_kong_http_port : ℕ
default_kong_http_port = 8000

abbrev pub default_kong_https_port : ℕ
default_kong_https_port = 8443

abbrev pub default_kong_admin_port : ℕ
default_kong_admin_port = 8444

abbrev pub default_kong_status_port : ℕ
default_kong_status_port = 8100

-- The entries of the map, in the order of the source.
abbrev pub kong_defaults : List (String × String)
kong_defaults =
    ("KONG_ADMIN_ACCESS_LOG", "/dev/stdout")
    ∷ ("KONG_ADMIN_ERROR_LOG", "/dev/stderr")
    ∷ ("KONG_ADMIN_GUI_ACCESS_LOG", "/dev/stdout")
    ∷ ("KONG_ADMIN_GUI_ERROR_LOG", "/dev/stderr")
    ∷ ("KONG_CLUSTER_LISTEN", "off")
    ∷ ("KONG_DATABASE", "off")
    ∷ ("KONG_NGINX_WORKER_PROCESSES", "2")
    ∷ ("KONG_PLUGINS", "bundled")
    ∷ ("KONG_PORTAL_API_ACCESS_LOG", "/dev/stdout")
    ∷ ("KONG_PORTAL_API_ERROR_LOG", "/dev/stderr")
    ∷ ("KONG_PORT_MAPS", "80:8000, 443:8443")
    ∷ ("KONG_PROXY_ACCESS_LOG", "/dev/stdout")
    ∷ ("KONG_PROXY_ERROR_LOG", "/dev/stderr")
    ∷ (
      "KONG_PROXY_LISTEN",
      "0.0.0.0:8000 reuseport backlog=16384, 0.0.0.0:8443 http2 ssl reuseport backlog=16384",
    )
    ∷ ("KONG_STATUS_LISTEN", "0.0.0.0:8100")
    ∷ ("KONG_ADMIN_LISTEN", "0.0.0.0:8444 ssl reuseport backlog=16384")
    ∷ ("KONG_ADMIN_SSL_CERT", "/var/cluster-certificate/tls.crt")
    ∷ ("KONG_ADMIN_SSL_CERT_KEY", "/var/cluster-certificate/tls.key")
    ∷ ("KONG_NGINX_ADMIN_SSL_CLIENT_CERTIFICATE", "/var/cluster-certificate/ca.crt")
    ∷ ("KONG_NGINX_ADMIN_SSL_VERIFY_CLIENT", "on")
    ∷ ("KONG_NGINX_ADMIN_SSL_VERIFY_DEPTH", "3")
    ∷ []

unfoldable pub is_env_var_present : EnvVar → List EnvVar → Bool
is_env_var_present v env = any_of (λ w. v.name == w.name) env

-- SortableEnvVars.Less, on the elements
unfoldable pub less : EnvVar → EnvVar → Bool
less v w = is_lt (compare (v.name <> v.value) (w.name <> w.value))

unfoldable pub insert_sorted : EnvVar → List EnvVar → List EnvVar
unfolding less
insert_sorted v [] = v ∷ []
insert_sorted v (w ∷ ws) =
    let rest = insert_sorted v ws in if less w v then w ∷ rest else v ∷ w ∷ ws

-- sort.Sort with this order
unfoldable pub sort_env : List EnvVar → List EnvVar
unfolding insert_sorted
sort_env [] = []
sort_env (v ∷ vs) = insert_sorted v (sort_env vs)

abbrev pub env_var : String × String → EnvVar
env_var kv = record { name = kv.0; value = kv.1; value_from = none }

unfoldable pub add_defaults : List (String × String) → List EnvVar → List EnvVar
unfolding is_env_var_present
add_defaults [] env = env
add_defaults (kv ∷ rest) env =
    add_defaults rest (if is_env_var_present (env_var kv) env then env else env ++ env_var kv ∷ [])

-- SetDataPlaneDefaults, which meets the entries of the map in any order: here in `order`.
unfoldable pub set_data_plane_defaults :
    List (String × String) → DeploymentOptions → DeploymentOptions
unfolding sort_env add_defaults
set_data_plane_defaults order spec = record spec { env = sort_env (add_defaults order spec.env) }
