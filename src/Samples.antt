-- ===== src/Samples.antt =====
-- The cluster, the keys and the resources of the tests.
use gateway_operator.Prelude.{String, none, some, [], ◌∷◌}
use gateway_operator.Errors.{Err, Result, ok, err}
use gateway_operator.Api.Meta.{empty_meta}
use gateway_operator.Api.Env.{EnvVar}
use gateway_operator.Api.Resources.{DataPlane, DeploymentOptions, empty_options}
use gateway_operator.Client.{Client}
use gateway_operator.Signing.{Crypto}

abbrev down : {A : Type 0} → Result A
down = err (Err.api "connection refused")

-- A server that answers no call.
abbrev pub offline : Client
offline = record {
  now = λ t. 100;
  data_plane_at = λ t n. down;
  control_plane_at = λ t n. down;
  gateway_at = λ t n. down;
  gateway_config_at = λ t n. down;
  secret_at = λ t n. down;
  config_map_at = λ t n. down;
  gateway_class_at = λ t n. down;
  deployments = λ t o. down;
  services = λ t o. down;
  secrets = λ t o. down;
  service_accounts = λ t o. down;
  cluster_roles = λ t o. down;
  cluster_role_bindings = λ t o. down;
  network_policies = λ t o. down;
  data_planes = λ t o. down;
  control_planes = λ t o. down;
  all_control_planes = λ t. down;
  all_gateways = λ t. down;
  all_gateway_classes = λ t. down;
  wrote_deployment = λ t x. ok x;
  wrote_service = λ t x. ok x;
  wrote_secret = λ t x. ok x;
  wrote_service_account = λ t x. ok x;
  wrote_cluster_role = λ t x. ok x;
  wrote_cluster_role_binding = λ t x. ok x;
  wrote_data_plane = λ t x. ok x;
  wrote_control_plane = λ t x. ok x;
  wrote_gateway_status = λ t x. ok x;
  secret_ref_text = λ r. r.name;
  failure = λ t call. none;
}

-- Keys and blocks that are their own texts, and a CA that ends at 2000000000 nanoseconds.
abbrev pub plain_crypto : Crypto
plain_crypto = record {
  generate_key = λ t. ok "key";
  create_certificate_request = λ t subject key. ok subject;
  marshal_key = λ key. ok key;
  pem_encode = λ type bytes. bytes;
  pem_decode = λ text. some text;
  parse_key = λ bytes. ok bytes;
  parse_certificate = λ bytes. ok (record { der = bytes; not_after = 2000000000 });
  sign = λ key ca usages expiry request. ok request;
  show_time = λ n. "";
}

abbrev pub literal : String → String → EnvVar
literal name value = record { name = name; value = value; value_from = none }

abbrev pub off_options : DeploymentOptions
off_options = record empty_options { env = literal "KONG_DATABASE" "off" ∷ [] }

abbrev pub data_plane : DeploymentOptions → DataPlane
data_plane options = record {
  metadata = record empty_meta { name = "dp"; namespace = "default"; uid = "u1" };
  spec = options;
  conditions = [];
  service = "";
}
