-- ===== src/DataPlanes/Generators.antt =====
-- controllers/dataplane_controller_utils.go: the objects generated for a data plane.
use gateway_operator.Prelude.{
  String, ◌<>◌, Bool, true, ◌&&◌, Option, none, some, List, [], ◌∷◌, ◌==◌, string_eq, option_eq,
  list_eq, find_if, if◌then◌else◌,
}
use gateway_operator.Api.Meta.{empty_meta}
use gateway_operator.Api.Env.{env_var_eq, env_from_source_eq}
use gateway_operator.Api.Resources.{DataPlane, DeploymentOptions, data_plane_object}
use gateway_operator.Api.Workloads.{Deployment, Service, Container, PodSpec}
use gateway_operator.Owners.{data_plane_prefix}
use gateway_operator.DataPlanes.Defaults.{
  default_http_port, default_https_port, default_kong_http_port, default_kong_https_port,
  default_kong_admin_port,
}

abbrev pub default_data_plane_image : String
default_data_plane_image = "kong:2.8"

abbrev pub data_plane_proxy_container_name : String
data_plane_proxy_container_name = "proxy"

-- The image that the options ask for; without one, a version counts for nothing.
unfoldable pub image_of : String → DeploymentOptions → String
image_of default opts = elim opts.container_image [
  | none ↦ default
  | some image ↦ elim opts.version [ none ↦ image | some version ↦ image <> ":" <> version ]
]

unfoldable pub proxy_container : DataPlane → Container
unfolding image_of
proxy_container d = record {
  name = data_plane_proxy_container_name;
  env = d.spec.env;
  env_from = d.spec.env_from;
  image = image_of default_data_plane_image d.spec;
  image_pull_policy = "IfNotPresent";
  volume_mounts =
      record {
        name = "cluster-certificate";
        read_only = true;
        mount_path = "/var/cluster-certificate";
      }
      ∷ [];
  pre_stop = "/bin/sh" ∷ "-c" ∷ "kong quit" ∷ [];
  ports =
      record { name = "proxy"; container_port = 8000; protocol = "TCP" }
      ∷ record { name = "proxy-ssl"; container_port = 8443; protocol = "TCP" }
      ∷ record { name = "metrics"; container_port = 8100; protocol = "TCP" }
      ∷ record { name = "admin-ssl"; container_port = 8444; protocol = "TCP" }
      ∷ [];
  liveness_probe = none;
  readiness_probe = some (record {
    failure_threshold = 3;
    initial_delay_seconds = 5;
    period_seconds = 10;
    success_threshold = 1;
    timeout_seconds = 1;
    path = "/status";
    port = 8100;
    scheme = "HTTP";
  });
}

unfoldable pub generate_new_deployment_for_data_plane : DataPlane → String → Deployment
unfolding proxy_container
generate_new_deployment_for_data_plane d cert_secret_name = record {
  metadata = record empty_meta {
    namespace = d.metadata.namespace;
    generate_name = data_plane_prefix <> "-" <> d.metadata.name <> "-";
    labels = some (("app", d.metadata.name) ∷ []);
  };
  replicas = none;
  selector = ("app", d.metadata.name) ∷ [];
  template_labels = ("app", d.metadata.name) ∷ [];
  template = record {
    service_account_name = "";
    volumes =
        record {
          name = "cluster-certificate";
          secret_name = cert_secret_name;
          items = ("tls.crt", "tls.crt") ∷ ("tls.key", "tls.key") ∷ ("ca.crt", "ca.crt") ∷ [];
        }
        ∷ [];
    containers = proxy_container d ∷ [];
  };
  status_replicas = 0;
  available_replicas = 0;
}

unfoldable pub generate_new_service_for_data_plane : DataPlane → Service
generate_new_service_for_data_plane d = record {
  metadata = record empty_meta {
    namespace = d.metadata.namespace;
    generate_name = data_plane_prefix <> "-" <> d.metadata.name <> "-";
  };
  type = "LoadBalancer";
  selector = ("app", d.metadata.name) ∷ [];
  ports =
      record {
        name = "http";
        protocol = "TCP";
        port = default_http_port;
        target_port = some default_kong_http_port;
      }
      ∷ record {
        name = "https";
        protocol = "TCP";
        port = default_https_port;
        target_port = some default_kong_https_port;
      }
      ∷ record {
        name = "admin";
        protocol = "TCP";
        port = default_kong_admin_port;
        target_port = none;
      }
      ∷ [];
  cluster_ip = "";
  ingress_ips = [];
}

-- internal/utils/kubernetes/resources/containers.go. The reference that it returns is that of the
-- first container of the name; `with_container` writes through it.
unfoldable pub get_pod_container_by_name : PodSpec → String → Option Container
get_pod_container_by_name pod name = find_if (λ c. c.name == name) pod.containers

unfoldable pub with_container : String → (Container → Container) → List Container → List Container
with_container name f [] = []
with_container name f (c ∷ cs) =
    let rest = with_container name f cs in if c.name == name then f c ∷ cs else c ∷ rest

-- deploymentOptionsDeepEqual of controllers/utils.go, which dataplaneSpecDeepEqual calls
unfoldable pub deployment_options_deep_equal : DeploymentOptions → DeploymentOptions → Bool
deployment_options_deep_equal a b =
    a.container_image == b.container_image
    && a.version == b.version
    && a.env == b.env
    && a.env_from == b.env_from

unfoldable pub data_plane_spec_deep_equal : DeploymentOptions → DeploymentOptions → Bool
unfolding deployment_options_deep_equal
data_plane_spec_deep_equal = deployment_options_deep_equal
