-- ===== src/ControlPlanes/Generators.antt =====
-- controllers/controlplane_controller_utils.go and internal/utils/kubernetes/resources: the objects
-- generated for a control plane.
use gateway_operator.Prelude.{
  String, ◌<>◌, Bool, true, ◌&&◌, none, some, [], ◌∷◌, ◌==◌, string_eq, option_eq,
}
use gateway_operator.Api.Meta.{empty_meta}
use gateway_operator.Api.Resources.{ControlPlane, ControlPlaneOptions, control_plane_object}
use gateway_operator.Api.Workloads.{Deployment, Container, Probe}
use gateway_operator.Metadata.{generate_owner_reference_for_object}
use gateway_operator.Owners.{control_plane_prefix}
use gateway_operator.DataPlanes.Generators.{image_of, deployment_options_deep_equal}

abbrev pub default_control_plane_image : String
default_control_plane_image = "kong/kubernetes-ingress-controller:2.5"

abbrev pub controller_container_name : String
controller_container_name = "controller"

abbrev health_probe : String → Probe
health_probe path = record {
  failure_threshold = 3;
  initial_delay_seconds = 5;
  period_seconds = 10;
  success_threshold = 1;
  timeout_seconds = 1;
  path = path;
  port = 10254;
  scheme = "HTTP";
}

unfoldable pub controller_container : ControlPlane → Container
unfolding image_of
controller_container c = record {
  name = controller_container_name;
  env = c.spec.deployment.env;
  env_from = c.spec.deployment.env_from;
  image = image_of default_control_plane_image c.spec.deployment;
  image_pull_policy = "IfNotPresent";
  volume_mounts =
      record {
        name = "cluster-certificate";
        read_only = true;
        mount_path = "/var/cluster-certificate";
      }
      ∷ [];
  pre_stop = "/bin/sh" ∷ "-c" ∷ "kong quit" ∷ [];
  ports = record { name = "health"; container_port = 10254; protocol = "TCP" } ∷ [];
  liveness_probe = some (health_probe "/healthz");
  readiness_probe = some (health_probe "/readyz");
}

unfoldable pub generate_new_deployment_for_control_plane :
    ControlPlane → String → String → Deployment
unfolding controller_container generate_owner_reference_for_object
generate_new_deployment_for_control_plane c service_account_name cert_secret_name = record {
  metadata = record empty_meta {
    namespace = c.metadata.namespace;
    generate_name = control_plane_prefix <> "-" <> c.metadata.name <> "-";
    labels = some (("app", c.metadata.name) ∷ []);
    owner_references = generate_owner_reference_for_object c ∷ [];
  };
  replicas = none;
  selector = ("app", c.metadata.name) ∷ [];
  template_labels = ("app", c.metadata.name) ∷ [];
  template = record {
    service_account_name = service_account_name;
    volumes =
        record {
          name = "cluster-certificate";
          secret_name = cert_secret_name;
          items = ("tls.crt", "tls.crt") ∷ ("tls.key", "tls.key") ∷ ("ca.crt", "ca.crt") ∷ [];
        }
        ∷ [];
    containers = controller_container c ∷ [];
  };
  status_replicas = 0;
  available_replicas = 0;
}

unfoldable pub control_plane_spec_deep_equal : ControlPlaneOptions → ControlPlaneOptions → Bool
unfolding deployment_options_deep_equal
control_plane_spec_deep_equal a b =
    deployment_options_deep_equal a.deployment b.deployment && a.data_plane == b.data_plane
