-- ===== src/ControlPlanes/Owned/Tests.antt =====
-- A control plane without a data plane, whose Deployment has lost its environment.
use gateway_operator.Prelude.{◌≡◌, refl, none, some, [], ◌∷◌}
use gateway_operator.Api.Meta.{empty_meta}
use gateway_operator.Api.Resources.{ControlPlane, empty_options}
use gateway_operator.Api.Workloads.{Deployment}
use gateway_operator.ControlPlanes.Conditions.{empty_control_plane}
use gateway_operator.ControlPlanes.Generators.{controller_container}
use gateway_operator.ControlPlanes.Owned.{refreshed_deployment, controller_deployment}
use gateway_operator.Samples.{literal}

abbrev orphan : ControlPlane
orphan = record empty_control_plane {
  metadata = record empty_meta { name = "cp"; namespace = "default"; uid = "u2" };
  spec = record {
    deployment = record empty_options { env = literal "CONTROLLER_KONG_ADMIN_URL" "x" ∷ [] };
    data_plane = none;
  };
}

abbrev edited : Deployment
edited = record (controller_deployment orphan "sa" "cert") {
  template = record {
    service_account_name = "sa";
    volumes = [];
    containers = record (controller_container orphan) { env = [] } ∷ [];
  };
}

-- The Deployment is scaled down.
scaled_down : (refreshed_deployment orphan [] edited).0.replicas ≡ some 0
unfolding refreshed_deployment controller_deployment
scaled_down = refl
