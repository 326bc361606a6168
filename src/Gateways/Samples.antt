-- ===== src/Gateways/Samples.antt =====
-- A gateway with its class and its ready planes.
use gateway_operator.Prelude.{true, none, some, [], ◌∷◌}
use gateway_operator.Errors.{ok}
use gateway_operator.Api.Meta.{Condition, OwnerReference, empty_meta}
use gateway_operator.Api.Resources.{
  DataPlane, ControlPlane, Gateway, GatewayClass, GatewayConfiguration, ParametersReference,
  scheme_group, empty_options,
}
use gateway_operator.Client.{Client}
use gateway_operator.DataPlanes.Owned.{generated_service}
use gateway_operator.Samples.{offline, data_plane, off_options}

abbrev pub gateway : Gateway
gateway = record {
  metadata = record empty_meta { name = "gw"; namespace = "default"; uid = "g1" };
  gateway_class_name = "kong";
  conditions = [];
  addresses = [];
}

abbrev pub parameters : ParametersReference
parameters = record {
  group = scheme_group;
  kind = "GatewayConfiguration";
  name = "config";
  namespace = some "default";
}

abbrev pub class : GatewayClass
class = record {
  metadata = record empty_meta { name = "kong" };
  controller_name = "konghq.com/gateway-operator";
  parameters_ref = some parameters;
}

abbrev pub configuration : GatewayConfiguration
configuration = record {
  metadata = record empty_meta { name = "config"; namespace = "default" };
  data_plane_options = none;
  control_plane_options = none;
  conditions = [];
}

abbrev ready : Condition
ready = record {
  type = "Ready";
  status = "True";
  reason = "Ready";
  message = "";
  observed_generation = 0;
  last_transition_time = 1;
}

abbrev owner : OwnerReference
owner = record {
  api_version = "gateway.networking.k8s.io/v1beta1";
  kind = "Gateway";
  name = "gw";
  uid = "g1";
  controller = some true;
  block_owner_deletion = none;
}

abbrev pub ready_plane : DataPlane
ready_plane = record (data_plane off_options) {
  metadata = record empty_meta {
    name = "dp";
    namespace = "default";
    uid = "u1";
    owner_references = owner ∷ [];
  };
  conditions = ready ∷ [];
}

abbrev pub ready_control_plane : ControlPlane
ready_control_plane = record {
  metadata = record empty_meta {
    name = "cp";
    namespace = "default";
    uid = "c1";
    owner_references = owner ∷ [];
  };
  spec = record { deployment = empty_options; data_plane = some "dp" };
  gateway_class = some "kong";
  ingress_class = none;
  conditions = ready ∷ [];
}

-- The planes are ready, and no network policy is there yet.
abbrev pub cluster : Client
cluster = record offline {
  gateway_at = λ t n. ok gateway;
  gateway_class_at = λ t n. ok class;
  gateway_config_at = λ t n. ok configuration;
  data_planes = λ t o. ok (ready_plane ∷ []);
  control_planes = λ t o. ok (ready_control_plane ∷ []);
  services = λ t o. ok (generated_service ready_plane ∷ []);
  network_policies = λ t o. ok [];
  all_gateways = λ t. ok (gateway ∷ []);
  all_gateway_classes = λ t. ok (class ∷ []);
}
