-- ===== src/Gateways/Owned/Tests.antt =====
-- Traffic to the admin API of a data plane from the pods of its control plane.
use gateway_operator.Prelude.{
  any_of, All, ◌≡◌, not, ◌&&◌, ◌||◌, ◌==◌, string_eq, nat_eq, if◌then◌else◌, [], ◌∷◌, true, some,
}
use gateway_operator.Prelude.Labels.{lookup}
use gateway_operator.Errors.{ok}
use gateway_operator.Api.Resources.{DataPlane}
use gateway_operator.Metadata.{
  entries, is_owned_by_ref_uid, gateway_operator_controlled_label, gateway_managed_label_value,
}
use gateway_operator.Validation.{validate, env_var_kong_database}
use gateway_operator.DataPlanes.Defaults.{kong_defaults}
use gateway_operator.DataPlanes.Defaults.Valid.{DatabaseOff}
use gateway_operator.Samples.{offline}
use gateway_operator.Gateways.Classes.{set_dataplane_gateway_config_defaults}
use gateway_operator.Gateways.Owned.Accepted.{created_data_plane_lem}
use gateway_operator.Gateways.Owned.{
  new_data_plane, admin_api_port, proxy_port, proxy_ssl_port, metrics_port,
  generated_network_policy,
}
use gateway_operator.Gateways.Owned.Policy.{Traffic, has_label, admits, policy_admits}
use gateway_operator.Gateways.Samples.{configuration, gateway, ready_plane, ready_control_plane}

abbrev traffic : Traffic
traffic = record {
  to_namespace = "default";
  to_labels = ("app", "dp") ∷ [];
  protocol = "TCP";
  port = 8444;
  pod_labels = ("app", "cp") ∷ [];
  namespace_labels = ("kubernetes.io/metadata.name", "default") ∷ [];
}

policy_admits_example :
    admits (generated_network_policy gateway ready_plane ready_control_plane) traffic ≡ (
      if not (
        gateway.metadata.namespace == traffic.to_namespace
        && has_label traffic.to_labels "app" ready_plane.metadata.name)
      then true
      else "TCP" == traffic.protocol
        && (if admin_api_port == traffic.port
            then has_label traffic.pod_labels "app" ready_control_plane.metadata.name
              && has_label traffic.namespace_labels "kubernetes.io/metadata.name"
                  ready_plane.metadata.namespace
            else proxy_port == traffic.port
              || proxy_ssl_port == traffic.port
              || metrics_port == traffic.port))
policy_admits_example = policy_admits gateway ready_plane ready_control_plane traffic

abbrev made : DataPlane
made = new_data_plane gateway (set_dataplane_gateway_config_defaults kong_defaults configuration)

created_data_plane_lem_example :
    (validate offline made [] ≡ (ok tt, []))
    × (any_of (λ w. env_var_kong_database == w.name) made.spec.env ≡ true)
    × All DatabaseOff made.spec.env
    × (made.metadata.namespace ≡ "default")
    × (lookup gateway_operator_controlled_label (entries made.metadata.labels)
        ≡ some gateway_managed_label_value)
    × (is_owned_by_ref_uid made.metadata "g1" ≡ true)
created_data_plane_lem_example =
    created_data_plane_lem offline kong_defaults gateway configuration [] (λ kv. (λ m. m, λ m. m))
      tt tt
