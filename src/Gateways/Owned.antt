-- ===== src/Gateways/Owned.antt =====
-- controllers/gateway_controller_reconciler_utils.go: the data plane, the control plane and the
-- network policy of a gateway.
pub mod Policy
pub mod Ownership
pub mod Accepted
mod Tests
use gateway_operator.Prelude.{
  ℕ, String, ◌<>◌, Bool, true, false, Option, none, some, List, [], ◌∷◌, if◌then◌else◌, at_most_one,
  show_count, length,
}
use gateway_operator.Errors.{too_many_network_policies}
use gateway_operator.Api.Meta.{empty_meta}
use gateway_operator.Api.Resources.{
  DataPlane, ControlPlane, Gateway, GatewayClass, GatewayConfiguration, gateway_object,
}
use gateway_operator.Api.Workloads.{NetworkPolicy, NetworkPolicyIngressRule}
use gateway_operator.Metadata.{
  set_owner_for_object, label_object_as_gateway_managed, ensure_object_meta_is_updated,
}
use gateway_operator.Gateways.Classes.{data_plane_options_of, control_plane_options_of}
use gateway_operator.Gateways.{list_network_policies_for_gateway}
use gateway_operator.Client.{Client, M, pure, raise, lift, ◌>>=◌, ◌>>◌}
use gateway_operator.Client.Calls

-- The data plane that createDataPlane creates.
unfoldable pub new_data_plane : Gateway → GatewayConfiguration → DataPlane
unfolding set_owner_for_object label_object_as_gateway_managed
new_data_plane g config = record {
  metadata = label_object_as_gateway_managed (
      set_owner_for_object
        (record empty_meta {
          namespace = g.metadata.namespace;
          generate_name = g.metadata.name <> "-";
        })
        g);
  spec = data_plane_options_of config;
  conditions = [];
  service = "";
}

-- `if controlplane.Spec.DataPlane == nil { controlplane.Spec.DataPlane = &dataplaneName }`
abbrev or_data_plane : Option String → String → Option String
or_data_plane none name = some name
or_data_plane (some s) name = some s

-- The control plane that createControlPlane creates.
unfoldable pub new_control_plane :
    GatewayClass → Gateway → GatewayConfiguration → String → ControlPlane
unfolding set_owner_for_object label_object_as_gateway_managed
new_control_plane k g config data_plane_name =
    let options = control_plane_options_of config in
    record {
      metadata = label_object_as_gateway_managed (
          set_owner_for_object
            (record empty_meta {
              namespace = g.metadata.namespace;
              generate_name = g.metadata.name <> "-";
            })
            g);
      spec = record options { data_plane = or_data_plane options.data_plane data_plane_name };
      gateway_class = some k.metadata.name;
      ingress_class = none;
      conditions = [];
    }

abbrev pub admin_api_port : ℕ
admin_api_port = 8444

abbrev pub proxy_port : ℕ
proxy_port = 8000

abbrev pub proxy_ssl_port : ℕ
proxy_ssl_port = 8443

abbrev pub metrics_port : ℕ
metrics_port = 8100

-- Only the pods of the control plane may reach the admin API.
unfoldable pub limit_admin_api_ingress : DataPlane → ControlPlane → NetworkPolicyIngressRule
limit_admin_api_ingress d p = record {
  ports = ("TCP", admin_api_port) ∷ [];
  from =
      record {
        pod_selector = ("app", p.metadata.name) ∷ [];
        namespace_selector = ("kubernetes.io/metadata.name", d.metadata.namespace) ∷ [];
      }
      ∷ [];
}

abbrev allow_from_all : List (String × ℕ) → NetworkPolicyIngressRule
allow_from_all ports = record { ports = ports; from = [] }

unfoldable pub generate_data_plane_network_policy :
    String → DataPlane → ControlPlane → NetworkPolicy
unfolding limit_admin_api_ingress
generate_data_plane_network_policy namespace d p = record {
  metadata = record empty_meta {
    namespace = namespace;
    generate_name = d.metadata.name <> "-limit-admin-api-";
  };
  pod_selector = ("app", d.metadata.name) ∷ [];
  policy_types = "Ingress" ∷ [];
  ingress =
      limit_admin_api_ingress d p
      ∷ allow_from_all (("TCP", proxy_port) ∷ ("TCP", proxy_ssl_port) ∷ [])
      ∷ allow_from_all (("TCP", metrics_port) ∷ [])
      ∷ [];
}

-- The generated policy, with its owner and its label.
unfoldable pub generated_network_policy : Gateway → DataPlane → ControlPlane → NetworkPolicy
unfolding generate_data_plane_network_policy set_owner_for_object label_object_as_gateway_managed
generated_network_policy g d p =
    let n = generate_data_plane_network_policy g.metadata.namespace d p in
    record n { metadata = label_object_as_gateway_managed (set_owner_for_object n.metadata g) }

module _ (c : Client) where
  unfoldable pub create_data_plane : Gateway → GatewayConfiguration → M (Unit {0})
  unfolding new_data_plane
  create_data_plane g config = Calls.create_data_plane c (new_data_plane g config)

  unfoldable pub create_control_plane :
      GatewayClass → Gateway → GatewayConfiguration → String → M (Unit {0})
  unfolding new_control_plane
  create_control_plane k g config data_plane_name =
      Calls.create_control_plane c (new_control_plane k g config data_plane_name)

  unfoldable pub update_owned_network_policy : NetworkPolicy → NetworkPolicy → M Bool
  unfolding ensure_object_meta_is_updated
  update_owned_network_policy generated existing = do
    (updated, meta) ← lift (ensure_object_meta_is_updated existing.metadata generated.metadata)
    if updated
        then (do Calls.update_network_policy c (record existing { metadata = meta }); pure true)
        else pure false

  unfoldable pub ensure_data_plane_has_network_policy : Gateway → DataPlane → ControlPlane → M Bool
  unfolding update_owned_network_policy generated_network_policy list_network_policies_for_gateway
  ensure_data_plane_has_network_policy g d p = do
    policies ← list_network_policies_for_gateway c g
    at_most_one (do Calls.create_network_policy c (generated_network_policy g d p); pure true)
        (update_owned_network_policy (generated_network_policy g d p))
        (raise
          (too_many_network_policies (", got: " <> show_count (length policies) <> ", expected 1")))
        policies
