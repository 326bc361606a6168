-- ===== src/Gateways/Owned/Policy.antt =====
-- What the network policy of a gateway lets through, by the meaning of network policies in
-- Kubernetes: traffic to a pod that the policy isolates is let through if one rule has its port and one
-- of the rule's peers, if it names any, selects the pod that it comes from.
use gateway_operator.Prelude.{
  ℕ, String, ◌≡◌, Bool, true, not, ◌&&◌, ◌||◌, some, List, [], ◌∷◌, ◌==◌, string_eq, nat_eq,
  option_eq, any_of, all_of, arith, eq_iff, if◌then◌else◌,
}
use gateway_operator.Prelude.Labels.{lookup}
use gateway_operator.Api.Resources.{DataPlane, ControlPlane, Gateway}
use gateway_operator.Api.Workloads.{NetworkPolicy, NetworkPolicyIngressRule, NetworkPolicyPeer}
use gateway_operator.Metadata.{set_owner_for_object, label_object_as_gateway_managed}
use gateway_operator.Gateways.Owned.{
  generated_network_policy, generate_data_plane_network_policy, limit_admin_api_ingress,
  admin_api_port, proxy_port, proxy_ssl_port, metrics_port,
}

-- Traffic from one pod to another: the namespace and the labels of the pod it goes to, its protocol
-- and port, and the labels of the pod it comes from and of that pod's namespace.
pub record Traffic : Type 0 where
  pub to_namespace : String
  pub to_labels : List (String × String)
  pub protocol : String
  pub port : ℕ
  pub pod_labels : List (String × String)
  pub namespace_labels : List (String × String)

abbrev pub has_label : List (String × String) → String → String → Bool
has_label labels key value = lookup key labels == some value

abbrev selects : List (String × String) → List (String × String) → Bool
selects selector labels = all_of (λ kv. has_label labels kv.0 kv.1) selector

abbrev is_from : Traffic → List NetworkPolicyPeer → Bool
is_from x [] = true
is_from x (peer ∷ peers) =
    any_of
      (λ q. selects q.pod_selector x.pod_labels && selects q.namespace_selector x.namespace_labels)
      (peer ∷ peers)

abbrev rule_admits : Traffic → NetworkPolicyIngressRule → Bool
rule_admits x rule =
    any_of (λ p. p.0 == x.protocol && p.1 == x.port) rule.ports && is_from x rule.from

-- The policy isolates the pod that the traffic goes to: this is in the namespace of the policy, is
-- selected by it, and the policy is one for ingress.
abbrev isolates : NetworkPolicy → Traffic → Bool
isolates n x =
    n.metadata.namespace == x.to_namespace
    && selects n.pod_selector x.to_labels
    && any_of (λ type. type == "Ingress") n.policy_types

-- The policy, where it is the only one, lets the traffic through: one of its rules does, or it does
-- not isolate the pod.
abbrev pub admits : NetworkPolicy → Traffic → Bool
admits n x = if isolates n x then any_of (rule_admits x) n.ingress else true

-- The generated network policy, where it is the only one, lets through, to the pods that are labelled
-- as those of the data plane in the namespace of the gateway, TCP traffic and nothing else: to the
-- proxy, its TLS port and the metrics from everywhere, and to the admin API exactly from pods that are
-- labelled as those of the control plane, in a namespace with the name of the data plane's. Traffic to
-- other pods it does not restrict.
pub policy_admits :
    (g : Gateway) (d : DataPlane) (p : ControlPlane) (x : Traffic)
    → admits (generated_network_policy g d p) x ≡ (
        if not
          (g.metadata.namespace == x.to_namespace && has_label x.to_labels "app" d.metadata.name)
        then true
        else "TCP" == x.protocol
          && (if admin_api_port == x.port
              then has_label x.pod_labels "app" p.metadata.name
                && has_label x.namespace_labels "kubernetes.io/metadata.name" d.metadata.namespace
              else proxy_port == x.port || proxy_ssl_port == x.port || metrics_port == x.port))
unfolding set_owner_for_object label_object_as_gateway_managed generated_network_policy
    generate_data_plane_network_policy limit_admin_api_ingress
policy_admits g d p x = ground (arith, eq_iff "TCP" x.protocol)
