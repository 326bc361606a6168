-- ===== src/ControlPlanes/RoleRules/Ge24.antt =====
-- The rules for the versions >=2.4 of the ingress controller.
use gateway_operator.Prelude.{List, [], ◌∷◌, ◌++◌}
use gateway_operator.Api.Workloads.{PolicyRule}
use gateway_operator.ControlPlanes.RoleRules.Rule.{rule}

abbrev rules_ge2_4_part1 : List PolicyRule
rules_ge2_4_part1 =
    rule "" "endpoints" ("list" ∷ "watch" ∷ [])
    ∷ rule "" "endpoints/status" ("get" ∷ "patch" ∷ "update" ∷ [])
    ∷ rule "" "events" ("create" ∷ "patch" ∷ [])
    ∷ rule "" "nodes" ("list" ∷ "watch" ∷ [])
    ∷ rule "" "pods" ("get" ∷ "list" ∷ "watch" ∷ [])
    ∷ rule "" "secrets" ("list" ∷ "watch" ∷ [])
    ∷ rule "" "secrets/status" ("get" ∷ "patch" ∷ "update" ∷ [])
    ∷ rule "" "services" ("get" ∷ "list" ∷ "watch" ∷ [])
    ∷ rule "" "services/status" ("get" ∷ "patch" ∷ "update" ∷ [])
    ∷ rule "configuration.konghq.com" "kongclusterplugins" ("get" ∷ "list" ∷ "watch" ∷ [])
    ∷ rule "configuration.konghq.com" "kongclusterplugins/status" ("get" ∷ "patch" ∷ "update" ∷ [])
    ∷ rule "configuration.konghq.com" "kongconsumers" ("get" ∷ "list" ∷ "watch" ∷ [])
    ∷ rule "configuration.konghq.com" "kongconsumers/status" ("get" ∷ "patch" ∷ "update" ∷ [])
    ∷ []

abbrev rules_ge2_4_part2 : List PolicyRule
rules_ge2_4_part2 =
    rule "configuration.konghq.com" "kongingresses" ("get" ∷ "list" ∷ "watch" ∷ [])
    ∷ rule "configuration.konghq.com" "kongingresses/status" ("get" ∷ "patch" ∷ "update" ∷ [])
    ∷ rule "configuration.konghq.com" "kongplugins" ("get" ∷ "list" ∷ "watch" ∷ [])
    ∷ rule "configuration.konghq.com" "kongplugins/status" ("get" ∷ "patch" ∷ "update" ∷ [])
    ∷ rule "configuration.konghq.com" "tcpingresses" ("get" ∷ "list" ∷ "watch" ∷ [])
    ∷ rule "configuration.konghq.com" "tcpingresses/status" ("get" ∷ "patch" ∷ "update" ∷ [])
    ∷ rule "configuration.konghq.com" "udpingresses" ("get" ∷ "list" ∷ "watch" ∷ [])
    ∷ rule "configuration.konghq.com" "udpingresses/status" ("get" ∷ "patch" ∷ "update" ∷ [])
    ∷ rule "extensions" "ingresses" ("get" ∷ "list" ∷ "watch" ∷ [])
    ∷ rule "extensions" "ingresses/status" ("get" ∷ "patch" ∷ "update" ∷ [])
    ∷ rule "gateway.networking.k8s.io" "gatewayclasses" ("get" ∷ "list" ∷ "watch" ∷ [])
    ∷ rule "gateway.networking.k8s.io" "gatewayclasses/status" ("get" ∷ "update" ∷ [])
    ∷ rule "gateway.networking.k8s.io" "gateways" ("get" ∷ "list" ∷ "update" ∷ "watch" ∷ [])
    ∷ []

abbrev rules_ge2_4_part3 : List PolicyRule
rules_ge2_4_part3 =
    rule "gateway.networking.k8s.io" "gateways/status" ("get" ∷ "update" ∷ [])
    ∷ rule "gateway.networking.k8s.io" "httproutes" ("get" ∷ "list" ∷ "watch" ∷ [])
    ∷ rule "gateway.networking.k8s.io" "httproutes/status" ("get" ∷ "update" ∷ [])
    ∷ rule "gateway.networking.k8s.io" "referencepolicies"
        ("create" ∷ "delete" ∷ "get" ∷ "list" ∷ "patch" ∷ "update" ∷ "watch" ∷ [])
    ∷ rule "gateway.networking.k8s.io" "referencepolicies/finalizers" ("update" ∷ [])
    ∷ rule "gateway.networking.k8s.io" "referencepolicies/status" ("get" ∷ "patch" ∷ "update" ∷ [])
    ∷ rule "gateway.networking.k8s.io" "tcproutes" ("get" ∷ "list" ∷ "watch" ∷ [])
    ∷ rule "gateway.networking.k8s.io" "tcproutes/status" ("get" ∷ "update" ∷ [])
    ∷ rule "gateway.networking.k8s.io" "tlsroutes" ("get" ∷ "list" ∷ "watch" ∷ [])
    ∷ rule "gateway.networking.k8s.io" "tlsroutes/status" ("get" ∷ "update" ∷ [])
    ∷ rule "gateway.networking.k8s.io" "udproutes" ("get" ∷ "list" ∷ "watch" ∷ [])
    ∷ rule "gateway.networking.k8s.io" "udproutes/status" ("get" ∷ "update" ∷ [])
    ∷ rule "networking.internal.knative.dev" "ingresses" ("get" ∷ "list" ∷ "watch" ∷ [])
    ∷ []

abbrev rules_ge2_4_part4 : List PolicyRule
rules_ge2_4_part4 =
    rule "networking.internal.knative.dev" "ingresses/status" ("get" ∷ "patch" ∷ "update" ∷ [])
    ∷ rule "networking.k8s.io" "ingressclasses" ("get" ∷ "list" ∷ "watch" ∷ [])
    ∷ rule "networking.k8s.io" "ingresses" ("get" ∷ "list" ∷ "watch" ∷ [])
    ∷ rule "networking.k8s.io" "ingresses/status" ("get" ∷ "patch" ∷ "update" ∷ [])
    ∷ []

abbrev pub rules_ge2_4 : List PolicyRule
rules_ge2_4 = rules_ge2_4_part1 ++ rules_ge2_4_part2 ++ rules_ge2_4_part3 ++ rules_ge2_4_part4
