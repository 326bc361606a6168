-- ===== src/ControlPlanes/RoleRules/Ge22Lt23.antt =====
-- The rules for the versions >=2.2,<2.3 of the ingress controller.
use gateway_operator.Prelude.{List, [], ◌∷◌, ◌++◌}
use gateway_operator.Api.Workloads.{PolicyRule}
use gateway_operator.ControlPlanes.RoleRules.Rule.{rule}

abbrev rules_ge2_2_lt2_3_part1 : List PolicyRule
rules_ge2_2_lt2_3_part1 =
    rule "" "endpoints" ("list" ∷ "watch" ∷ [])
    ∷ rule "" "endpoints/status" ("get" ∷ "patch" ∷ "update" ∷ [])
    ∷ rule "" "events" ("create" ∷ "patch" ∷ [])
    ∷ rule "" "nodes" ("list" ∷ "watch" ∷ [])
    ∷ rule "" "pods" ("get" ∷ "list" ∷ "watch" ∷ [])
    ∷ rule "" "secrets" ("list" ∷ "watch" ∷ [])
    ∷ rule "" "secrets/status" ("get" ∷ "patch" ∷ "update" ∷ [])
    ∷ rule "" "services" ("get" ∷ "list" ∷ "watch" ∷ [])
    ∷ rule "" "services/status" ("get" ∷ "patch" ∷ "update" ∷ [])
    ∷ rule "configuration.konghq.com" "kongclusterplugins" ("get" ∷ "list" ∷ "watch" ∷ [])
    ∷ rule "configuration.konghq.com" "kongclusterplugins/status" ("get" ∷ "patch" ∷ "update" ∷ [])
    ∷ rule "configuration.konghq.com" "kongconsumers" ("get" ∷ "list" ∷ "watch" ∷ [])
    ∷ rule "configuration.konghq.com" "kongconsumers/status" ("get" ∷ "patch" ∷ "update" ∷ [])
    ∷ []

abbrev rules_ge2_2_lt2_3_part2 : List PolicyRule
rules_ge2_2_lt2_3_part2 =
    rule "configuration.konghq.com" "kongingresses" ("get" ∷ "list" ∷ "watch" ∷ [])
    ∷ rule "configuration.konghq.com" "kongingresses/status" ("get" ∷ "patch" ∷ "update" ∷ [])
    ∷ rule "configuration.konghq.com" "kongplugins" ("get" ∷ "list" ∷ "watch" ∷ [])
    ∷ rule "configuration.konghq.com" "kongplugins/status" ("get" ∷ "patch" ∷ "update" ∷ [])
    ∷ rule "configuration.konghq.com" "tcpingresses" ("get" ∷ "list" ∷ "watch" ∷ [])
    ∷ rule "configuration.konghq.com" "tcpingresses/status" ("get" ∷ "patch" ∷ "update" ∷ [])
    ∷ rule "configuration.konghq.com" "udpingresses" ("get" ∷ "list" ∷ "watch" ∷ [])
    ∷ rule "configuration.konghq.com" "udpingresses/status" ("get" ∷ "patch" ∷ "update" ∷ [])
    ∷ rule "extensions" "ingresses" ("get" ∷ "list" ∷ "watch" ∷ [])
    ∷ rule "extensions" "ingresses/status" ("get" ∷ "patch" ∷ "update" ∷ [])
    ∷ rule "gateway.networking.k8s.io" "gatewayclasses" ("get" ∷ "list" ∷ "watch" ∷ [])
    ∷ rule "gateway.networking.k8s.io" "gatewayclasses/status" ("get" ∷ "update" ∷ [])
    ∷ rule "gateway.networking.k8s.io" "gateways" ("get" ∷ "list" ∷ "update" ∷ "watch" ∷ [])
    ∷ []

abbrev rules_ge2_2_lt2_3_part3 : List PolicyRule
rules_ge2_2_lt2_3_part3 =
    rule "gateway.networking.k8s.io" "gateways/status" ("get" ∷ "update" ∷ [])
    ∷ rule "gateway.networking.k8s.io" "httproutes" ("get" ∷ "list" ∷ "watch" ∷ [])
    ∷ rule "gateway.networking.k8s.io" "httproutes/status" ("get" ∷ "update" ∷ [])
    ∷ rule "networking.internal.knative.dev" "ingresses" ("get" ∷ "list" ∷ "watch" ∷ [])
    ∷ rule "networking.internal.knative.dev" "ingresses/status" ("get" ∷ "patch" ∷ "update" ∷ [])
    ∷ rule "networking.k8s.io" "ingresses" ("get" ∷ "list" ∷ "watch" ∷ [])
    ∷ rule "networking.k8s.io" "ingresses/status" ("get" ∷ "patch" ∷ "update" ∷ [])
    ∷ []

abbrev pub rules_ge2_2_lt2_3 : List PolicyRule
rules_ge2_2_lt2_3 = rules_ge2_2_lt2_3_part1 ++ rules_ge2_2_lt2_3_part2 ++ rules_ge2_2_lt2_3_part3
