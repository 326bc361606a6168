-- ===== src/Gateways/Watch/Tests.antt =====
-- A gateway of another operator, and the requests after a change of a configuration.
use gateway_operator.Prelude.{◌≡◌, ◌↔◌, refl, [], ◌∷◌, List}
use gateway_operator.Errors.{ok, is_unsupported_gateway}
use gateway_operator.Api.Meta.{NamespacedName}
use gateway_operator.Api.Resources.{Gateway, GatewayClass}
use gateway_operator.DataPlanes.Defaults.{kong_defaults}
use gateway_operator.Lists.Laws.{Has}
use gateway_operator.Client.{Call, continue, attempt, request, pure, raise, ◌>>=◌}
use gateway_operator.Gateways.Classes.{
  verify_gateway_class_support, gateway_class_matches_controller,
}
use gateway_operator.Gateways.Reconciler.{reconcile_found}
use gateway_operator.Gateways.Watch.{
  gateway_has_matching_gateway_class, list_gateways_for_gateway_config, request_for,
}
use gateway_operator.Gateways.Watch.Filters.{dropped_is_ignored}
use gateway_operator.Gateways.Watch.Requests.{RefersTo, requests_iff}
use gateway_operator.Gateways.Samples.{cluster, gateway, class, configuration}

dropped_is_ignored_example :
    reconcile_found cluster "other" kong_defaults gateway []
    ≡ (ok tt, Call.get_gateway_class "kong" ∷ [])
unfolding gateway_has_matching_gateway_class verify_gateway_class_support
    gateway_class_matches_controller continue attempt request pure raise ◌>>=◌
    is_unsupported_gateway
dropped_is_ignored_example =
    dropped_is_ignored cluster "other" kong_defaults gateway [] (Call.get_gateway_class "kong" ∷ [])
      refl

requests_iff_example :
    (requests : List NamespacedName) × ((list_gateways_for_gateway_config cluster "kong"
        configuration []).0
      ≡ ok requests)
    × (Has (request_for gateway) requests ↔ (
        (g : Gateway) × (k : GatewayClass) × Has g (gateway ∷ [])
        × Has k (class ∷ [])
        × (request_for gateway ≡ request_for g)
        × (g.gateway_class_name ≡ k.metadata.name)
        × RefersTo configuration.metadata.name k))
requests_iff_example =
    requests_iff cluster "kong" configuration (class ∷ []) (gateway ∷ []) [] (request_for gateway)
      refl refl
