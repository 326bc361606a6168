-- ===== src/Gateways/Watch.antt =====
-- controllers/gateway_controller_watch.go: which events are let through, and which gateways are
-- reconciled after them. Each function first asserts the type of its object, which is the one here.
pub mod Filters
pub mod Requests
mod Tests
use gateway_operator.Prelude.{
  String, Bool, true, false, not, ◌&&◌, Option, none, some, List, [], ◌==◌, string_eq, any_of,
  filter_if, map,
}
use gateway_operator.Errors.{Result, ok, err, is_unsupported_gateway}
use gateway_operator.Api.Meta.{NamespacedName}
use gateway_operator.Api.Resources.{
  Gateway, GatewayClass, GatewayConfiguration, ParametersReference,
}
use gateway_operator.Gateways.Classes.{
  verify_gateway_class_support, gateway_class_matches_controller, refers_to_configuration,
}
use gateway_operator.Client.{Client, M, pure, attempt, ◌>>=◌}
use gateway_operator.Client.Calls

-- Whatever else fails, the event is let through.
abbrev pub passes : Result GatewayClass → Bool
passes (ok k) = true
passes (err e) = not (is_unsupported_gateway e)

-- reconcile.Request
abbrev pub request_for : Gateway → NamespacedName
request_for g = record { namespace = g.metadata.namespace; name = g.metadata.name }

-- The class refers to a GatewayConfiguration of the name.
abbrev pub names_configuration : String → GatewayClass → Bool
names_configuration name k = elim k.parameters_ref [
  | none ↦ false
  | some ref ↦ refers_to_configuration ref && ref.name == name
]

abbrev pub has_class : String → Gateway → Bool
has_class name g = g.gateway_class_name == name

-- The class of the gateway is in the set of names.
abbrev pub has_class_of : List GatewayClass → Gateway → Bool
has_class_of ks g = any_of (λ k. has_class k.metadata.name g) ks

module _ (c : Client) (controller_name : String) where
  unfoldable pub gateway_has_matching_gateway_class : Gateway → M Bool
  unfolding verify_gateway_class_support
  gateway_has_matching_gateway_class g = do
    r ← attempt (verify_gateway_class_support c controller_name g)
    pure (passes r)

  abbrev any_matches : Result (List GatewayClass) → Bool
  any_matches (ok ks) = any_of (gateway_class_matches_controller c controller_name) ks
  any_matches (err e) = true

  -- The configuration itself is not looked at.
  unfoldable pub gateway_configuration_matches_controller : GatewayConfiguration → M Bool
  unfolding gateway_class_matches_controller
  gateway_configuration_matches_controller config = do
    r ← attempt (Calls.list_all_gateway_classes c)
    pure (any_matches r)

  abbrev pub requests_where : (Gateway → Bool) → Result (List Gateway) → List NamespacedName
  requests_where p (ok gs) = map request_for (filter_if p gs)
  requests_where p (err e) = []

  unfoldable pub list_gateways_for_gateway_class : GatewayClass → M (List NamespacedName)
  list_gateways_for_gateway_class k = do
    r ← attempt (Calls.list_all_gateways c)
    pure (requests_where (has_class k.metadata.name) r)

  abbrev pub list_gateways_of_classes :
      String → Result (List GatewayClass) → M (List NamespacedName)
  list_gateways_of_classes name (err e) = pure []
  list_gateways_of_classes name (ok ks) = do
    r ← attempt (Calls.list_all_gateways c)
    pure (requests_where (has_class_of (filter_if (names_configuration name) ks)) r)

  unfoldable pub list_gateways_for_gateway_config : GatewayConfiguration → M (List NamespacedName)
  list_gateways_for_gateway_config config = do
    r ← attempt (Calls.list_all_gateway_classes c)
    list_gateways_of_classes config.metadata.name r
