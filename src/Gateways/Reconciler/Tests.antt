-- ===== src/Gateways/Reconciler/Tests.antt =====
-- Reconciliations of a gateway whose planes are ready, without and with its network policy.
use gateway_operator.Prelude.{
  [], refl, String, List, ◌∷◌, Option, some, none, ◌≡◌, ◌↔◌, true, ◌≢◌, eq_iff, arith, string_eq,
}
use gateway_operator.Client.Keeps.{Extends}
use gateway_operator.Gateways.Reconciler.{reconcile, schedule}
use gateway_operator.Gateways.Samples.{
  cluster, gateway, class, configuration, ready_plane, ready_control_plane,
}
use gateway_operator.Errors.{Result, ok, err}
use gateway_operator.Api.Meta.{NamespacedName}
use gateway_operator.Api.Resources.{Gateway, DataPlane, ControlPlane}
use gateway_operator.Api.Workloads.{Service, NetworkPolicy}
use gateway_operator.DataPlanes.Owned.{generated_service}
use gateway_operator.Gateways.Owned.{generated_network_policy, ensure_data_plane_has_network_policy}
use gateway_operator.Gateways.Classes.{
  verify_gateway_class_support, get_or_create_gateway_configuration,
}
use gateway_operator.Gateways.Provision.{provision_data_plane, provision_control_plane}
use gateway_operator.Gateways.Reconciler.Progress.{Admitted, Found, reconcile_completes}
use gateway_operator.Client.{Client, Trace, request, attempt, lift, pure, ◌>>=◌, read, Call}
use gateway_operator.Status.{
  gateway_conditions, init_ready, is_valid_condition_in, set_condition_in, data_plane_conditions,
  control_plane_conditions, is_ready,
}
use gateway_operator.Gateways.Readiness.{service_of}
use gateway_operator.Metadata.{is_owned_by_ref_uid}
use gateway_operator.Prelude.Labels.{lookup, contained, insert_all, insert, same_entries}
use gateway_operator.Status.Conditions.{OthersTrue}
use gateway_operator.Gateways.Readiness.Addresses.{made_ready}
use gateway_operator.Client.Calls

abbrev request_name : NamespacedName
request_name = record { namespace = "default"; name = "gw" }

abbrev exposed : Service
exposed = record (generated_service ready_plane) { cluster_ip = "10.0.0.1" }

abbrev policy : NetworkPolicy
policy = generated_network_policy gateway ready_plane ready_control_plane

-- The network policy is there, and the Service has its address.
abbrev complete : Client
complete = record cluster {
  services = λ t o. ok (exposed ∷ []);
  network_policies = λ t o. ok (policy ∷ []);
}

abbrev order : List (String × String)
order = ("KONG_DATABASE", "off") ∷ []

abbrev operator : String
operator = "konghq.com/gateway-operator"

abbrev gateway_in : {A : Type 0} → Result (Gateway × A) → Gateway
gateway_in (ok r) = r.0
gateway_in (err e) = gateway

abbrev found_in : {A B : Type 0} → A → Result (B × Option A) → A
found_in a (ok (_, some b)) = b
found_in a (ok (_, none)) = a
found_in a (err e) = a

abbrev to_answer : {A : Type 0} → A → Result A → A
to_answer a (ok b) = b
to_answer a (err e) = a

abbrev started : Gateway
started = init_ready 100 gateway

abbrev classed : Trace
classed =
    (verify_gateway_class_support complete operator started
      (Calls.get_gateway complete request_name []).1).1

abbrev scheduled : Result Gateway × Trace
scheduled = schedule complete operator order started classed

abbrev picked_up : Gateway
picked_up = to_answer gateway scheduled.0

abbrev configured : Trace
configured = (get_or_create_gateway_configuration complete operator class scheduled.1).1

admitted : Admitted complete operator order request_name [] configured
unfolding verify_gateway_class_support schedule get_or_create_gateway_configuration init_ready
    request attempt pure ◌>>=◌ read is_valid_condition_in set_condition_in
admitted = record {
  fetched = gateway;
  gateway = picked_up;
  class = class;
  config = configuration;
  found = (Calls.get_gateway complete request_name []).1;
  classed = classed;
  marked = scheduled.1;
  has_gateway = refl;
  has_class = refl;
  is_scheduled = refl;
  has_configuration = refl;
}

abbrev data_step : Result (Gateway × Option DataPlane) × Trace
data_step = provision_data_plane complete order picked_up configuration configured

abbrev served_plane : DataPlane
served_plane = found_in ready_plane data_step.0

abbrev told : Gateway
told = gateway_in data_step.0

abbrev served : Trace
served = (service_of complete served_plane data_step.1).1

abbrev control_step : Result (Gateway × Option ControlPlane) × Trace
control_step = provision_control_plane complete class told configuration served_plane exposed served

abbrev controlling : ControlPlane
controlling = found_in ready_control_plane control_step.0

abbrev marked : Gateway
marked = gateway_in control_step.0

abbrev secured : Trace
secured =
    (ensure_data_plane_has_network_policy complete marked served_plane controlling control_step.1).1

found : Found complete operator order class picked_up configuration configured secured
unfolding generated_service same_entries insert insert_all lookup contained schedule init_ready
    request attempt lift pure ◌>>=◌ read is_valid_condition_in set_condition_in provision_data_plane
    provision_control_plane service_of ensure_data_plane_has_network_policy is_owned_by_ref_uid
found = record {
  told = told;
  marked = marked;
  data_plane = served_plane;
  control_plane = controlling;
  service = exposed;
  provisioned = data_step.1;
  served = served;
  controlled = control_step.1;
  has_data_plane = refl;
  data_plane_ready = refl;
  has_service = refl;
  has_control_plane = refl;
  control_plane_ready = refl;
  has_policy = refl;
}

abbrev addresses : List String
addresses = "10.0.0.1" ∷ []

abbrev seen : Trace
seen = (service_of complete served_plane secured).1

cluster_ip_set : exposed.cluster_ip ≢ ""
cluster_ip_set e = ground (arith, eq_iff "10.0.0.1" "", e)

service_seen : service_of complete served_plane secured ≡ (ok exposed, seen)
unfolding generated_service schedule init_ready request attempt pure ◌>>=◌ read
    is_valid_condition_in set_condition_in provision_data_plane service_of is_owned_by_ref_uid
service_seen = refl

reconcile_completes_example :
    Extends
      (reconcile complete operator order request_name []).1
      (Call.update_status_gateway (made_ready complete marked addresses seen) ∷ seen)
    × ((is_ready (made_ready complete marked addresses seen) ≡ true) ↔ OthersTrue marked.conditions)
unfolding admitted found
reconcile_completes_example =
    reconcile_completes complete operator order request_name [] configured secured seen admitted
      found exposed addresses service_seen (cluster_ip_set, refl)
