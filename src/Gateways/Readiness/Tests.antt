-- ===== src/Gateways/Readiness/Tests.antt =====
-- A gateway whose Service has an address in the cluster.
use gateway_operator.Prelude.{◌≡◌, refl, String, List, [], ◌∷◌}
use gateway_operator.Errors.{Err, ok, err}
use gateway_operator.Api.Workloads.{Service}
use gateway_operator.Client.{Client, Call, Trace, pure, request, ◌>>=◌}
use gateway_operator.DataPlanes.Owned.{generated_service}
use gateway_operator.Gateways.Readiness.{service_of, ensure_gateway_marked_ready}
use gateway_operator.Gateways.Readiness.Addresses.{HasAddresses, made_ready, marked_ready_lem}
use gateway_operator.Gateways.Samples.{cluster, gateway, ready_plane}
use gateway_operator.Status.{is_ready, is_valid_condition_in}
use gateway_operator.Lists.{owned_items}
use gateway_operator.Metadata.{is_owned_by_ref_uid}

abbrev exposed : Service
exposed = record (generated_service ready_plane) { cluster_ip = "10.0.0.1" }

abbrev exposing : Client
exposing = record cluster { services = λ t o. ok (exposed ∷ []) }

abbrev listed : Trace
listed = (service_of exposing ready_plane []).1

marked_ready_lem_example :
    ((addresses : List String)
      → HasAddresses exposed addresses
      → (ensure_gateway_marked_ready exposing gateway ready_plane []).1
        ≡ Call.update_status_gateway (made_ready exposing gateway addresses listed) ∷ listed)
    × (((addresses : List String) → HasAddresses exposed addresses → ⊥)
        → (e : Err) × (ensure_gateway_marked_ready exposing gateway ready_plane []
            ≡ (ok (gateway, err e), listed)))
unfolding service_of generated_service is_ready is_valid_condition_in ◌>>=◌ request pure owned_items
    is_owned_by_ref_uid
marked_ready_lem_example = marked_ready_lem exposing gateway ready_plane exposed [] listed refl refl
