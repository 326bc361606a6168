-- ===== src/Gateways/Tests.antt =====
-- The Service of a data plane among those that a server lists.
use gateway_operator.Prelude.{◌≡◌, ◌↔◌, refl, [], ◌∷◌}
use gateway_operator.Errors.{ok}
use gateway_operator.Api.Workloads.{Service}
use gateway_operator.Api.Resources.{DataPlane}
use gateway_operator.Client.{Client}
use gateway_operator.DataPlanes.Owned.{generated_service}
use gateway_operator.Gateways.{get_data_plane_service_name}
use gateway_operator.Gateways.ServiceName.{owned, service_name_iff}
use gateway_operator.Samples.{offline, data_plane, off_options}

abbrev plane : DataPlane
plane = data_plane off_options

abbrev listing : Client
listing = record offline { services = λ t o. ok (generated_service plane ∷ []) }

service_name_iff_example : ((get_data_plane_service_name listing plane []).0 ≡ ok "") ↔ (
    (s : Service) × (owned listing plane (generated_service plane ∷ []) ≡ s ∷ [])
    × (s.metadata.name ≡ ""))
service_name_iff_example = service_name_iff listing plane [] (generated_service plane ∷ []) "" refl
