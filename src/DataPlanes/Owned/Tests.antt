-- ===== src/DataPlanes/Owned/Tests.antt =====
-- The containers of a pod whose proxy was edited.
use gateway_operator.Prelude.{refl, [], ◌∷◌}
use gateway_operator.Api.Workloads.{PodSpec}
use gateway_operator.Api.Resources.{DataPlane}
use gateway_operator.DataPlanes.Generators.{proxy_container}
use gateway_operator.DataPlanes.Owned.{refreshed_containers}
use gateway_operator.DataPlanes.Owned.Deployments.{RunsOptions, refreshed_containers-RunsOptions}
use gateway_operator.Samples.{data_plane, off_options, literal}

abbrev plane : DataPlane
plane = data_plane off_options

abbrev edited : PodSpec
edited = record {
  service_account_name = "";
  volumes = [];
  containers =
      record (proxy_container plane) { env = literal "KONG_DATABASE" "postgres" ∷ [] } ∷ [];
}

refreshed_containers-RunsOptions_example :
    RunsOptions plane (refreshed_containers plane (proxy_container plane ∷ []) edited).0
unfolding proxy_container
refreshed_containers-RunsOptions_example =
    refreshed_containers-RunsOptions plane (proxy_container plane ∷ []) edited
      (proxy_container plane) refl

abbrev current : PodSpec
current = record edited { containers = proxy_container plane ∷ [] }
