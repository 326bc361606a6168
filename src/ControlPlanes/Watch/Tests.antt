-- ===== src/ControlPlanes/Watch/Tests.antt =====
-- A ClusterRole that a listed control plane owns.
use gateway_operator.Prelude.{◌≡◌, ◌↔◌, refl, true, none, [], ◌∷◌, List}
use gateway_operator.Errors.{ok}
use gateway_operator.Api.Meta.{NamespacedName, empty_meta}
use gateway_operator.Api.Resources.{ControlPlane, empty_options, control_plane_object}
use gateway_operator.Api.Workloads.{ClusterRole}
use gateway_operator.Metadata.{set_owner_for_object}
use gateway_operator.Client.{Client}
use gateway_operator.ControlPlanes.Watch.{
  cluster_role_has_controlplane_owner, get_controlplane_for_cluster_role,
}
use gateway_operator.ControlPlanes.Watch.Agreement.{IsRequest, role_watch_agrees}
use gateway_operator.Samples.{offline}

abbrev plane : ControlPlane
plane = record {
  metadata = record empty_meta { name = "cp"; namespace = "default"; uid = "c1" };
  spec = record { deployment = empty_options; data_plane = none };
  gateway_class = none;
  ingress_class = none;
  conditions = [];
}

abbrev role : ClusterRole
role = record {
  metadata = set_owner_for_object (record empty_meta { name = "role" }) plane;
  rules = [];
}

abbrev cluster : Client
cluster = record offline { all_control_planes = λ t. ok (plane ∷ []) }

role_watch_agrees_example : ((cluster_role_has_controlplane_owner cluster role []).0 ≡ ok true) ↔ (
    (requests : List NamespacedName) × ((get_controlplane_for_cluster_role cluster role []).0
      ≡ ok requests)
    × IsRequest role.metadata (plane ∷ []) requests)
role_watch_agrees_example = role_watch_agrees cluster role (plane ∷ []) [] refl
