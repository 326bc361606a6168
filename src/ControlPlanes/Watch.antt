-- ===== src/ControlPlanes/Watch.antt =====
-- controllers/controlplane_controller_watch.go: which events on cluster wide objects are let through,
-- and which control plane is reconciled after them. The functions for the two kinds of object assert
-- the type of the object, which is the one here, and look at its metadata only.
pub mod Agreement
mod Tests
use gateway_operator.Prelude.{Bool, true, false, List, [], ◌∷◌, any_of, if◌then◌else◌}
use gateway_operator.Errors.{Result, ok, err}
use gateway_operator.Api.Meta.{ObjectMeta, NamespacedName}
use gateway_operator.Api.Resources.{ControlPlane}
use gateway_operator.Api.Workloads.{ClusterRole, ClusterRoleBinding}
use gateway_operator.Metadata.{is_owned_by_ref_uid}
use gateway_operator.Client.{Client, M, pure, attempt, ◌>>=◌}
use gateway_operator.Client.Calls

abbrev pub owns : ObjectMeta → ControlPlane → Bool
owns m p = is_owned_by_ref_uid m p.metadata.uid

-- The loop of the predicate. An error lets the event through.
abbrev pub has_owner : ObjectMeta → Result (List ControlPlane) → Bool
has_owner m (ok ps) = any_of (owns m) ps
has_owner m (err e) = true

-- The loop of the map function, which returns at the first owner.
unfoldable pub first_owner : ObjectMeta → List ControlPlane → List NamespacedName
unfolding is_owned_by_ref_uid
first_owner m [] = []
first_owner m (p ∷ ps) =
    let rest = first_owner m ps in
    if owns m p
    then record { namespace = p.metadata.namespace; name = p.metadata.name } ∷ []
    else rest

abbrev pub owner_requests : ObjectMeta → Result (List ControlPlane) → List NamespacedName
owner_requests m (ok ps) = first_owner m ps
owner_requests m (err e) = []

module _ (c : Client) where
  unfoldable pub obj_has_controlplane_owner : ObjectMeta → M Bool
  unfolding is_owned_by_ref_uid
  obj_has_controlplane_owner m = do
    r ← attempt (Calls.list_all_control_planes c)
    pure (has_owner m r)

  unfoldable pub get_controlplane_request_from_ref_uid : ObjectMeta → M (List NamespacedName)
  unfolding first_owner
  get_controlplane_request_from_ref_uid m = do
    r ← attempt (Calls.list_all_control_planes c)
    pure (owner_requests m r)

  unfoldable pub cluster_role_has_controlplane_owner : ClusterRole → M Bool
  unfolding obj_has_controlplane_owner
  cluster_role_has_controlplane_owner x = obj_has_controlplane_owner x.metadata

  unfoldable pub cluster_role_binding_has_controlplane_owner : ClusterRoleBinding → M Bool
  unfolding obj_has_controlplane_owner
  cluster_role_binding_has_controlplane_owner x = obj_has_controlplane_owner x.metadata

  unfoldable pub get_controlplane_for_cluster_role : ClusterRole → M (List NamespacedName)
  unfolding get_controlplane_request_from_ref_uid
  get_controlplane_for_cluster_role x = get_controlplane_request_from_ref_uid x.metadata

  unfoldable pub get_controlplane_for_cluster_role_binding :
      ClusterRoleBinding → M (List NamespacedName)
  unfolding get_controlplane_request_from_ref_uid
  get_controlplane_for_cluster_role_binding x = get_controlplane_request_from_ref_uid x.metadata
