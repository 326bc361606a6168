-- ===== src/ControlPlanes/Conditions/Tests.antt =====
-- A control plane whose data plane has been taken away.
use gateway_operator.Prelude.{String, ◌≡◌, ◌≢◌, refl, true, [], ◌∷◌}
use gateway_operator.Errors.{ok}
use gateway_operator.Api.Meta.{NamespacedName, empty_meta}
use gateway_operator.Api.Resources.{ControlPlane}
use gateway_operator.Status.{
  control_plane_conditions, condition_true, get_condition, new_condition, is_ready,
  is_valid_condition_in, needs_update_in, ready_condition, set_condition_in,
}
use gateway_operator.DataPlanes.Conditions.{provisioned_type, pods_ready_reason}
use gateway_operator.Client.{Client, Call, pure, request, attempt, ◌>>=◌}
use gateway_operator.ControlPlanes.Env.{data_plane_is_set}
use gateway_operator.ControlPlanes.Conditions.{
  empty_control_plane, ensure_data_plane_status, ensure_is_marked_provisioned, update_status,
}
use gateway_operator.ControlPlanes.Conditions.Laws.{Says, data_plane_status_lem}
use gateway_operator.Samples.{offline}

abbrev orphan : ControlPlane
orphan = record empty_control_plane {
  metadata = record empty_meta { name = "cp"; namespace = "default"; uid = "u2" };
  conditions = new_condition 5 provisioned_type condition_true pods_ready_reason "ready" ∷ [];
}

data_plane_status_lem_example :
    let (after, set) = ensure_data_plane_status 7 orphan in
    (set ≡ data_plane_is_set orphan.spec)
    × Says set (get_condition provisioned_type after)
    × ((t : String) → t ≢ provisioned_type → get_condition t after ≡ get_condition t orphan)
    × (after.metadata ≡ orphan.metadata)
    × (after.spec ≡ orphan.spec)
data_plane_status_lem_example = data_plane_status_lem 7 orphan

-- A control plane is ready once its pods are.
ready_after_pods : is_ready (ensure_is_marked_provisioned 7 orphan) ≡ true
unfolding is_ready ensure_is_marked_provisioned is_valid_condition_in set_condition_in
    ready_condition
ready_after_pods = refl

abbrev stored : Client
stored = record offline { control_plane_at = λ t n. ok orphan }

abbrev name : NamespacedName
name = record { namespace = "default"; name = "cp" }

-- A status that is stored already is not written.
stored_status : (update_status stored orphan []).1 ≡ Call.get_control_plane name ∷ []
unfolding update_status ◌>>=◌ attempt request pure needs_update_in new_condition
stored_status = refl
