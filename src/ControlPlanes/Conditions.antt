-- ===== src/ControlPlanes/Conditions.antt =====
-- controllers/controlplane_controller_reconciler_utils.go and controlplane_controller_conditions.go:
-- the conditions in the status of a control plane, and its environment when its data plane changes.
pub mod Laws
mod Tests
use gateway_operator.Prelude.{
  ℕ, String, Bool, true, false, not, ◌||◌, Option, none, some, [], ◌==◌, string_eq, if◌then◌else◌,
}
use gateway_operator.Errors.{Result, ok, err, is_not_found}
use gateway_operator.Api.Meta.{Condition, NamespacedName, empty_meta}
use gateway_operator.Api.Resources.{ControlPlane, ControlPlaneOptions, empty_options}
use gateway_operator.Status.{
  control_plane_conditions, condition_true, condition_false, new_condition, set_condition,
  get_condition, set_ready, needs_update,
}
use gateway_operator.DataPlanes.Conditions.{
  provisioned_type, pods_not_ready_reason, pods_ready_reason,
}
use gateway_operator.ControlPlanes.Env.{
  data_plane_is_set, set_control_plane_env_on_data_plane_change,
}
use gateway_operator.Client.{Client, M, pure, raise, attempt, ◌>>=◌, ◌>>◌}
use gateway_operator.Client.Calls

abbrev pub no_dataplane_reason : String
no_dataplane_reason = "NoDataplane"

-- ensureIsMarkedScheduled: the control plane, and whether it was marked now.
unfoldable pub ensure_is_marked_scheduled : ℕ → ControlPlane → ControlPlane × Bool
unfolding get_condition set_condition new_condition
ensure_is_marked_scheduled now p = elim (get_condition provisioned_type p) [
  | none ↦ (
    set_condition
        (new_condition now provisioned_type condition_false pods_not_ready_reason
          "ControlPlane resource is scheduled for provisioning")
        p,
    true,
  )
  | some _ ↦ (p, false)
]

unfoldable pub ensure_is_marked_provisioned : ℕ → ControlPlane → ControlPlane
unfolding set_condition new_condition set_ready
ensure_is_marked_provisioned now p = set_ready now (
    set_condition
      (new_condition now provisioned_type condition_true pods_ready_reason
        "pods for all Deployments are ready")
      p)

-- `newCondition` of ensureDataPlaneStatus.
unfoldable pub data_plane_condition : ℕ → Bool → Condition
unfolding new_condition
data_plane_condition now set =
    if set
    then new_condition now provisioned_type condition_false pods_not_ready_reason
        "DataPlane was set, ControlPlane resource is scheduled for provisioning"
    else new_condition now provisioned_type condition_false no_dataplane_reason
        "DataPlane is not set"

-- `!present || condition.Status != newCondition.Status || condition.Reason != newCondition.Reason`
unfoldable pub is_news : Option Condition → Condition → Bool
is_news none new = true
is_news (some c) new = not (c.status == new.status) || not (c.reason == new.reason)

-- ensureDataPlaneStatus: the control plane, and whether a data plane is set.
unfoldable pub ensure_data_plane_status : ℕ → ControlPlane → ControlPlane × Bool
unfolding get_condition set_condition data_plane_condition is_news
ensure_data_plane_status now p =
    let set = data_plane_is_set p.spec in
    let new = data_plane_condition now set in
    (if is_news (get_condition provisioned_type p) new then set_condition new p else p, set)

-- `&operatorv1alpha1.ControlPlane{}`
abbrev pub empty_control_plane : ControlPlane
empty_control_plane = record {
  metadata = empty_meta;
  spec = record { deployment = empty_options; data_plane = none };
  gateway_class = none;
  ingress_class = none;
  conditions = [];
}

module _ (c : Client) where
  -- ensureDataPlaneConfiguration: the control plane as the writes through the pointer leave it, the
  -- last of which is the one of the answer to the update.
  unfoldable pub ensure_data_plane_configuration : ControlPlane → String → M ControlPlane
  unfolding set_control_plane_env_on_data_plane_change
  ensure_data_plane_configuration p service_name =
      let (spec, changed) =
        set_control_plane_env_on_data_plane_change p.spec p.metadata.namespace service_name in
      if changed
      then Calls.update_control_plane c (record p { spec = spec })
      else pure (record p { spec = spec })

  -- The resource that a read has left: an empty one if there is none.
  unfoldable pub or_empty : Result ControlPlane → M ControlPlane
  or_empty (ok p) = pure p
  or_empty (err e) = if is_not_found e then pure empty_control_plane else raise e

  unfoldable pub update_status : ControlPlane → M (Unit {0})
  unfolding needs_update or_empty
  update_status updated = do
    r ← attempt (
        Calls.get_control_plane c
          (record { namespace = updated.metadata.namespace; name = updated.metadata.name }))
    current ← or_empty r
    if needs_update current updated then Calls.update_status_control_plane c updated else pure tt
