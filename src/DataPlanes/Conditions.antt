-- ===== src/DataPlanes/Conditions.antt =====
-- controllers/dataplane_controller_reconciler_utils.go and dataplane_controller_conditions.go: the
-- conditions in the status of a data plane.
pub mod NotProvisioned
mod Tests
use gateway_operator.Prelude.{
  ℕ, String, Bool, true, false, not, ◌&&◌, ◌||◌, Option, none, some, List, [], ◌∷◌, ◌++◌, ◌==◌,
  string_eq, if◌then◌else◌, any_of,
}
use gateway_operator.Errors.{Result, ok, err, is_not_found}
use gateway_operator.Api.Meta.{Condition, NamespacedName, empty_meta}
use gateway_operator.Api.Resources.{DataPlane, empty_options}
use gateway_operator.Status.{
  data_plane_conditions, condition_true, condition_false, new_condition, set_condition,
  get_condition, set_ready, needs_update,
}
use gateway_operator.Client.{Client, M, pure, raise, lift, read, attempt, ◌>>=◌}
use gateway_operator.Client.Calls

abbrev pub provisioned_type : String
provisioned_type = "Provisioned"

abbrev pub pods_not_ready_reason : String
pods_not_ready_reason = "PodsNotReady"

abbrev pub pods_ready_reason : String
pods_ready_reason = "PodsReady"

abbrev pub validation_failed_reason : String
validation_failed_reason = "ValidationFailed"

-- ensureIsMarkedScheduled: the data plane, and whether it was marked now.
unfoldable pub ensure_is_marked_scheduled : ℕ → DataPlane → DataPlane × Bool
unfolding get_condition set_condition new_condition
ensure_is_marked_scheduled now d = elim (get_condition provisioned_type d) [
  | none ↦ (
    set_condition
        (new_condition now provisioned_type condition_false pods_not_ready_reason
          "DataPlane resource is scheduled for provisioning")
        d,
    true,
  )
  | some _ ↦ (d, false)
]

unfoldable pub ensure_is_marked_provisioned : ℕ → DataPlane → DataPlane
unfolding set_condition new_condition set_ready
ensure_is_marked_provisioned now d = set_ready now (
    set_condition
      (new_condition now provisioned_type condition_true pods_ready_reason
        "pods for all Deployments are ready")
      d)

unfoldable pub is_same_data_plane_condition : Condition → Condition → Bool
is_same_data_plane_condition a b =
    a.type == b.type && a.status == b.status && a.reason == b.reason && a.message == b.message

-- One condition in the loop of ensureDataPlaneIsMarkedNotProvisioned.
unfoldable pub replace_condition : Condition → Condition → Condition
unfolding is_same_data_plane_condition
replace_condition new c =
    if c.type == provisioned_type && not (is_same_data_plane_condition new c) then new else c

-- The loop: the slice, whether a condition of the type was found, and whether one was replaced.
unfoldable pub replace_conditions : Condition → List Condition → List Condition × Bool × Bool
unfolding is_same_data_plane_condition replace_condition
replace_conditions new [] = ([], false, false)
replace_conditions new (c ∷ cs) =
    let (cs', found, changed) = replace_conditions new cs in
    (
      replace_condition new c ∷ cs',
      c.type == provisioned_type || found,
      (c.type == provisioned_type && not (is_same_data_plane_condition new c)) || changed,
    )

-- The conditions afterwards, and whether the status has to be written.
unfoldable pub not_provisioned_conditions : Condition → List Condition → List Condition × Bool
unfolding replace_conditions
not_provisioned_conditions new cs =
    let (cs', found, changed) = replace_conditions new cs in
    (if found then cs' else cs' ++ new ∷ [], changed || not found)

abbrev pub not_provisioned_condition : DataPlane → ℕ → String → String → Condition
not_provisioned_condition d now reason message = record {
  type = provisioned_type;
  status = condition_false;
  reason = reason;
  message = message;
  observed_generation = d.metadata.generation;
  last_transition_time = now;
}

abbrev empty_data_plane : DataPlane
empty_data_plane = record {
  metadata = empty_meta;
  spec = empty_options;
  conditions = [];
  service = "";
}

module _ (c : Client) where
  unfoldable pub ensure_data_plane_is_marked_not_provisioned :
      DataPlane → String → String → M (Unit {0})
  unfolding not_provisioned_conditions
  ensure_data_plane_is_marked_not_provisioned d reason message = do
    now ← read c.now
    let (conditions, should_update) =
        not_provisioned_conditions (not_provisioned_condition d now reason message) d.conditions
    if should_update
        then Calls.update_status_data_plane c (record d { conditions = conditions })
        else pure tt

  unfoldable pub ensure_data_plane_service_status : DataPlane → String → M (Unit {0})
  ensure_data_plane_service_status d service_name =
      Calls.update_status_data_plane c (record d { service = service_name })

  -- The resource that a read has left: an empty one if there is none.
  unfoldable pub or_empty : Result DataPlane → M DataPlane
  or_empty (ok d) = pure d
  or_empty (err e) = if is_not_found e then pure empty_data_plane else raise e

  unfoldable pub update_status : DataPlane → M (Unit {0})
  unfolding needs_update or_empty
  update_status updated = do
    r ← attempt (
        Calls.get_data_plane c
          (record { namespace = updated.metadata.namespace; name = updated.metadata.name }))
    current ← or_empty r
    if needs_update current updated then Calls.update_status_data_plane c updated else pure tt
