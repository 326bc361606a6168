-- ===== src/ControlPlanes/Cleanup.antt =====
-- controllers/controlplane_controller.go and controlplane_controller_reconciler_utils.go: what a
-- reconciliation does with a control plane that is being deleted.
pub mod Order
pub mod Deletes
pub mod Steps
mod Tests
use gateway_operator.Prelude.{
  ℕ, ◌-◌, String, Bool, true, false, Option, none, some, List, [], ◌∷◌, ◌++◌, ltb, if◌then◌else◌,
}
use gateway_operator.Errors.{Err, Result, ok, err, is_not_found}
use gateway_operator.Api.Resources.{ControlPlane}
use gateway_operator.Api.Workloads.{ClusterRole, ClusterRoleBinding}
use gateway_operator.Metadata.{
  remove_finalizer_in_metadata, gateway_operator_controlled_label,
  control_plane_managed_label_value,
}
use gateway_operator.Lists.{list_cluster_roles_for_owner, list_cluster_role_bindings_for_owner}
use gateway_operator.Outcomes.{Outcome, done, requeue_after}
use gateway_operator.Client.{Client, M, pure, raise, read, attempt, ◌>>=◌, ◌>>◌}
use gateway_operator.Client.Calls

abbrev pub cleanup_cluster_role : String
cleanup_cluster_role = "gateway-operator.konghq.com/cleanup-clusterrole"

abbrev pub cleanup_cluster_role_binding : String
cleanup_cluster_role_binding = "gateway-operator.konghq.com/cleanup-clusterrolebinding"

-- `if err != nil && !k8serrors.IsNotFound(err) { … multierror.Append(…) }`
abbrev pub deletion_errors : Result (Unit {0}) → List Err
deletion_errors (ok _) = []
deletion_errors (err e) = if is_not_found e then [] else e ∷ []

-- The loop over the objects: every one is deleted, and the errors are kept.
unfoldable pub delete_each : {A : Type 0} → (A → M (Unit {0})) → List A → M (List Err)
delete_each delete [] = pure []
delete_each delete (x ∷ xs) = do
  r ← attempt (delete x)
  errors ← delete_each delete xs
  pure (deletion_errors r ++ errors)

-- The client, and what multierror makes of several errors.
module _ (c : Client) (combine : List Err → Err) where
  -- deletionErr.ErrorOrNil()
  unfoldable pub error_or_nil : List Err → M (Unit {0})
  error_or_nil [] = pure tt
  error_or_nil (e ∷ es) = raise (combine (e ∷ es))

  unfoldable pub ensure_owned_cluster_roles_deleted : ControlPlane → M (Unit {0})
  unfolding delete_each error_or_nil
  ensure_owned_cluster_roles_deleted p = do
    roles ←
        list_cluster_roles_for_owner c gateway_operator_controlled_label
          control_plane_managed_label_value p.metadata.uid
    errors ← delete_each (Calls.delete_cluster_role c) roles
    error_or_nil errors

  unfoldable pub ensure_owned_cluster_role_bindings_deleted : ControlPlane → M (Unit {0})
  unfolding delete_each error_or_nil
  ensure_owned_cluster_role_bindings_deleted p = do
    bindings ←
        list_cluster_role_bindings_for_owner c gateway_operator_controlled_label
          control_plane_managed_label_value p.metadata.uid
    errors ← delete_each (Calls.delete_cluster_role_binding c) bindings
    error_or_nil errors

  -- `if RemoveFinalizerInMetadata(…) { return Update(…) }`, and what follows it.
  unfoldable pub without_finalizer : String → ControlPlane → M Outcome → M Outcome
  unfolding remove_finalizer_in_metadata
  without_finalizer finalizer p next =
      let (meta, changed) = remove_finalizer_in_metadata p.metadata finalizer in
      if changed
      then (do Calls.update_control_plane c (record p { metadata = meta }); pure done)
      else next

  -- The bindings are gone, and so is their finalizer.
  unfoldable pub clean_roles : ControlPlane → M Outcome
  unfolding ensure_owned_cluster_roles_deleted without_finalizer
  clean_roles p = do
    ensure_owned_cluster_roles_deleted p
    without_finalizer cleanup_cluster_role p (pure done)

  -- The grace period is over.
  unfoldable pub clean : ControlPlane → M Outcome
  unfolding ensure_owned_cluster_role_bindings_deleted without_finalizer clean_roles
  clean p = do
    ensure_owned_cluster_role_bindings_deleted p
    without_finalizer cleanup_cluster_role_binding p (clean_roles p)

  -- The branch of a control plane with a deletion timestamp.
  unfoldable pub reconcile_deleted : ControlPlane → ℕ → M Outcome
  unfolding clean
  reconcile_deleted p timestamp = do
    now ← read c.now
    if ltb now timestamp then pure (requeue_after (timestamp - now)) else clean p
