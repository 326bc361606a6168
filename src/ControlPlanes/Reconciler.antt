-- ===== src/ControlPlanes/Reconciler.antt =====
-- controllers/controlplane_controller.go: one reconciliation of a control plane, one definition for
-- each stage. Logs are left out; a read of the clock does not add to the calls.
pub mod Safety
pub mod Reads
pub mod Writes
pub mod Deletion
pub mod Connected
pub mod Stages
pub mod Progress
mod Tests
use gateway_operator.Prelude.{String, Bool, none, some, List, [], ◌∷◌, if◌then◌else◌}
use gateway_operator.Errors.{Err, Result, ok, err, is_not_found, is_conflict, is_data_plane_not_set}
use gateway_operator.Api.Meta.{NamespacedName}
use gateway_operator.Api.Resources.{DataPlane, ControlPlane}
use gateway_operator.Api.Workloads.{Deployment, ServiceAccount}
use gateway_operator.Status.{control_plane_conditions, init_ready}
use gateway_operator.Metadata.{ensure_finalizers_in_metadata}
use gateway_operator.Signing.{Crypto}
use gateway_operator.Outcomes.{Outcome, done, requeue_without_backoff, or_requeue}
use gateway_operator.DataPlanes.Reconciler.{deployment_ready}
use gateway_operator.Gateways.{get_data_plane_for_control_plane, get_data_plane_service_name}
use gateway_operator.ControlPlanes.Env.{set_control_plane_defaults}
use gateway_operator.ControlPlanes.Conditions.{
  ensure_is_marked_scheduled, ensure_is_marked_provisioned, ensure_data_plane_status,
  ensure_data_plane_configuration, update_status,
}
use gateway_operator.ControlPlanes.Owned.{
  ensure_deployment_for_control_plane, ensure_service_account_for_control_plane,
  ensure_cluster_role_binding_for_control_plane, ensure_certificate,
}
use gateway_operator.ControlPlanes.Roles.{Semver, ensure_cluster_role_for_control_plane}
use gateway_operator.ControlPlanes.Cleanup.{
  reconcile_deleted, cleanup_cluster_role, cleanup_cluster_role_binding,
}
use gateway_operator.Client.{Client, M, pure, raise, lift, read, attempt, ◌>>=◌, ◌>>◌}
use gateway_operator.Client.Calls

-- What the controller calls outside of the repository.
pub record Outside : Type 1 where
  pub crypto : Crypto
  pub semver : Semver
  -- controllerutil.SetOwnerReference
  pub set_owner_reference : ControlPlane → DataPlane → Result DataPlane
  -- what multierror makes of several errors
  pub combine : List Err → Err

-- ControlPlaneReconciler: the client, the name of the CA's Secret, and what it calls outside.
module _ (c : Client) (ca_name : NamespacedName) (o : Outside) where
  -- The Deployment is as wanted: mark the control plane once the pods are there.
  unfoldable pub finish : ControlPlane → Deployment → M Outcome
  unfolding ensure_is_marked_provisioned update_status or_requeue
  finish p deployment =
      if deployment_ready deployment
      then (do
        now ← read c.now
        r ← attempt (update_status c (ensure_is_marked_provisioned now p))
        or_requeue r)
      else pure done

  -- The account has its role; `set` says whether a data plane is set.
  unfoldable pub deploy : ControlPlane → Bool → ServiceAccount → M Outcome
  unfolding ensure_certificate ensure_deployment_for_control_plane update_status finish
  deploy p set account = do
    (created, cert_secret) ← ensure_certificate c o.crypto ca_name p
    if created then pure done else do
      (written, deployment) ←
          ensure_deployment_for_control_plane c p account.metadata.name cert_secret.metadata.name
      if written
          then (if set then pure done else do update_status c p; pure done)
          else finish p deployment

  unfoldable pub authorize : ControlPlane → Bool → M Outcome
  unfolding ensure_service_account_for_control_plane ensure_cluster_role_for_control_plane
      ensure_cluster_role_binding_for_control_plane deploy
  authorize p set = do
    (account_written, account) ← ensure_service_account_for_control_plane c p
    if account_written then pure done else do
      (role_written, role) ← ensure_cluster_role_for_control_plane c o.semver p
      if role_written then pure done else do
        (binding_written, _) ←
            ensure_cluster_role_binding_for_control_plane c p account.metadata.name
              role.metadata.name
        if binding_written then pure done else deploy p set account

  -- The configuration for the data plane, or the error of its write.
  unfoldable pub aligned : Result ControlPlane → M Outcome
  unfolding ensure_data_plane_status authorize is_conflict
  aligned (ok p) = do
    now ← read c.now
    let (q, set) = ensure_data_plane_status now p
    authorize q set
  aligned (err e) = if is_conflict e then pure requeue_without_backoff else raise e

  unfoldable pub configure : ControlPlane → String → M Outcome
  unfolding set_control_plane_defaults or_requeue ensure_data_plane_configuration aligned
  configure p service_name =
      let (spec, changed) =
        set_control_plane_defaults p.spec p.metadata.namespace service_name [] in
      if changed
      then (do r ← attempt (Calls.update_control_plane c (record p { spec = spec })); or_requeue r)
      else (do
        r ← attempt (ensure_data_plane_configuration c (record p { spec = spec }) service_name)
        aligned r)

  -- The name of the Service of the data plane, which is empty if no data plane is set.
  unfoldable pub connected_service : ControlPlane → Result DataPlane → M String
  unfolding get_data_plane_service_name is_data_plane_not_set
  connected_service p (ok d) = do
    owned ← lift (o.set_owner_reference p d)
    get_data_plane_service_name c owned
  connected_service p (err e) = if is_data_plane_not_set e then pure "" else raise e

  unfoldable pub connect : ControlPlane → M Outcome
  unfolding get_data_plane_for_control_plane connected_service configure
  connect p = do
    r ← attempt (get_data_plane_for_control_plane c p)
    service_name ← connected_service p r
    configure p service_name

  -- The control plane is not being deleted.
  unfoldable pub maintain : ControlPlane → M Outcome
  unfolding ensure_finalizers_in_metadata init_ready ensure_is_marked_scheduled update_status
      connect
  maintain fetched =
      let (meta, changed) =
        ensure_finalizers_in_metadata fetched.metadata
          (cleanup_cluster_role ∷ cleanup_cluster_role_binding ∷ []) in
      if changed
      then (do Calls.update_control_plane c (record fetched { metadata = meta }); pure done)
      else (do
        now ← read c.now
        let (p, marked) =
            ensure_is_marked_scheduled now (init_ready now (record fetched { metadata = meta }))
        if marked then (do update_status c p; pure done) else connect p)

  unfoldable pub or_gone : Result ControlPlane → M Outcome
  unfolding reconcile_deleted maintain
  or_gone (ok p) = elim p.metadata.deletion_timestamp [
    | none ↦ maintain p
    | some timestamp ↦ reconcile_deleted c o.combine p timestamp
  ]
  or_gone (err e) = if is_not_found e then pure done else raise e

  unfoldable pub reconcile : NamespacedName → M Outcome
  unfolding or_gone
  reconcile name = do r ← attempt (Calls.get_control_plane c name); or_gone r
