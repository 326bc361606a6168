-- ===== src/DataPlanes/Reconciler.antt =====
-- controllers/dataplane_controller.go: one reconciliation of a data plane. Events and logs are left
-- out; a read of the clock does not add to the calls.
pub mod Stages
pub mod Safety
pub mod Writes
pub mod Progress
mod Tests
use gateway_operator.Prelude.{
  ℕ, String, Bool, true, false, not, ◌&&◌, ◌||◌, List, [], ◌∷◌, ◌==◌, nat_eq, string_eq, ltb,
  if◌then◌else◌,
}
use gateway_operator.Errors.{Err, Result, ok, err, error_text, is_not_found, is_conflict}
use gateway_operator.Api.Meta.{NamespacedName}
use gateway_operator.Api.Resources.{DataPlane, DeploymentOptions}
use gateway_operator.Api.Workloads.{Deployment, Service, Secret}
use gateway_operator.Status.{data_plane_conditions, init_ready}
use gateway_operator.Validation.{validate}
use gateway_operator.Signing.{Crypto}
use gateway_operator.Outcomes.{Outcome, done, or_requeue}
use gateway_operator.DataPlanes.Defaults.{set_data_plane_defaults}
use gateway_operator.DataPlanes.Conditions.{
  ensure_is_marked_scheduled, ensure_is_marked_provisioned, ensure_data_plane_service_status,
  ensure_data_plane_is_marked_not_provisioned, update_status, validation_failed_reason,
}
use gateway_operator.DataPlanes.Owned.{
  ensure_service_for_data_plane, ensure_certificate, ensure_deployment_for_data_plane,
}
use gateway_operator.Client.{Client, M, pure, raise, lift, read, attempt, ◌>>=◌, ◌>>◌}
use gateway_operator.Client.Calls

abbrev is_empty : {A : Type 0} → List A → Bool
is_empty [] = true
is_empty (_ ∷ _) = false

-- The Deployment has pods, and all of them are available.
abbrev pub deployment_ready : Deployment → Bool
deployment_ready d = not (d.status_replicas == 0 || ltb d.available_replicas d.status_replicas)

-- DataPlaneReconciler: the client, the name of the CA's Secret, and what it calls outside of the
-- repository; `order` is the order in which Go ranges over the defaults.
module _ (c : Client) (crypto : Crypto) (ca_name : NamespacedName)
    (order : List (String × String)) where
  -- The Deployment is as wanted: mark the data plane once the pods are there.
  unfoldable pub finish : DataPlane → Deployment → M Outcome
  unfolding ensure_is_marked_provisioned update_status or_requeue
  finish d deployment =
      if deployment_ready deployment
      then (do
        now ← read c.now
        r ← attempt (update_status c (ensure_is_marked_provisioned now d))
        or_requeue r)
      else pure done

  -- The options have been validated.
  unfoldable pub provision : DataPlane → Service → M Outcome
  unfolding ensure_certificate ensure_deployment_for_data_plane finish
  provision d service = do
    (created, cert_secret) ← ensure_certificate c crypto ca_name d service.metadata.name
    if created then pure done else do
      (deployed, deployment) ← ensure_deployment_for_data_plane c d cert_secret.metadata.name
      if deployed then pure done else finish d deployment

  -- The verdict of the validation.
  unfoldable pub provision_if_valid : DataPlane → Service → Result (Unit {0}) → M Outcome
  unfolding provision ensure_data_plane_is_marked_not_provisioned
  provision_if_valid d service (ok _) = provision d service
  provision_if_valid d service (err e) = do
    ensure_data_plane_is_marked_not_provisioned c d validation_failed_reason (error_text e)
    pure done

  -- The Service has its address.
  unfoldable pub configure : DataPlane → Service → M Outcome
  unfolding provision_if_valid set_data_plane_defaults or_requeue validate
  configure d service =
      if is_empty d.spec.env && is_empty d.spec.env_from
      then (do
        r ←
            attempt
              (Calls.update_data_plane c (record d { spec = set_data_plane_defaults order d.spec }))
        or_requeue r)
      else (do verdict ← attempt (validate c d); provision_if_valid d service verdict)

  unfoldable pub expose : DataPlane → M Outcome
  unfolding ensure_service_for_data_plane configure ensure_data_plane_service_status
  expose d = do
    (created, service) ← ensure_service_for_data_plane c d
    if created
        then (do ensure_data_plane_service_status c d service.metadata.name; pure done)
        else if service.cluster_ip == ""
        then pure done
        else configure d service

  unfoldable pub reconcile_found : DataPlane → M Outcome
  unfolding expose init_ready ensure_is_marked_scheduled update_status
  reconcile_found fetched = do
    now ← read c.now
    let (d, marked) = ensure_is_marked_scheduled now (init_ready now fetched)
    if marked then (do update_status c d; pure done) else expose d

  unfoldable pub or_gone : Result DataPlane → M Outcome
  unfolding reconcile_found
  or_gone (ok d) = reconcile_found d
  or_gone (err e) = if is_not_found e then pure done else raise e

  unfoldable pub reconcile : NamespacedName → M Outcome
  unfolding or_gone
  reconcile name = do r ← attempt (Calls.get_data_plane c name); or_gone r
