-- ===== src/DataPlanes/Reconciler/Progress.antt =====
-- A reconciliation of a data plane that finds everything in place.
use gateway_operator.Prelude.{
  ℕ, String, ◌≡◌, ◌≢◌, ◌↔◌, refl, ap, ◌∙◌, true, false, ◌&&◌, some, List, ◌∷◌, if◌then◌else◌, ◌==◌,
  string_eq, Bool-cases, inl, inr, eq_iff, arith,
}
use gateway_operator.Errors.{Result, ok}
use gateway_operator.Api.Meta.{NamespacedName, Condition}
use gateway_operator.Api.Resources.{DataPlane}
use gateway_operator.Api.Workloads.{Deployment, Secret, Service}
use gateway_operator.Status.{
  is_ready, data_plane_conditions, needs_update, new_condition, set_condition, get_condition,
  init_ready, set_ready, condition_true, get_condition_in, ready_type,
}
use gateway_operator.Status.Completed.{OthersTrueBut, is_ready-completed, get-completed}
use gateway_operator.Status.Conditions.{init_ready_lem}
use gateway_operator.Validation.{validate}
use gateway_operator.Signing.{Crypto}
use gateway_operator.Outcomes.{Outcome, or_requeue, or_requeue-trace}
use gateway_operator.DataPlanes.Conditions.{
  provisioned_type, pods_ready_reason, ensure_is_marked_scheduled, ensure_is_marked_provisioned,
  update_status, or_empty,
}
use gateway_operator.DataPlanes.Owned.{
  ensure_certificate, ensure_deployment_for_data_plane, ensure_service_for_data_plane,
}
use gateway_operator.DataPlanes.Reconciler.{
  reconcile, or_gone, reconcile_found, expose, configure, provision_if_valid, provision, finish,
  deployment_ready, is_empty,
}
use gateway_operator.Client.{Client, Call, Trace, attempt, read, request, pure, continue, ◌>>=◌}
use gateway_operator.Client.Monad.{bind_run, attempt_run, read_run}
use gateway_operator.Client.Calls

-- The condition of a data plane whose pods are there.
abbrev provisioned : ℕ → Condition
provisioned now =
    new_condition now provisioned_type condition_true pods_ready_reason
      "pods for all Deployments are ready"

module _ (c : Client) (crypto : Crypto) (ca_name : NamespacedName)
    (order : List (String × String)) where
  -- A run that finds the data plane marked as scheduled by an earlier run, its Service with an
  -- address, options that the validation accepts, its certificate and its Deployment as wanted, and
  -- pods that are all available.
  pub record InPlace (asked : NamespacedName) (t u : Trace) : Type 0 where
    pub fetched : DataPlane
    pub mark : Condition
    pub service : Service
    pub secret : Secret
    pub deployment : Deployment
    pub found : Trace
    pub served : Trace
    pub checked : Trace
    pub secrets : Trace
    pub has_data_plane : Calls.get_data_plane c asked t ≡ (ok fetched, found)
    pub is_marked : get_condition provisioned_type fetched ≡ some mark
    pub has_service :
        ensure_service_for_data_plane c (init_ready (c.now found) fetched) found
        ≡ (ok (false, service), served)
    pub has_address : service.cluster_ip ≢ ""
    pub is_configured : (is_empty fetched.spec.env && is_empty fetched.spec.env_from) ≡ false
    pub is_accepted : validate c (init_ready (c.now found) fetched) served ≡ (ok tt, checked)
    pub has_secret :
        ensure_certificate c crypto ca_name
          (init_ready (c.now found) fetched)
          service.metadata.name
          checked
        ≡ (ok (false, secret), secrets)
    pub has_deployment :
        ensure_deployment_for_data_plane c
          (init_ready (c.now found) fetched)
          secret.metadata.name
          secrets
        ≡ (ok (false, deployment), u)
    pub is_available : deployment_ready deployment ≡ true

  abbrev pub name_of : DataPlane → NamespacedName
  name_of d = record { namespace = d.metadata.namespace; name = d.metadata.name }

  -- The data plane as it is written after the calls `u`.
  marked : {asked : NamespacedName} {t u : Trace} → InPlace asked t u → DataPlane
  marked {u = u} p = ensure_is_marked_provisioned (c.now u) (init_ready (c.now p.found) p.fetched)

  finish_run :
      (d : DataPlane) (deployment : Deployment) (t : Trace)
      → deployment_ready deployment ≡ true
      → finish c crypto ca_name order d deployment t
        ≡ (attempt (update_status c (ensure_is_marked_provisioned (c.now t) d)) >>= or_requeue) t
  unfolding finish read ◌>>=◌ continue
  finish_run d deployment t h = rw h refl

  provision_run :
      (d : DataPlane) (service : Service) (secret : Secret) (deployment : Deployment)
      (t secrets u : Trace)
      → ensure_certificate c crypto ca_name d service.metadata.name t
        ≡ (ok (false, secret), secrets)
      → ensure_deployment_for_data_plane c d secret.metadata.name secrets
        ≡ (ok (false, deployment), u)
      → deployment_ready deployment ≡ true
      → provision c crypto ca_name order d service t
        ≡ (attempt (update_status c (ensure_is_marked_provisioned (c.now u) d)) >>= or_requeue) u
  unfolding provision
  provision_run d service secret deployment t secrets u has_secret has_deployment ready =
      bind_run _ _ has_secret (bind_run _ _ has_deployment (finish_run d deployment u ready))

  configure_run :
      (d : DataPlane) (service : Service) (t u : Trace)
      → (is_empty d.spec.env && is_empty d.spec.env_from) ≡ false
      → validate c d t ≡ (ok tt, u)
      → configure c crypto ca_name order d service t ≡ provision c crypto ca_name order d service u
  unfolding configure provision_if_valid
  configure_run d service t u configured accepted =
      rw configured (bind_run _ _ (attempt_run _ accepted) refl)

  pub expose_run :
      (d : DataPlane) (service : Service) (t u : Trace)
      → ensure_service_for_data_plane c d t ≡ (ok (false, service), u)
      → service.cluster_ip ≢ ""
      → expose c crypto ca_name order d t ≡ configure c crypto ca_name order d service u
  unfolding expose
  expose_run d service t u served address =
      bind_run _ _ served (elim (Bool-cases (service.cluster_ip == "")) [
        | inl empty ↦ absurd (address ((eq_iff service.cluster_ip "").0 empty))
        | inr full ↦ rw full refl
      ])

  scheduled_kept :
      (now : ℕ) (d : DataPlane) (mark : Condition)
      → get_condition provisioned_type d ≡ some mark
      → ensure_is_marked_scheduled now d ≡ (d, false)
  unfolding ensure_is_marked_scheduled get_condition_in
  scheduled_kept now d mark h = rw h refl

  pub reconcile_run :
      (asked : NamespacedName) (d : DataPlane) (mark : Condition) (t found : Trace)
      → Calls.get_data_plane c asked t ≡ (ok d, found)
      → get_condition provisioned_type d ≡ some mark
      → reconcile c crypto ca_name order asked t
        ≡ expose c crypto ca_name order (init_ready (c.now found) d) found
  unfolding reconcile or_gone reconcile_found
  reconcile_run asked d mark t found has_data_plane is_marked =
      bind_run (attempt (Calls.get_data_plane c asked)) _ (attempt_run _ has_data_plane) (
        bind_run (read c.now) _ (read_run c.now found) (
          rw
            (scheduled_kept (c.now found) (init_ready (c.now found) d) mark
              ((init_ready_lem (c.now found) provisioned_type d).1 other ∙ is_marked))
            refl))
    where
      other : provisioned_type ≢ ready_type
      other e = ground (arith, eq_iff provisioned_type ready_type, e)

  -- The calls of such a run, from start to end.
  whole_run :
      (asked : NamespacedName) (t u : Trace) (p : InPlace asked t u)
      → reconcile c crypto ca_name order asked t
        ≡ (attempt (update_status c (marked p)) >>= or_requeue) u
  unfolding marked init_ready set_condition
  whole_run asked t u p =
      reconcile_run asked p.fetched p.mark t p.found p.has_data_plane p.is_marked
      ∙ expose_run (init_ready (c.now p.found) p.fetched) p.service p.found p.served p.has_service
          p.has_address
      ∙ configure_run (init_ready (c.now p.found) p.fetched) p.service p.served p.checked
          p.is_configured p.is_accepted
      ∙ provision_run (init_ready (c.now p.found) p.fetched) p.service p.secret p.deployment
          p.checked p.secrets u p.has_secret p.has_deployment p.is_available

  status_run :
      (d stored : DataPlane) (t : Trace)
      → c.data_plane_at (Call.get_data_plane (name_of d) ∷ t) (name_of d) ≡ ok stored
      → ((attempt (update_status c d) >>= or_requeue) t).1 ≡ (
          if needs_update stored d
          then Call.update_status_data_plane d ∷ Call.get_data_plane (name_of d) ∷ t
          else Call.get_data_plane (name_of d) ∷ t)
  unfolding update_status or_empty ◌>>=◌ continue attempt request pure
  status_run d stored t found = elim (Bool-cases (needs_update stored d)) [
    | inl news ↦ rw (found, or_empty) (rw news (or_requeue-trace _ _))
    | inr old ↦ rw (found, or_empty) (rw old (or_requeue-trace _ _))
  ]

  -- A reconciliation of a data plane that an earlier run has marked as scheduled and that has
  -- variables in its options, that finds its Service with an address, options that the validation
  -- accepts, its certificate and its Deployment as wanted, and pods that are all available, comes
  -- to a data plane with the metadata and the spec that were read, with a Provisioned condition
  -- that is True, and Ready exactly if all conditions that were read are True, but for Ready and
  -- Provisioned, whatever these say. After these steps it reads the data plane once more, and its
  -- last call is the write of that status if the one that it reads needs the update; otherwise no
  -- call follows.
  pub data_plane_completes :
      (asked : NamespacedName) (t u : Trace) (p : InPlace asked t u)
      → (d : DataPlane) × (d.metadata ≡ p.fetched.metadata)
        × (d.spec ≡ p.fetched.spec)
        × ((k : Condition) × (get_condition provisioned_type d ≡ some k)
            × (k.status ≡ condition_true))
        × ((is_ready d ≡ true) ↔ OthersTrueBut provisioned_type p.fetched.conditions)
        × ((stored : DataPlane)
            → c.data_plane_at (Call.get_data_plane (name_of p.fetched) ∷ u) (name_of p.fetched)
              ≡ ok stored
            → (reconcile c crypto ca_name order asked t).1 ≡ (
                if needs_update stored d
                then Call.update_status_data_plane d ∷ Call.get_data_plane (name_of p.fetched) ∷ u
                else Call.get_data_plane (name_of p.fetched) ∷ u))
  unfolding marked ensure_is_marked_provisioned init_ready set_ready set_condition new_condition
  data_plane_completes asked t u p = (
    marked p,
    refl,
    refl,
    (
      provisioned (c.now u),
      get-completed (c.now u) (provisioned (c.now u)) (init_ready (c.now p.found) p.fetched) refl,
      refl,
    ),
    is_ready-completed (c.now p.found) (c.now u) (provisioned (c.now u)) p.fetched refl,
    λ stored found.
        ap (λ (x : Result Outcome × Trace). x.1) (whole_run asked t u p)
        ∙ status_run (marked p) stored u found,
  )
