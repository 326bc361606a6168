-- ===== src/DataPlanes/Reconciler/Stages.antt =====
-- A reconciliation of a data plane that the validation rejects.
use gateway_operator.Prelude.{
  [], String, ◌≡◌, ◌≢◌, refl, ap, ◌∙◌, true, false, ◌&&◌, List, ◌∷◌, arith, if◌then◌else◌, ◌⊎◌, inl,
  inr, All, any_of, ◌==◌, string_eq, some, Bool-cases, eq_iff,
}
use gateway_operator.Errors.{Err, Result, ok, err, error_text}
use gateway_operator.Api.Meta.{NamespacedName, Condition}
use gateway_operator.Api.Resources.{DataPlane}
use gateway_operator.Api.Workloads.{Service}
use gateway_operator.Status.{
  get_condition, get_condition_in, init_ready, ready_type, data_plane_conditions, condition_false,
}
use gateway_operator.Status.Conditions.{init_ready_lem}
use gateway_operator.Validation.{validate}
use gateway_operator.Signing.{Crypto}
use gateway_operator.DataPlanes.Conditions.{
  provisioned_type, validation_failed_reason, ensure_data_plane_is_marked_not_provisioned,
  not_provisioned_condition, not_provisioned_conditions, is_same_data_plane_condition,
}
use gateway_operator.DataPlanes.Conditions.NotProvisioned.{Agrees, marked-Agrees, marked_keeps}
use gateway_operator.DataPlanes.Owned.{ensure_service_for_data_plane}
use gateway_operator.DataPlanes.Reconciler.{is_empty, configure, provision_if_valid, reconcile}
use gateway_operator.DataPlanes.Reconciler.Progress.{reconcile_run, expose_run}
use gateway_operator.Outcomes.{Outcome, done}
use gateway_operator.Client.{Client, Call, Trace, pure, read, request, attempt, continue, ◌>>=◌}
use gateway_operator.Client.Calls

module _ (c : Client) (crypto : Crypto) (ca_name : NamespacedName)
    (order : List (String × String)) where
  -- A run that finds the data plane marked as scheduled by an earlier run, and its Service with an
  -- address, and whose validation rejects the options of the data plane.
  pub record Refused (asked : NamespacedName) (t u : Trace) : Type 0 where
    pub fetched : DataPlane
    pub mark : Condition
    pub service : Service
    pub cause : Err
    pub found : Trace
    pub served : Trace
    pub has_data_plane : Calls.get_data_plane c asked t ≡ (ok fetched, found)
    pub is_marked : get_condition provisioned_type fetched ≡ some mark
    pub has_service :
        ensure_service_for_data_plane c (init_ready (c.now found) fetched) found
        ≡ (ok (false, service), served)
    pub has_address : service.cluster_ip ≢ ""
    pub is_configured : (is_empty fetched.spec.env && is_empty fetched.spec.env_from) ≡ false
    pub is_rejected : validate c (init_ready (c.now found) fetched) served ≡ (err cause, u)

  rejected_run :
      (d : DataPlane) (service : Service) (e : Err) (t u : Trace)
      → (is_empty d.spec.env && is_empty d.spec.env_from) ≡ false
      → validate c d t ≡ (err e, u)
      → configure c crypto ca_name order d service t
        ≡ (ensure_data_plane_is_marked_not_provisioned c d validation_failed_reason (error_text e)
              >>= λ _. pure done)
            u
  unfolding configure provision_if_valid ◌>>=◌ continue attempt
  rejected_run d service e t u configured rejected = rw (configured, rejected) refl

  abbrev told : DataPlane → Err → Trace → Condition
  told d e u = not_provisioned_condition d (c.now u) validation_failed_reason (error_text e)

  abbrev marked_failed : DataPlane → Err → Trace → DataPlane
  marked_failed d e u = record d {
    conditions = (not_provisioned_conditions (told d e u) d.conditions).0;
  }

  says :
      (d : DataPlane) (e : Err) (u : Trace) (k : Condition)
      → is_same_data_plane_condition (told d e u) k ≡ true
      → (k.status ≡ condition_false)
        × (k.reason ≡ validation_failed_reason)
        × (k.message ≡ error_text e)
  unfolding is_same_data_plane_condition
  says d e u k h = ground (
    arith,
    h,
    eq_iff condition_false k.status,
    eq_iff validation_failed_reason k.reason,
    eq_iff (error_text e) k.message,
  )

  abbrev Tells : Err → Condition → Type 0
  Tells e k =
      k.type ≡ provisioned_type
      → (k.status ≡ condition_false)
        × (k.reason ≡ validation_failed_reason)
        × (k.message ≡ error_text e)

  says-All :
      (d : DataPlane) (e : Err) (u : Trace) (ks : List Condition)
      → All (Agrees (told d e u)) ks
      → All (Tells e) ks
  says-All d e u [] h = tt
  says-All d e u (k ∷ ks) h = (λ same. says d e u k (h.0 same), says-All d e u ks h.1)

  mark_run :
      (d : DataPlane) (e : Err) (u : Trace)
      → ((ensure_data_plane_is_marked_not_provisioned c d validation_failed_reason (error_text e)
            >>= λ _. pure done)
          u).1
        ≡ (if (not_provisioned_conditions (told d e u) d.conditions).1
            then Call.update_status_data_plane (marked_failed d e u) ∷ u
            else u)
  unfolding ensure_data_plane_is_marked_not_provisioned ◌>>=◌ continue read request pure
  mark_run d e u = ground arith

  -- The only call after `u`, or none where the conditions of `x` are those of `d`.
  ends :
      (d : DataPlane) (e : Err) (u v : Trace)
      → v ≡ (
          if (not_provisioned_conditions (told d e u) d.conditions).1
          then Call.update_status_data_plane (marked_failed d e u) ∷ u
          else u)
      → (v ≡ Call.update_status_data_plane (marked_failed d e u) ∷ u)
        ⊎ ((v ≡ u) × ((marked_failed d e u).conditions ≡ d.conditions))
  ends d e u v h = elim (Bool-cases (not_provisioned_conditions (told d e u) d.conditions).1) [
    | inl news ↦ inl (h ∙ rw news refl)
    | inr old ↦ inr (h ∙ rw old refl, (marked_keeps (told d e u) d.conditions refl).1 old)
  ]

  -- The calls of such a run, from start to end.
  whole_run :
      (asked : NamespacedName) (t u : Trace) (p : Refused asked t u)
      → reconcile c crypto ca_name order asked t
        ≡ (ensure_data_plane_is_marked_not_provisioned c
                (init_ready (c.now p.found) p.fetched)
                validation_failed_reason
                (error_text p.cause)
              >>= λ _. pure done)
            u
  unfolding init_ready
  whole_run asked t u p =
      reconcile_run c crypto ca_name order asked p.fetched p.mark t p.found p.has_data_plane
        p.is_marked
      ∙ expose_run c crypto ca_name order (init_ready (c.now p.found) p.fetched) p.service p.found
          p.served p.has_service p.has_address
      ∙ rejected_run (init_ready (c.now p.found) p.fetched) p.service p.cause p.served u
          p.is_configured p.is_rejected

  -- A reconciliation of a data plane that an earlier run has marked as scheduled and that has
  -- variables in its options, that finds its Service with an address, and whose validation rejects
  -- the options, comes to a data plane with the metadata and the spec that were read, with a
  -- condition Provisioned, each condition of that type False with the reason of a failed validation
  -- and the text of the error, and with what was read at every type but Ready and Provisioned.
  -- After the calls of the validation the run makes at most one call, the write of that status, and
  -- it makes none only if the data plane that it read, marked as not ready, has these conditions
  -- already.
  pub rejected_calls :
      (asked : NamespacedName) (t u : Trace) (p : Refused asked t u)
      → (d : DataPlane) × (d.metadata ≡ p.fetched.metadata)
        × (d.spec ≡ p.fetched.spec)
        × All
            (λ k.
              k.type ≡ provisioned_type
              → (k.status ≡ condition_false)
                × (k.reason ≡ validation_failed_reason)
                × (k.message ≡ error_text p.cause))
            d.conditions
        × (any_of (λ k. k.type == provisioned_type) d.conditions ≡ true)
        × ((type : String)
            → type ≢ provisioned_type
            → type ≢ ready_type
            → get_condition type d ≡ get_condition type p.fetched)
        × (((reconcile c crypto ca_name order asked t).1 ≡ Call.update_status_data_plane d ∷ u)
            ⊎ (((reconcile c crypto ca_name order asked t).1 ≡ u)
                × (d.conditions ≡ (init_ready (c.now p.found) p.fetched).conditions)))
  unfolding init_ready get_condition_in get_condition
  rejected_calls asked t u p =
      let d = init_ready (c.now p.found) p.fetched in
      let k = told d p.cause u in
      (
        marked_failed d p.cause u,
        refl,
        refl,
        says-All d p.cause u _ (marked-Agrees k d.conditions refl).0,
        (marked-Agrees k d.conditions refl).1,
        λ type other unready.
            (marked_keeps k d.conditions refl).0 type other
            ∙ (init_ready_lem (c.now p.found) type p.fetched).1 unready,
        ends d p.cause u (reconcile c crypto ca_name order asked t).1 (
            ap (λ (r : Result Outcome × Trace). r.1) (whole_run asked t u p)
            ∙ mark_run d p.cause u),
      )
