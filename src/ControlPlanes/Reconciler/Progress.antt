-- ===== src/ControlPlanes/Reconciler/Progress.antt =====
-- A reconciliation of a control plane that finds everything in place.
use mathlib.Core.Path.{subst}
use gateway_operator.Prelude.{
  ℕ, ◌∷◌, List, ap, ◌∙◌, ◌↔◌, ◌≡◌, refl, Bool, true, false, String, none, some, ◌≢◌, [], Bool-cases,
  inl, inr, arith, eq_iff, if◌then◌else◌, string_eq, sym, Option,
}
use gateway_operator.Errors.{Result, ok}
use gateway_operator.Api.Meta.{NamespacedName, Condition, ObjectMeta}
use gateway_operator.Api.Resources.{ControlPlane, DataPlane}
use gateway_operator.Api.Workloads.{
  Deployment, Secret, ServiceAccount, ClusterRole, ClusterRoleBinding,
}
use gateway_operator.Status.{
  is_ready, control_plane_conditions, needs_update, new_condition, set_condition, set_condition_in,
  set_ready, condition_true, get_condition_in, get_condition, init_ready, ready_type,
}
use gateway_operator.Status.Conditions.{not_ready, init_ready_lem}
use gateway_operator.DataPlanes.Conditions.{provisioned_type, pods_ready_reason}
use gateway_operator.Client.Monad.{bind_run, attempt_run, read_run}
use gateway_operator.Outcomes.{or_requeue-trace, Outcome, or_requeue}
use gateway_operator.DataPlanes.Reconciler.{deployment_ready}
use gateway_operator.ControlPlanes.Conditions.{
  ensure_is_marked_provisioned, update_status, or_empty, ensure_data_plane_status,
  ensure_data_plane_configuration, ensure_is_marked_scheduled, data_plane_condition, is_news,
}
use gateway_operator.ControlPlanes.Owned.{
  ensure_deployment_for_control_plane, ensure_service_account_for_control_plane,
  ensure_cluster_role_binding_for_control_plane, ensure_certificate,
}
use gateway_operator.ControlPlanes.Roles.{ensure_cluster_role_for_control_plane}
use gateway_operator.ControlPlanes.Reconciler.{
  Outside, authorize, deploy, finish, connected_service, connect, configure, aligned, maintain,
  or_gone, reconcile,
}
use gateway_operator.Client.{M, Client, Call, Trace, request, attempt, read, continue, ◌>>=◌, pure}
use gateway_operator.Status.Completed.{
  OthersTrueBut, OthersTrueBut-set, OthersTrueBut-ready, is_ready-set_true, get-completed,
}
use gateway_operator.Metadata.{ensure_finalizers_in_metadata}
use gateway_operator.Metadata.Finalizers.{ensure_finalizers_changed}
use gateway_operator.Gateways.{get_data_plane_for_control_plane}
use gateway_operator.ControlPlanes.Env.{
  set_control_plane_defaults, set_control_plane_env_on_data_plane_change, data_plane_is_set,
}
use gateway_operator.ControlPlanes.Cleanup.{
  reconcile_deleted, cleanup_cluster_role, cleanup_cluster_role_binding,
}
use gateway_operator.ControlPlanes.Reconciler.Safety.{settled_spec}
use gateway_operator.Client.Calls

-- The condition of a control plane whose pods are there.
abbrev provisioned : ℕ → Condition
provisioned now =
    new_condition now provisioned_type condition_true pods_ready_reason
      "pods for all Deployments are ready"

-- The condition for the data plane does not count.
OthersTrueBut-data_plane_status :
    (now : ℕ) (p : ControlPlane)
    → OthersTrueBut provisioned_type (ensure_data_plane_status now p).0.conditions
      ↔ OthersTrueBut provisioned_type p.conditions
unfolding ensure_data_plane_status set_condition data_plane_condition new_condition
OthersTrueBut-data_plane_status now p =
    elim (Bool-cases (is_news (get_condition provisioned_type p) new)) [
      | inl news ↦ rw news (
          subst
            (λ type.
              OthersTrueBut type (set_condition_in new p.conditions)
              ↔ OthersTrueBut type p.conditions)
            (type_of (data_plane_is_set p.spec)) (OthersTrueBut-set new p.conditions))
      | inr old ↦ rw old ((λ h. h), (λ h. h))
    ]
  where
    new : Condition
    new = data_plane_condition now (data_plane_is_set p.spec)

    type_of : (set : Bool) → (data_plane_condition now set).type ≡ provisioned_type
    type_of true = refl
    type_of false = refl

kept_spec :
    (now : ℕ) (p : ControlPlane)
    → ((ensure_data_plane_status now p).0.metadata ≡ p.metadata)
      × ((ensure_data_plane_status now p).0.spec ≡ p.spec)
unfolding ensure_data_plane_status set_condition
kept_spec now p =
    elim (Bool-cases (
      is_news (get_condition provisioned_type p)
        (data_plane_condition now (data_plane_is_set p.spec)))) [
          | inl news ↦ rw news (refl, refl)
          | inr old ↦ rw old (refl, refl)
        ]

module _ (c : Client) (ca_name : NamespacedName) (o : Outside) where
  abbrev finalizers : List String
  finalizers = cleanup_cluster_role ∷ cleanup_cluster_role_binding ∷ []

  -- The control plane that was read at the calls `t`, with InitReady and the settings made.
  unfoldable pub settled_plane : ControlPlane → String → Trace → ControlPlane
  unfolding init_ready set_condition
  settled_plane p service_name t = record (init_ready (c.now t) p) {
    spec = settled_spec p service_name;
  }

  -- What it is when the condition for its data plane is set, at the calls `u`.
  unfoldable pub placed_plane : ControlPlane → String → Trace → Trace → ControlPlane
  unfolding ensure_data_plane_status settled_plane
  placed_plane p service_name t u =
      (ensure_data_plane_status (c.now u) (settled_plane p service_name t)).0

  -- A run that finds the control plane, which is not to be deleted, has its finalizers and was
  -- marked as scheduled by an earlier run; the Service of its data plane, if one is set; no change to
  -- report in its settings; and its objects as wanted, with pods that are all available.
  pub record InOrder (asked : NamespacedName) (t u : Trace) : Type 0 where
    pub fetched : ControlPlane
    pub mark : Condition
    pub data_plane : Result DataPlane
    pub service_name : String
    pub account : ServiceAccount
    pub role : ClusterRole
    pub binding : ClusterRoleBinding
    pub secret : Secret
    pub deployment : Deployment
    pub found : Trace
    pub planes : Trace
    pub services : Trace
    pub accounts : Trace
    pub roles : Trace
    pub bindings : Trace
    pub secrets : Trace
    pub has_control_plane : Calls.get_control_plane c asked t ≡ (ok fetched, found)
    pub is_kept : fetched.metadata.deletion_timestamp ≡ none
    pub has_finalizers : (ensure_finalizers_in_metadata fetched.metadata finalizers).1 ≡ false
    pub is_marked : get_condition provisioned_type fetched ≡ some mark
    pub has_data_plane :
        get_data_plane_for_control_plane c (init_ready (c.now found) fetched) found
        ≡ (data_plane, planes)
    pub has_service :
        connected_service c ca_name o (init_ready (c.now found) fetched) data_plane planes
        ≡ (ok service_name, services)
    pub is_defaulted :
        (set_control_plane_defaults fetched.spec fetched.metadata.namespace service_name []).1
        ≡ false
    pub is_aligned :
        (set_control_plane_env_on_data_plane_change
          (set_control_plane_defaults fetched.spec fetched.metadata.namespace service_name []).0
          fetched.metadata.namespace
          service_name).1
        ≡ false
    pub has_account :
        ensure_service_account_for_control_plane c
          (placed_plane fetched service_name found services)
          services
        ≡ (ok (false, account), accounts)
    pub has_role :
        ensure_cluster_role_for_control_plane c o.semver
          (placed_plane fetched service_name found services)
          accounts
        ≡ (ok (false, role), roles)
    pub has_binding :
        ensure_cluster_role_binding_for_control_plane c
          (placed_plane fetched service_name found services)
          account.metadata.name
          role.metadata.name
          roles
        ≡ (ok (false, binding), bindings)
    pub has_secret :
        ensure_certificate c o.crypto ca_name
          (placed_plane fetched service_name found services)
          bindings
        ≡ (ok (false, secret), secrets)
    pub has_deployment :
        ensure_deployment_for_control_plane c
          (placed_plane fetched service_name found services)
          account.metadata.name
          secret.metadata.name
          secrets
        ≡ (ok (false, deployment), u)
    pub is_available : deployment_ready deployment ≡ true

  abbrev pub name_of : ControlPlane → NamespacedName
  name_of p = record { namespace = p.metadata.namespace; name = p.metadata.name }

  finish_run :
      (p : ControlPlane) (deployment : Deployment) (t : Trace)
      → deployment_ready deployment ≡ true
      → finish c ca_name o p deployment t
        ≡ (attempt (update_status c (ensure_is_marked_provisioned (c.now t) p)) >>= or_requeue) t
  unfolding finish read ◌>>=◌ continue
  finish_run p deployment t h = rw h refl

  -- the five steps, from the accounts on
  authorize_run :
      (asked : NamespacedName) (set : Bool) (t u : Trace) (i : InOrder asked t u)
      → let p = placed_plane i.fetched i.service_name i.found i.services in
        authorize c ca_name o p set i.services
        ≡ (attempt (update_status c (ensure_is_marked_provisioned (c.now u) p)) >>= or_requeue) u
  unfolding authorize deploy
  authorize_run asked set t u i = bind_run _ _ i.has_account (
      bind_run _ _ i.has_role (
        bind_run _ _ i.has_binding (
          bind_run _ _ i.has_secret
            (bind_run _ _ i.has_deployment (finish_run _ i.deployment u i.is_available)))))

  configure_run :
      (p : ControlPlane) (service_name : String) (t : Trace)
      → (set_control_plane_defaults p.spec p.metadata.namespace service_name []).1 ≡ false
      → (set_control_plane_env_on_data_plane_change
          (set_control_plane_defaults p.spec p.metadata.namespace service_name []).0
          p.metadata.namespace
          service_name).1
        ≡ false
      → let q = record p { spec = settled_spec p service_name } in
        configure c ca_name o p service_name t
        ≡ authorize c ca_name o
            (ensure_data_plane_status (c.now t) q).0
            (ensure_data_plane_status (c.now t) q).1
            t
  unfolding configure ensure_data_plane_configuration aligned attempt pure ◌>>=◌ continue read
  configure_run p service_name t defaulted aligned = rw (defaulted, aligned) refl

  connect_run :
      (p : ControlPlane) (d : Result DataPlane) (service_name : String) (t u v : Trace)
      → get_data_plane_for_control_plane c p t ≡ (d, u)
      → connected_service c ca_name o p d u ≡ (ok service_name, v)
      → connect c ca_name o p t ≡ configure c ca_name o p service_name v
  unfolding connect
  connect_run p d service_name t u v found served =
      bind_run (attempt (get_data_plane_for_control_plane c p)) _ (attempt_run _ found)
        (bind_run (connected_service c ca_name o p d) _ served refl)

  scheduled_kept :
      (now : ℕ) (p : ControlPlane) (mark : Condition)
      → get_condition provisioned_type p ≡ some mark
      → ensure_is_marked_scheduled now p ≡ (p, false)
  unfolding ensure_is_marked_scheduled get_condition_in
  scheduled_kept now p mark h = rw h refl

  with_finalizers :
      (m : ObjectMeta)
      → (ensure_finalizers_in_metadata m finalizers).1 ≡ false
      → ensure_finalizers_in_metadata m finalizers ≡ (m, false)
  with_finalizers m h = ((ensure_finalizers_changed m finalizers).0 h).1

  maintain_run :
      (p : ControlPlane) (mark : Condition) (t : Trace)
      → (ensure_finalizers_in_metadata p.metadata finalizers).1 ≡ false
      → get_condition provisioned_type p ≡ some mark
      → maintain c ca_name o p t ≡ connect c ca_name o (init_ready (c.now t) p) t
  unfolding maintain
  maintain_run p mark t has marked =
      rw (has, ap (λ (r : ObjectMeta × Bool). r.0) (with_finalizers p.metadata has))
        (bind_run (read c.now) _ (read_run c.now t) (
          rw
            (scheduled_kept (c.now t) (init_ready (c.now t) p) mark
              ((init_ready_lem (c.now t) provisioned_type p).1 other ∙ marked))
            refl))
    where
      other : provisioned_type ≢ ready_type
      other e = ground (arith, eq_iff provisioned_type ready_type, e)

  found_run :
      (p : ControlPlane) (t : Trace)
      → p.metadata.deletion_timestamp ≡ none
      → or_gone c ca_name o (ok p) t ≡ maintain c ca_name o p t
  unfolding or_gone
  found_run p t kept =
      subst
        (λ (d : Option ℕ).
          (elim d as (λ x. M Outcome) [
            | none ↦ maintain c ca_name o p
            | some timestamp ↦ reconcile_deleted c o.combine p timestamp
          ])
            t
          ≡ maintain c ca_name o p t)
        (sym kept) refl

  whole_run :
      (asked : NamespacedName) (t u : Trace) (i : InOrder asked t u)
      → reconcile c ca_name o asked t
        ≡ (attempt (
                update_status c (
                  ensure_is_marked_provisioned
                    (c.now u)
                    (placed_plane i.fetched i.service_name i.found i.services)))
              >>= or_requeue)
            u
  unfolding reconcile settled_plane placed_plane init_ready set_condition
  whole_run asked t u i =
      bind_run (attempt (Calls.get_control_plane c asked)) _ (attempt_run _ i.has_control_plane) (
        found_run i.fetched i.found i.is_kept
        ∙ maintain_run i.fetched i.mark i.found i.has_finalizers i.is_marked
        ∙ connect_run (init_ready (c.now i.found) i.fetched) i.data_plane i.service_name i.found
            i.planes i.services i.has_data_plane i.has_service
        ∙ configure_run (init_ready (c.now i.found) i.fetched) i.service_name i.services
            i.is_defaulted i.is_aligned
        ∙ authorize_run asked _ t u i)

  status_run :
      (p stored : ControlPlane) (name : NamespacedName) (t : Trace)
      → name_of p ≡ name
      → c.control_plane_at (Call.get_control_plane name ∷ t) name ≡ ok stored
      → ((attempt (update_status c p) >>= or_requeue) t).1 ≡ (
          if needs_update stored p
          then Call.update_status_control_plane p ∷ Call.get_control_plane name ∷ t
          else Call.get_control_plane name ∷ t)
  unfolding update_status or_empty ◌>>=◌ continue attempt request pure
  status_run p stored name t same found = elim (Bool-cases (needs_update stored p)) [
    | inl news ↦ rw (same, found, or_empty) (rw news (or_requeue-trace _ _))
    | inr old ↦ rw (same, found, or_empty) (rw old (or_requeue-trace _ _))
  ]

  -- A reconciliation of a control plane that is not to be deleted, that has its finalizers and that an
  -- earlier run has marked as scheduled; that finds the Service of its data plane, if one is set, no
  -- change to report in its settings, and its objects as wanted, with pods that are all available;
  -- comes to a control plane with the metadata that was read and the settings made, with a
  -- Provisioned condition that is True, and Ready exactly if all conditions that were read are True,
  -- but for Ready and Provisioned, whatever these say. After these steps it reads the control plane
  -- once more, and its last call is the write of that status if the one that it reads needs the
  -- update; otherwise no call follows.
  pub control_plane_completes :
      (asked : NamespacedName) (t u : Trace) (i : InOrder asked t u)
      → (p : ControlPlane) × (p.metadata ≡ i.fetched.metadata)
        × (p.spec ≡ settled_spec i.fetched i.service_name)
        × ((k : Condition) × (get_condition provisioned_type p ≡ some k)
            × (k.status ≡ condition_true))
        × ((is_ready p ≡ true) ↔ OthersTrueBut provisioned_type i.fetched.conditions)
        × ((stored : ControlPlane)
            → c.control_plane_at
                (Call.get_control_plane (name_of i.fetched) ∷ u)
                (name_of i.fetched)
              ≡ ok stored
            → (reconcile c ca_name o asked t).1 ≡ (
                if needs_update stored p
                then Call.update_status_control_plane p
                  ∷ Call.get_control_plane (name_of i.fetched)
                  ∷ u
                else Call.get_control_plane (name_of i.fetched) ∷ u))
  unfolding settled_plane placed_plane ensure_is_marked_provisioned init_ready set_ready
      set_condition new_condition
  control_plane_completes asked t u i =
      let q = settled_plane i.fetched i.service_name i.found in
      let placed = placed_plane i.fetched i.service_name i.found i.services in
      let kept = kept_spec (c.now i.services) q in
      let ready = is_ready-set_true (c.now u) (provisioned (c.now u)) placed refl in
      let placed_but = OthersTrueBut-data_plane_status (c.now i.services) q in
      let read_but =
        OthersTrueBut-ready provisioned_type (not_ready (c.now i.found)) i.fetched.conditions
          refl in
      (
        ensure_is_marked_provisioned (c.now u) placed,
        kept.0,
        kept.1,
        (provisioned (c.now u), get-completed (c.now u) (provisioned (c.now u)) placed refl, refl),
        (
          (λ h. read_but.0 (placed_but.0 (ready.0 h))),
          (λ h. ready.1 (placed_but.1 (read_but.1 h))),
        ),
        λ stored found.
            ap (λ (x : Result Outcome × Trace). x.1) (whole_run asked t u i)
            ∙ status_run (ensure_is_marked_provisioned (c.now u) placed) stored (name_of i.fetched)
                u (ap name_of_meta kept.0) found,
      )
    where
      name_of_meta : ObjectMeta → NamespacedName
      name_of_meta m = record { namespace = m.namespace; name = m.name }
