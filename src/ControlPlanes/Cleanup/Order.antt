-- ===== src/ControlPlanes/Cleanup/Order.antt =====
-- The order of the cleanup: a finalizer is given up after what it guards is gone.
use mathlib.Core.Path.{subst}
use gateway_operator.Prelude.{
  Among, ℕ, ◌==◌, string_eq, String, ◌≡◌, ◌⊎◌, inl, inr, refl, sym, ap, true, Bool-cases, ◌∷◌, ◌∙◌,
  false, List, [], arith,
}
use gateway_operator.Errors.{Err, Result, ok, err, is_not_found}
use gateway_operator.Client.Monad.{bind_parts, bind_step}
use gateway_operator.ControlPlanes.Cleanup.Deletes.{answers_of, calls_for, delete_each_lem}
use gateway_operator.ControlPlanes.Cleanup.{
  delete_each, error_or_nil, cleanup_cluster_role, cleanup_cluster_role_binding,
  ensure_owned_cluster_roles_deleted, ensure_owned_cluster_role_bindings_deleted, without_finalizer,
  clean_roles, clean, reconcile_deleted,
}
use gateway_operator.Metadata.{
  gateway_operator_controlled_label, control_plane_managed_label_value,
  remove_finalizer_in_metadata,
}
use gateway_operator.Client.{outcome, request, raise, ◌>>=◌, Client, Call, Trace, M, pure}
use gateway_operator.Api.Resources.{ControlPlane}
use gateway_operator.Api.Workloads.{ClusterRole, ClusterRoleBinding}
use gateway_operator.Metadata.Finalizers.{contains, remove_finalizer_lem}
use gateway_operator.Lists.{list_cluster_roles_for_owner, list_cluster_role_bindings_for_owner}
use gateway_operator.Client.Keeps.{
  Answered-Extends, Keeps-if, Keeps-bind, Keeps-request, Keeps, Extends, Extends-refl,
  Extends-trans, History, keeps_rules, Keeps-bind_answer, Keeps-pure,
}
use gateway_operator.Outcomes.{Outcome, done}
use gateway_operator.ControlPlanes.Cleanup.Steps.{delete_each-Keeps, error_or_nil-Keeps}
use gateway_operator.Client.Calls

module _ (c : Client) (combine : List Err → Err) (p : ControlPlane) where
  -- Before the calls that come after `t`, the objects were listed, and the server has answered a
  -- deletion of each of them, with success or with an error that says "not found".
  pub record Deleted {A : Type 0} (list : M (List A)) (call : A → Call) (t : Trace) : Type 0 where
    pub objects : List A
    pub start : Trace
    pub listed : Trace
    pub has_listed : list start ≡ (ok objects, listed)
    pub gone :
        (e : Err)
        → Among (err e) (answers_of call (λ x u. outcome (c.failure u (call x))) objects listed)
        → is_not_found e ≡ true
    pub since : Extends t (calls_for call (λ x u. outcome (c.failure u (call x))) objects listed)

  -- So it was with the owned ClusterRoleBindings.
  abbrev pub BindingsGone : Trace → Type 0
  BindingsGone =
      Deleted
        (list_cluster_role_bindings_for_owner c gateway_operator_controlled_label
          control_plane_managed_label_value p.metadata.uid)
        Call.delete_cluster_role_binding

  -- So it was with the owned ClusterRoles.
  abbrev pub RolesGone : Trace → Type 0
  RolesGone =
      Deleted
        (list_cluster_roles_for_owner c gateway_operator_controlled_label
          control_plane_managed_label_value p.metadata.uid)
        Call.delete_cluster_role

  -- A finalizer of the control plane is still there, or what it guards is gone.
  abbrev pub InOrder : Trace → Call → Type 0
  InOrder t (Call.update_control_plane x) =
      ((contains cleanup_cluster_role_binding x.metadata.finalizers
          ≡ contains cleanup_cluster_role_binding p.metadata.finalizers)
        ⊎ BindingsGone t)
      × ((contains cleanup_cluster_role x.metadata.finalizers
            ≡ contains cleanup_cluster_role p.metadata.finalizers)
          ⊎ (BindingsGone t × RolesGone t))
  InOrder t _ = Unit

  Deleted-later :
      {A : Type 0} (list : M (List A)) (call : A → Call) (t u : Trace)
      → Extends t u
      → Deleted list call u
      → Deleted list call t
  Deleted-later list call t u e v = record {
    objects = v.objects;
    start = v.start;
    listed = v.listed;
    has_listed = v.has_listed;
    gone = v.gone;
    since = Extends-trans t u _ e v.since;
  }

  no_errors :
      (errors : List Err) (t u : Trace)
      → error_or_nil c combine errors t ≡ (ok tt, u)
      → (errors ≡ []) × (t ≡ u)
  unfolding error_or_nil pure raise
  no_errors [] t u h = (refl, ap (λ (x : Result (Unit {0}) × Trace). x.1) h)
  no_errors (e ∷ es) t u h = ground (arith, ap (λ (x : Result (Unit {0}) × Trace). x.0) h)

  error_is_gone :
      (errors : List Err) (e : Err)
      → errors ≡ []
      → (is_not_found e ≡ false → Among e errors)
      → is_not_found e ≡ true
  error_is_gone errors e none failed = elim (Bool-cases (is_not_found e)) [
    | inl gone ↦ gone
    | inr other ↦ absurd (subst (Among e) none (failed other))
  ]

  -- a deletion that has succeeded
  deletion :
      {A : Type 0} (list : M (List A)) (call : A → Call) (t u : Trace)
      → (list >>= λ xs.
            delete_each (λ x. request (call x) (λ v. outcome (c.failure v (call x)))) xs
            >>= error_or_nil c combine)
          t
        ≡ (ok tt, u)
      → Deleted list call u
  deletion {A} list call t u h =
      let (xs, v, has_listed, after_list) = bind_parts list _ h in
      let (errors, run, which) = delete_each_lem call answer xs v in
      let (none, same) = no_errors errors (calls_for call answer xs v) u (
        sym (
          bind_step (delete_each (λ x. request (call x) (answer x)) xs) (error_or_nil c combine)
            run)
        ∙ after_list) in
      record {
        objects = xs;
        start = t;
        listed = v;
        has_listed = has_listed;
        gone = λ e answered. error_is_gone errors e none (λ failed. (which e).1 (answered, failed));
        since = subst (λ w. Extends w (calls_for call answer xs v)) same (Extends-refl _);
      }
    where
      answer : A → Trace → Result (Unit {0})
      answer x v = outcome (c.failure v (call x))

  bindings_gone :
      (t u : Trace)
      → ensure_owned_cluster_role_bindings_deleted c combine p t ≡ (ok tt, u)
      → BindingsGone u
  unfolding ensure_owned_cluster_role_bindings_deleted
  bindings_gone t u h = deletion _ Call.delete_cluster_role_binding t u h

  roles_gone :
      (t u : Trace) → ensure_owned_cluster_roles_deleted c combine p t ≡ (ok tt, u) → RolesGone u
  unfolding ensure_owned_cluster_roles_deleted
  roles_gone t u h = deletion _ Call.delete_cluster_role t u h

  delete_role-Keeps :
      (x : ClusterRole) (u : Trace) → Keeps u InOrder (Calls.delete_cluster_role c x)
  delete_role-Keeps x u = search keeps_rules

  delete_binding-Keeps :
      (x : ClusterRoleBinding) (u : Trace) → Keeps u InOrder (Calls.delete_cluster_role_binding c x)
  delete_binding-Keeps x u = search keeps_rules

  roles_deleted-Keeps :
      (u : Trace) → Keeps u InOrder (ensure_owned_cluster_roles_deleted c combine p)
  unfolding ensure_owned_cluster_roles_deleted list_cluster_roles_for_owner
  roles_deleted-Keeps u =
      search (keeps_rules, delete_each-Keeps, delete_role-Keeps, error_or_nil-Keeps) depth 8

  bindings_deleted-Keeps :
      (u : Trace) → Keeps u InOrder (ensure_owned_cluster_role_bindings_deleted c combine p)
  unfolding ensure_owned_cluster_role_bindings_deleted list_cluster_role_bindings_for_owner
  bindings_deleted-Keeps u =
      search (keeps_rules, delete_each-Keeps, delete_binding-Keeps, error_or_nil-Keeps) depth 8

  -- what the written metadata has of each finalizer
  keeps_other :
      (f g : String)
      → (f == g) ≡ false
      → contains g (remove_finalizer_in_metadata p.metadata f).0.finalizers
        ≡ contains g p.metadata.finalizers
  keeps_other f g h = (remove_finalizer_lem p.metadata f g).0 ∙ ground (arith, h)

  -- the control plane as it is written without a finalizer
  abbrev written : String → ControlPlane
  written finalizer = record p { metadata = (remove_finalizer_in_metadata p.metadata finalizer).0 }

  without_finalizer-Keeps :
      (finalizer : String) (next : M Outcome) (u : Trace)
      → ((t : Trace) → Extends t u → InOrder t (Call.update_control_plane (written finalizer)))
      → Keeps u InOrder next
      → Keeps u InOrder (without_finalizer c combine finalizer p next)
  unfolding without_finalizer
  without_finalizer-Keeps finalizer next u write rest =
      Keeps-if (remove_finalizer_in_metadata p.metadata finalizer).1 _ next
        (λ _.
          Keeps-bind (Calls.update_control_plane c (written finalizer)) (λ _. pure done)
            (Keeps-request (Call.update_control_plane (written finalizer)) _ write)
            (λ _. Keeps-pure done))
        (λ _. rest)

  without_roles-Keeps :
      (u : Trace)
      → BindingsGone u
      → RolesGone u
      → Keeps u InOrder (without_finalizer c combine cleanup_cluster_role p (pure done))
  without_roles-Keeps u bindings roles =
      without_finalizer-Keeps cleanup_cluster_role (pure done) u
        (λ t e. (
          inl (keeps_other cleanup_cluster_role cleanup_cluster_role_binding refl),
          inr (
            Deleted-later _ Call.delete_cluster_role_binding t u e bindings,
            Deleted-later _ Call.delete_cluster_role t u e roles,
          ),
        ))
        (Keeps-pure done)

  clean_roles-Keeps : (u : Trace) → BindingsGone u → Keeps u InOrder (clean_roles c combine p)
  unfolding clean_roles
  clean_roles-Keeps u bindings =
      Keeps-bind_answer (ensure_owned_cluster_roles_deleted c combine p) _ (roles_deleted-Keeps u)
        (λ a t answered.
          without_roles-Keeps t
            (Deleted-later _ Call.delete_cluster_role_binding t u
              (Answered-Extends (ensure_owned_cluster_roles_deleted c combine p) a t
                (roles_deleted-Keeps u) answered)
              bindings)
            (roles_gone answered.before t answered.answer))

  without_bindings-Keeps :
      (u : Trace)
      → BindingsGone u
      → Keeps u InOrder
          (without_finalizer c combine cleanup_cluster_role_binding p (clean_roles c combine p))
  without_bindings-Keeps u bindings =
      without_finalizer-Keeps cleanup_cluster_role_binding (clean_roles c combine p) u
        (λ t e. (
          inr (Deleted-later _ Call.delete_cluster_role_binding t u e bindings),
          inl (keeps_other cleanup_cluster_role_binding cleanup_cluster_role refl),
        ))
        (clean_roles-Keeps u bindings)

  clean-Keeps : (u : Trace) → Keeps u InOrder (clean c combine p)
  unfolding clean
  clean-Keeps u =
      Keeps-bind_answer (ensure_owned_cluster_role_bindings_deleted c combine p) _
        (bindings_deleted-Keeps u)
        (λ a t answered. without_bindings-Keeps t (bindings_gone answered.before t answered.answer))

  -- In every update of a control plane that is made while it is being deleted, on any server: the
  -- finalizer for the bindings is given up only after, in the same run, the owned ClusterRoleBindings
  -- were listed and the server has answered a deletion of each of them with success or "not found",
  -- and the one for the roles only after both that and the same for the owned ClusterRoles.
  pub cleanup-InOrder :
      (timestamp : ℕ) → History InOrder (reconcile_deleted c combine p timestamp []).1
  unfolding reconcile_deleted
  cleanup-InOrder timestamp = (run timestamp).at [] (Extends-refl []) tt
    where
      run : (timestamp : ℕ) → Keeps [] InOrder (reconcile_deleted c combine p timestamp)
      run timestamp = search (keeps_rules, clean-Keeps)
