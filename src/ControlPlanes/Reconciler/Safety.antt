-- ===== src/ControlPlanes/Reconciler/Safety.antt =====
-- What a reconciliation of a control plane writes only under conditions.
use gateway_operator.Prelude.{String, [], ◌≡◌, ◌⊎◌, true, false, some, ltb, ℕ}
use gateway_operator.Api.Meta.{NamespacedName}
use gateway_operator.Api.Resources.{DataPlane, ControlPlane, ControlPlaneOptions}
use gateway_operator.Api.Workloads.{
  Deployment, Secret, ServiceAccount, ClusterRole, ClusterRoleBinding,
}
use gateway_operator.Status.{is_ready, control_plane_conditions}
use gateway_operator.DataPlanes.Reconciler.{deployment_ready}
use gateway_operator.ControlPlanes.Owned.{
  ensure_deployment_for_control_plane, ensure_service_account_for_control_plane,
  ensure_cluster_role_binding_for_control_plane, ensure_certificate,
}
use gateway_operator.ControlPlanes.Owned.Scale.{Follows}
use gateway_operator.ControlPlanes.Roles.{ensure_cluster_role_for_control_plane}
use gateway_operator.ControlPlanes.Roles.Permissions.{ReadsSecrets}
use gateway_operator.ControlPlanes.Env.{
  set_control_plane_defaults, set_control_plane_env_on_data_plane_change,
}
use gateway_operator.ControlPlanes.Reconciler.{Outside, connected_service}
use gateway_operator.Gateways.{get_data_plane_for_control_plane}
use gateway_operator.Errors.{Result}
use gateway_operator.Client.{Client, Call, Trace, attempt}
use gateway_operator.Client.Calls
use gateway_operator.Client.Before.{Before, Ran}

-- The options of a control plane once the defaults and the settings for its data plane are made,
-- for a Service of this name.
abbrev pub settled_spec : ControlPlane → String → ControlPlaneOptions
settled_spec p service_name =
    let namespace = p.metadata.namespace in
    let spec = (set_control_plane_defaults p.spec namespace service_name []).0 in
    (set_control_plane_env_on_data_plane_change spec namespace service_name).0

module _ (c : Client) (ca_name : NamespacedName) (o : Outside) (request : NamespacedName) where
  -- The name is what the look-up of the Service for the data plane of the control plane has answered.
  abbrev pub Named : ControlPlane → String → Trace → Type 0
  Named p service_name t =
      (answer : Result DataPlane) × Before
        (Ran (attempt (get_data_plane_for_control_plane c p)) answer) t
      × Before (Ran (connected_service c ca_name o p answer) service_name) t

  -- The Service of the data plane of a control plane with this metadata and this spec.
  abbrev pub Serves : ControlPlane → String → Trace → Type 0
  Serves stored service_name t =
      (p : ControlPlane) × (p.metadata ≡ stored.metadata)
      × (p.spec ≡ stored.spec)
      × Named p service_name t

  -- Where the control plane comes from: the read of the request, with the settings
  -- made for the Service of its data plane, or the
  -- answer of the server to an update.
  abbrev pub Origin : ControlPlane → ControlPlane → Trace → Type 0
  Origin p stored t =
      (Before (Ran (Calls.get_control_plane c request) stored) t
        × (service_name : String) × Serves stored service_name t
        × (p.spec ≡ settled_spec stored service_name))
      ⊎ ((sent : ControlPlane) × Before (Ran (Calls.update_control_plane c sent) stored) t
          × (p.spec ≡ stored.spec))

  -- The control plane is the one of the request, as the server has answered it in this run.
  pub record Current (p : ControlPlane) (t : Trace) : Type 0 where
    pub stored : ControlPlane
    pub same_metadata : p.metadata ≡ stored.metadata
    pub origin : Origin p stored t

  -- The account, its role, their binding and the certificate of the control plane of the request
  -- were each found as wanted.
  pub record InPlace (p : ControlPlane) (t : Trace) : Type 0 where
    pub current : Current p t
    pub account : ServiceAccount
    pub role : ClusterRole
    pub binding : ClusterRoleBinding
    pub secret : Secret
    pub has_account : Before (Ran (ensure_service_account_for_control_plane c p) (false, account)) t
    pub has_role : Before (Ran (ensure_cluster_role_for_control_plane c o.semver p) (false, role)) t
    pub has_binding :
        Before
          (Ran
            (ensure_cluster_role_binding_for_control_plane c p account.metadata.name
              role.metadata.name)
            (false, binding))
          t
    pub has_secret : Before (Ran (ensure_certificate c o.crypto ca_name p) (false, secret)) t

  -- The Deployment is as the control plane of the request wants it, whose other objects are in
  -- place.
  abbrev pub IsWanted : Deployment → Trace → Type 0
  IsWanted x t = (p : ControlPlane) × Follows p x × InPlace p t

  -- The Deployment of the control plane of the request was found as wanted too, with pods that are all
  -- available.
  pub record PodsAvailable (t : Trace) : Type 0 where
    pub plane : ControlPlane
    pub in_place : InPlace plane t
    pub deployment : Deployment
    pub found :
        Before
          (Ran
            (ensure_deployment_for_control_plane c plane in_place.account.metadata.name
              in_place.secret.metadata.name)
            (false, deployment))
          t
    pub available : deployment_ready deployment ≡ true

  -- The answer to an update was a control plane that the server has as ready.
  pub record Stale (t : Trace) : Type 0 where
    pub sent : ControlPlane
    pub stored : ControlPlane
    pub answered : Before (Ran (Calls.update_control_plane c sent) stored) t
    pub ready : is_ready stored ≡ true

  -- The control plane of the request was read, and its deletion was due by the clock after that.
  pub record Deleting (t : Trace) : Type 0 where
    pub plane : ControlPlane
    pub timestamp : ℕ
    pub scheduled : plane.metadata.deletion_timestamp ≡ some timestamp
    pub due :
        Before
          (λ u.
            (ltb (c.now u) timestamp ≡ false)
            × Before (Ran (Calls.get_control_plane c request) plane) u)
          t

  -- What holds when the call is made after the calls `t`.
  abbrev pub Guarded : Trace → Call → Type 0
  Guarded t (Call.create_deployment x) = IsWanted x t
  Guarded t (Call.update_deployment x) = IsWanted x t
  Guarded t (Call.create_cluster_role x) = ReadsSecrets x.rules
  Guarded t (Call.delete_cluster_role x) = Deleting t
  Guarded t (Call.delete_cluster_role_binding x) = Deleting t
  Guarded t (Call.update_status_control_plane x) = is_ready x ≡ true → PodsAvailable t ⊎ Stale t
  Guarded t _ = Unit
