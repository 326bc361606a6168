-- ===== src/ControlPlanes/Env/Settings.antt =====
-- What a control plane's environment holds after its data plane has changed.
use gateway_operator.Prelude.{
  String, ◌≡◌, ◌≢◌, refl, sym, ap, ◌∙◌, Bool, true, false, arith, eq_iff, if◌then◌else◌, ◌==◌,
  string_eq,
}
use gateway_operator.Api.Resources.{ControlPlaneOptions}
use gateway_operator.ControlPlanes.Env.{
  ensure_rejected, Progress, env_value_by_name, data_plane_env, data_plane_is_set,
  set_control_plane_env_on_data_plane_change, controller_publish_service, controller_kong_admin_url,
  publish_service_name, kong_admin_url_name,
}
use gateway_operator.ControlPlanes.Env.Values.{
  has_env, ensure_rejected_gone, ensure_rejected_absent, value-ensure_value, ensure_value_kept,
  ensure_value_settled, value-ensure_rejected, ensure_rejected_kept, ensure_rejected_settled,
}

-- The values of the two settings that depend on the data plane: none without one.
abbrev pub wanted_service : Bool → String → String → String
wanted_service set namespace service_name =
    if set then controller_publish_service service_name namespace else ""

abbrev pub wanted_url : Bool → String → String → String
wanted_url set namespace service_name =
    if set then controller_kong_admin_url service_name namespace else ""

module _ (namespace service_name : String) where
  value-data_plane_env :
      (set : Bool) (p : Progress) (n : String)
      → env_value_by_name (data_plane_env set namespace service_name p).0 n ≡ (
          if kong_admin_url_name == n
          then wanted_url set namespace service_name
          else if publish_service_name == n
          then wanted_service set namespace service_name
          else env_value_by_name p.0 n)
  unfolding data_plane_env
  value-data_plane_env true p n = rw (value-ensure_value, value-ensure_value) refl
  value-data_plane_env false p n = rw (value-ensure_rejected, value-ensure_rejected) refl

  data_plane_env_settled :
      (set : Bool) (p : Progress)
      → env_value_by_name p.0 publish_service_name ≡ wanted_service set namespace service_name
      → env_value_by_name p.0 kong_admin_url_name ≡ wanted_url set namespace service_name
      → data_plane_env set namespace service_name p ≡ p
  unfolding data_plane_env
  data_plane_env_settled true p h k =
      rw (ensure_value_settled publish_service_name _ p h)
        (ensure_value_settled kong_admin_url_name _ p k)
  data_plane_env_settled false p h k =
      rw (ensure_rejected_settled publish_service_name p h)
        (ensure_rejected_settled kong_admin_url_name p k)

  data_plane_env_kept :
      (set : Bool) (p : Progress)
      → (data_plane_env set namespace service_name p).1 ≡ false
      → data_plane_env set namespace service_name p ≡ p
  unfolding data_plane_env
  data_plane_env_kept true p h =
      let outer = ensure_value_kept kong_admin_url_name _ _ h in
      outer.1 ∙ (ensure_value_kept publish_service_name _ p outer.0).1
  data_plane_env_kept false p h =
      let outer = ensure_rejected_kept kong_admin_url_name _ h in
      outer.1 ∙ (ensure_rejected_kept publish_service_name p outer.0).1

  -- without a data plane, a setting that has a value is gone
  settings_gone :
      (p : Progress)
      → (env_value_by_name p.0 publish_service_name ≢ ""
          → has_env (data_plane_env false namespace service_name p).0 publish_service_name ≡ false)
        × (env_value_by_name p.0 kong_admin_url_name ≢ ""
            → has_env (data_plane_env false namespace service_name p).0 kong_admin_url_name ≡ false)
  unfolding data_plane_env
  settings_gone p = (
    λ set.
        ensure_rejected_absent kong_admin_url_name (ensure_rejected publish_service_name p)
          publish_service_name (ensure_rejected_gone publish_service_name p set),
    λ set.
        ensure_rejected_gone kong_admin_url_name (ensure_rejected publish_service_name p)
          (λ e. set (sym (value-ensure_rejected publish_service_name kong_admin_url_name p) ∙ e)),
  )

  abbrev changed_spec : ControlPlaneOptions → ControlPlaneOptions × Bool
  changed_spec spec = set_control_plane_env_on_data_plane_change spec namespace service_name

  -- After a change of the data plane, the publish service and the admin URL in the environment of
  -- the control plane have the values for the service if a data plane is set. If none is set they have
  -- no value, and where one of them had a value, there is no variable of its name any more. Every other
  -- name has the value it had; and where no change is reported the options are as they were.
  pub data_plane_change_lem :
      (spec : ControlPlaneOptions)
      → let env = (changed_spec spec).0.deployment.env in
        (env_value_by_name env publish_service_name
          ≡ wanted_service (data_plane_is_set spec) namespace service_name)
        × (env_value_by_name env kong_admin_url_name
            ≡ wanted_url (data_plane_is_set spec) namespace service_name)
        × ((n : String)
            → publish_service_name ≢ n
            → kong_admin_url_name ≢ n
            → env_value_by_name env n ≡ env_value_by_name spec.deployment.env n)
        × (data_plane_is_set spec ≡ false
            → (env_value_by_name spec.deployment.env publish_service_name ≢ ""
                → has_env env publish_service_name ≡ false)
              × (env_value_by_name spec.deployment.env kong_admin_url_name ≢ ""
                  → has_env env kong_admin_url_name ≡ false))
        × ((changed_spec spec).1 ≡ false → (changed_spec spec).0 ≡ spec)
  unfolding set_control_plane_env_on_data_plane_change
  data_plane_change_lem spec = (
    value-data_plane_env set start publish_service_name,
    value-data_plane_env set start kong_admin_url_name,
    λ n other_service other_url. ground (
      arith,
      value-data_plane_env set start n,
      eq_iff publish_service_name n,
      eq_iff kong_admin_url_name n,
      other_service,
      other_url,
    ),
    λ unset. rw unset (settings_gone start),
    λ h.
        ap (λ (p : Progress). record spec { deployment = record spec.deployment { env = p.0 } })
          (data_plane_env_kept set start h),
  )
    where
      set : Bool
      set = data_plane_is_set spec

      start : Progress
      start = (spec.deployment.env, false)

  -- A second call of setControlPlaneEnvOnDataPlaneChange, with the same Service, changes nothing
  -- and reports no change.
  data_plane_change_idem :
      (spec : ControlPlaneOptions)
      → changed_spec (changed_spec spec).0 ≡ ((changed_spec spec).0, false)
  unfolding set_control_plane_env_on_data_plane_change
  data_plane_change_idem spec =
      ap
        (λ (p : Progress). (record spec { deployment = record spec.deployment { env = p.0 } }, p.1))
        (data_plane_env_settled (data_plane_is_set spec)
          (
            (data_plane_env (data_plane_is_set spec) namespace service_name
                (spec.deployment.env, false)).0,
            false,
          )
          (value-data_plane_env (data_plane_is_set spec) (spec.deployment.env, false)
            publish_service_name)
          (value-data_plane_env (data_plane_is_set spec) (spec.deployment.env, false)
            kong_admin_url_name))
