-- ===== src/Validation/Shadowing.antt =====
-- Where a later entry hides an earlier one from the check, or fails to.
use mathlib.Core.Path.{fun_ext}
use gateway_operator.Prelude.{
  ap, String, ◌≡◌, refl, true, false, none, some, List, [], ◌∷◌, ◌++◌, eq_iff, arith, starts_with,
  ◌∙◌, string_eq,
}
use gateway_operator.Errors.{ok}
use gateway_operator.Api.Env.{EnvVar, EnvFromSource, EnvSource}
use gateway_operator.Api.Workloads.{ConfigMap}
use gateway_operator.Api.Resources.{DeploymentOptions}
use gateway_operator.Client.{Client, Call, Trace, M, pure, request, ◌>>=◌, wrapping, continue}
use gateway_operator.Client.Monad.{bind_step, bind-pure, pure-bind, bind_run}
use gateway_operator.Validation.{
  env_var_kong_database, Mode, get_db_mode_from_config_map_ref, env_var_mode, env_loop,
  env_from_mode, env_from_loop, validate_deploy_options, config_map_mode, in_namespace,
  get_db_mode_from_env, get_db_mode_from_env_from, check_db_mode,
}
use gateway_operator.Validation.Laws.{
  env_loop-append, env_from_loop-append, OtherNames, env_loop_others,
}

module _ (c : Client) (namespace : String) where
  env_var_mode_empty :
      (e : EnvVar)
      → e.value ≡ ""
      → e.value_from ≡ none
      → (mode : Mode) → env_var_mode c namespace e mode ≡ pure mode
  unfolding env_var_mode
  env_var_mode_empty e empty unsourced mode = ground (arith, eq_iff e.value "")

  env_loop_one :
      (e : EnvVar) (mode : Mode)
      → env_loop c namespace (e ∷ []) mode ≡ env_var_mode c namespace e mode
  unfolding env_loop
  env_loop_one e mode = bind-pure (env_var_mode c namespace e mode)

  env_from_loop_one :
      (e : EnvFromSource) (mode : Mode)
      → env_from_loop c namespace (e ∷ []) mode ≡ env_from_mode c namespace e mode
  unfolding env_from_loop
  env_from_loop_one e mode = bind-pure (env_from_mode c namespace e mode)

  -- A last variable with an empty value and no source leaves the database mode, and the calls made
  -- to find it, as they are without it, even if it has the database's name.
  pub empty_value_ignored :
      (es : List EnvVar) (e : EnvVar) (mode : Mode)
      → e.value ≡ ""
      → e.value_from ≡ none
      → env_loop c namespace (es ++ (e ∷ [])) mode ≡ env_loop c namespace es mode
  empty_value_ignored es e mode empty unsourced =
      env_loop-append c namespace es (e ∷ []) mode
      ∙ ap (λ (k : Mode → M Mode). env_loop c namespace es mode >>= k)
          (fun_ext λ m. env_loop_one e m ∙ env_var_mode_empty e empty unsourced m)
      ∙ bind-pure (env_loop c namespace es mode)

  -- What a read of the ConfigMap `ref` answers after the calls `u`.
  abbrev get_call : EnvSource → Call
  get_call ref = Call.get_config_map (in_namespace c namespace ref.name)

  abbrev pub Reads : EnvSource → Trace → ConfigMap → Type 0
  Reads ref u cm = c.config_map_at (get_call ref ∷ u) (in_namespace c namespace ref.name) ≡ ok cm

  config_map_ref_run :
      (prefix : String) (ref : EnvSource) (u : Trace) (cm : ConfigMap)
      → Reads ref u cm
      → get_db_mode_from_config_map_ref c namespace prefix ref u
        ≡ (ok (config_map_mode prefix cm), get_call ref ∷ u)
  unfolding get_db_mode_from_config_map_ref ◌>>=◌ wrapping request continue pure
  config_map_ref_run prefix ref u cm read = rw read

  env_from_mode_run :
      (e : EnvFromSource) (ref : EnvSource) (u : Trace) (cm : ConfigMap) (mode : Mode)
      → starts_with env_var_kong_database e.prefix ≡ true
      → e.config_map_ref ≡ some ref
      → e.secret_ref ≡ none
      → Reads ref u cm
      → env_from_mode c namespace e mode u ≡ (ok (config_map_mode e.prefix cm), get_call ref ∷ u)
  unfolding env_from_mode
  env_from_mode_run e ref u cm mode matching mapped secretless read =
      rw (matching, mapped, secretless)
        (ap (λ (m : M Mode). m u)
            (bind-pure (get_db_mode_from_config_map_ref c namespace e.prefix ref))
          ∙ config_map_ref_run e.prefix ref u cm read)

  env_from_loop_run :
      (before : List EnvFromSource) (e : EnvFromSource) (ref : EnvSource) (t u : Trace)
      (cm : ConfigMap) (mode : Mode)
      → starts_with env_var_kong_database e.prefix ≡ true
      → e.config_map_ref ≡ some ref
      → e.secret_ref ≡ none
      → Reads ref u cm
      → env_from_loop c namespace before ("", false) t ≡ (ok mode, u)
      → env_from_loop c namespace (before ++ (e ∷ [])) ("", false) t
        ≡ (ok (config_map_mode e.prefix cm), get_call ref ∷ u)
  env_from_loop_run before e ref t u cm mode matching mapped secretless read run =
      ap (λ (m : M Mode). m t) (env_from_loop-append c namespace before (e ∷ []) ("", false))
      ∙ bind_step (env_from_loop c namespace before ("", false))
          (env_from_loop c namespace (e ∷ [])) run
      ∙ ap (λ (m : M Mode). m u) (env_from_loop_one e mode)
      ∙ env_from_mode_run e ref u cm mode matching mapped secretless read

  check_empty : (t : Trace) → check_db_mode c namespace "" t ≡ (ok tt, t)
  unfolding check_db_mode pure
  check_empty t = refl

  -- If no variable has the database's name, and the last source is a ConfigMap whose prefix fits
  -- the database's name and which, read after the sources before it, does not hold the database
  -- mode, then the options are accepted, whatever mode the sources before it have set.
  pub last_source_resets :
      (before : List EnvFromSource) (e : EnvFromSource) (ref : EnvSource) (opts : DeploymentOptions)
      (t u : Trace) (cm : ConfigMap) (mode : Mode)
      → OtherNames c namespace opts.env
      → opts.env_from ≡ before ++ (e ∷ [])
      → starts_with env_var_kong_database e.prefix ≡ true
      → e.config_map_ref ≡ some ref
      → e.secret_ref ≡ none
      → Reads ref u cm
      → config_map_mode e.prefix cm ≡ ("", false)
      → env_from_loop c namespace before ("", false) t ≡ (ok mode, u)
      → validate_deploy_options c namespace opts t ≡ (ok tt, get_call ref ∷ u)
  unfolding validate_deploy_options get_db_mode_from_env get_db_mode_from_env_from
  last_source_resets before e ref opts t u cm mode silent split matching mapped secretless read
        lacks run =
      rw (env_loop_others c namespace opts.env ("", false) silent, pure-bind, split)
        (bind_run (env_from_loop c namespace (before ++ (e ∷ [])) ("", false))
          (λ m. check_db_mode c namespace m.0)
          (env_from_loop_run before e ref t u cm mode matching mapped secretless read run
            ∙ ap (λ (m : Mode). (ok m, get_call ref ∷ u)) lacks)
          (check_empty (get_call ref ∷ u)))
