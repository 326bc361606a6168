-- ===== src/Validation/Reads.antt =====
-- Which calls the check of the database mode makes.
use gateway_operator.Prelude.{String, Option, none, some, List, [], ◌∷◌}
use gateway_operator.Api.Meta.{NamespacedName}
use gateway_operator.Api.Env.{EnvVar, EnvFromSource, EnvVarSource, KeySelector, EnvSource}
use gateway_operator.Api.Resources.{DeploymentOptions}
use gateway_operator.Client.{Client, Call, M, pure, Trace}
use gateway_operator.Client.Keeps.{Keeps, Extends, keeps_rules, Keeps-pure, Keeps-bind}
use gateway_operator.Validation.{
  Mode, from_ref, get_value_from_config_map_key_ref, validate_deploy_options, source_mode,
  get_value_from_secret_ref, get_db_mode_from_config_map_ref, get_db_mode_from_secret_ref,
  env_var_mode, env_loop, env_from_mode, env_from_loop, check_db_mode, get_db_mode_from_env,
  get_db_mode_from_env_from,
}

module _ {P : Trace → Call → Type 0} {u : Trace}
    (maps : (n : NamespacedName) (t : Trace) → Extends t u → P t (Call.get_config_map n))
    (secrets : (n : NamespacedName) (t : Trace) → Extends t u → P t (Call.get_secret n))
    (c : Client) (namespace : String) where
  from_ref-Keeps :
      {R : Type 0} (get : R → M Mode) (ref : Option R) (mode : Mode)
      → ((r : R) → Keeps u P (get r))
      → Keeps u P (from_ref c namespace get ref mode)
  from_ref-Keeps get none mode k = Keeps-pure mode
  from_ref-Keeps get (some ref) mode k = k ref

  config_map_key_ref-Keeps :
      (ref : KeySelector) → Keeps u P (get_value_from_config_map_key_ref c namespace ref)
  unfolding get_value_from_config_map_key_ref
  config_map_key_ref-Keeps ref = search (keeps_rules, maps)

  secret_key_ref-Keeps : (ref : KeySelector) → Keeps u P (get_value_from_secret_ref c namespace ref)
  unfolding get_value_from_secret_ref
  secret_key_ref-Keeps ref = search (keeps_rules, secrets)

  config_map_ref-Keeps :
      (prefix : String) (ref : EnvSource)
      → Keeps u P (get_db_mode_from_config_map_ref c namespace prefix ref)
  unfolding get_db_mode_from_config_map_ref
  config_map_ref-Keeps prefix ref = search (keeps_rules, maps)

  secret_ref-Keeps :
      (prefix : String) (ref : EnvSource)
      → Keeps u P (get_db_mode_from_secret_ref c namespace prefix ref)
  unfolding get_db_mode_from_secret_ref
  secret_ref-Keeps prefix ref = search (keeps_rules, secrets)

  ruleset mode_rules = (
    keeps_rules, from_ref-Keeps, config_map_key_ref-Keeps, secret_key_ref-Keeps,
    config_map_ref-Keeps, secret_ref-Keeps,
  )

  source-Keeps :
      (source : Option EnvVarSource) (mode : Mode) → Keeps u P (source_mode c namespace source mode)
  unfolding source_mode pure
  source-Keeps none mode = Keeps-pure mode
  source-Keeps (some source) mode = search mode_rules

  env_var-Keeps : (e : EnvVar) (mode : Mode) → Keeps u P (env_var_mode c namespace e mode)
  unfolding env_var_mode
  env_var-Keeps e mode = search (mode_rules, source-Keeps)

  env_loop-Keeps : (es : List EnvVar) (mode : Mode) → Keeps u P (env_loop c namespace es mode)
  unfolding env_loop
  env_loop-Keeps [] mode = Keeps-pure mode
  env_loop-Keeps (e ∷ es) mode =
      Keeps-bind (env_var_mode c namespace e mode) (env_loop c namespace es) (env_var-Keeps e mode)
        (env_loop-Keeps es)

  env_from-Keeps : (e : EnvFromSource) (mode : Mode) → Keeps u P (env_from_mode c namespace e mode)
  unfolding env_from_mode
  env_from-Keeps e mode = search mode_rules

  env_from_loop-Keeps :
      (es : List EnvFromSource) (mode : Mode) → Keeps u P (env_from_loop c namespace es mode)
  unfolding env_from_loop
  env_from_loop-Keeps [] mode = Keeps-pure mode
  env_from_loop-Keeps (e ∷ es) mode =
      Keeps-bind (env_from_mode c namespace e mode) (env_from_loop c namespace es)
        (env_from-Keeps e mode) (env_from_loop-Keeps es)

  check_db_mode-Keeps : (mode : String) → Keeps u P (check_db_mode c namespace mode)
  unfolding check_db_mode
  check_db_mode-Keeps mode = search keeps_rules

  pub validate_deploy_options-Keeps :
      (opts : DeploymentOptions) → Keeps u P (validate_deploy_options c namespace opts)
  unfolding validate_deploy_options get_db_mode_from_env get_db_mode_from_env_from
  validate_deploy_options-Keeps opts =
      search (keeps_rules, env_loop-Keeps, env_from_loop-Keeps, check_db_mode-Keeps)
