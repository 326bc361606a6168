-- ===== src/Validation.antt =====
-- internal/validation/dataplane/validation.go: which database backend a data plane is told to use,
-- and the check that it is none. The handler of internal/admission calls it too.
pub mod Laws
pub mod Reads
pub mod Shadowing
mod Tests
use Prim.Native.String.{slice, len}
use gateway_operator.Prelude.{
  String, ◌<>◌, Bool, true, false, not, ◌&&◌, Option, none, some, List, [], ◌∷◌, ◌==◌, string_eq,
  starts_with, if◌then◌else◌,
}
use gateway_operator.Prelude.Labels.{lookup}
use gateway_operator.Base64.{std_decode, raw_std_decode}
use gateway_operator.Errors.{message}
use gateway_operator.Api.Meta.{NamespacedName}
use gateway_operator.Api.Env.{EnvVar, EnvFromSource, EnvVarSource, KeySelector, EnvSource}
use gateway_operator.Api.Workloads.{ConfigMap, Secret}
use gateway_operator.Api.Resources.{DataPlane, DeploymentOptions}
use gateway_operator.Client.{Client, M, pure, raise, wrapping, ◌>>=◌}
use gateway_operator.Client.Calls

-- consts.EnvVarKongDatabase
abbrev pub env_var_kong_database : String
env_var_kong_database = "KONG_DATABASE"

-- The mode and whether it was found: `dbMode, dbModeFound`.
abbrev pub Mode : Type 0
Mode = String × Bool

-- strings.TrimPrefix
unfoldable pub trim_prefix : String → String → String
trim_prefix s prefix = if starts_with s prefix then slice s (len prefix) (len s) else s

-- `m[key]` of a map of texts: missing is "".
abbrev pub value_or_empty : Option String → String
value_or_empty none = ""
value_or_empty (some v) = v

unfoldable pub config_map_key_mode : ConfigMap → String → Mode
config_map_key_mode cm key = elim cm.contents [
  | none ↦ ("", false)
  | some m ↦
      let v = value_or_empty (lookup key m) in if not (v == "") then (v, true) else ("", false)
]

abbrev decoded_mode : Option String → Mode
decoded_mode none = ("", false)
decoded_mode (some v) = (v, true)

unfoldable pub secret_key_mode : Secret → String → Mode
secret_key_mode secret key = elim secret.contents [
  | none ↦ ("", false)
  | some m ↦
      let v = value_or_empty (lookup key m) in
      if not (v == "") then decoded_mode (std_decode v) else ("", false)
]

unfoldable pub config_map_mode : String → ConfigMap → Mode
unfolding trim_prefix
config_map_mode prefix cm = elim cm.contents [
  | none ↦ ("", false)
  | some m ↦ decoded_mode (lookup (trim_prefix env_var_kong_database prefix) m)
]

unfoldable pub secret_mode : String → Secret → Mode
unfolding trim_prefix
secret_mode prefix secret = elim secret.contents [
  | none ↦ ("", false)
  | some m ↦ elim (lookup (trim_prefix env_var_kong_database prefix) m) [
    | none ↦ ("", false)
    | some v ↦ decoded_mode (raw_std_decode v)
  ]
]

module _ (c : Client) (namespace : String) where
  abbrev in_namespace : String → NamespacedName
  in_namespace name = record { namespace = namespace; name = name }

  unfoldable pub get_value_from_config_map_key_ref : KeySelector → M Mode
  get_value_from_config_map_key_ref ref = do
    cm ←
        wrapping ("failed to get configMap " <> ref.name <> " in configMapKeyRef: ")
          (Calls.get_config_map c (in_namespace ref.name))
    pure (config_map_key_mode cm ref.key)

  unfoldable pub get_value_from_secret_ref : KeySelector → M Mode
  get_value_from_secret_ref ref = do
    secret ←
        wrapping ("failed to get secret " <> ref.name <> " in secretRef: ")
          (Calls.get_secret c (in_namespace ref.name))
    pure (secret_key_mode secret ref.key)

  unfoldable pub get_db_mode_from_config_map_ref : String → EnvSource → M Mode
  get_db_mode_from_config_map_ref prefix ref = do
    cm ←
        wrapping ("failed to get configMap " <> ref.name <> " in configMapRef: ")
          (Calls.get_config_map c (in_namespace ref.name))
    pure (config_map_mode prefix cm)

  unfoldable pub get_db_mode_from_secret_ref : String → EnvSource → M Mode
  get_db_mode_from_secret_ref prefix ref = do
    secret ←
        wrapping ("failed to get secret " <> c.secret_ref_text ref <> " in secretRef: ")
          (Calls.get_secret c (in_namespace ref.name))
    pure (secret_mode prefix secret)

  -- `if ref != nil { mode = … }`
  abbrev from_ref : {R : Type 0} → (R → M Mode) → Option R → Mode → M Mode
  from_ref get none mode = pure mode
  from_ref get (some ref) mode = get ref

  -- The value is empty: look at `ValueFrom`.
  unfoldable pub source_mode : Option EnvVarSource → Mode → M Mode
  unfolding get_value_from_config_map_key_ref get_value_from_secret_ref
  source_mode none mode = pure mode
  source_mode (some source) mode = do
    mode' ← from_ref get_value_from_config_map_key_ref source.config_map_key_ref mode
    from_ref get_value_from_secret_ref source.secret_key_ref mode'

  -- One round of the loop of getDBModeFromEnv.
  unfoldable pub env_var_mode : EnvVar → Mode → M Mode
  unfolding source_mode
  env_var_mode e mode =
      if not (e.name == env_var_kong_database)
      then pure mode
      else if not (e.value == "")
      then pure (e.value, true)
      else source_mode e.value_from mode

  unfoldable pub env_loop : List EnvVar → Mode → M Mode
  unfolding env_var_mode
  env_loop [] mode = pure mode
  env_loop (e ∷ es) mode = do mode' ← env_var_mode e mode; env_loop es mode'

  unfoldable pub get_db_mode_from_env : List EnvVar → M Mode
  unfolding env_loop
  get_db_mode_from_env envs = env_loop envs ("", false)

  -- One round of the loop of getDBModeFromEnvFrom.
  unfoldable pub env_from_mode : EnvFromSource → Mode → M Mode
  unfolding get_db_mode_from_config_map_ref get_db_mode_from_secret_ref
  env_from_mode e mode =
      if starts_with env_var_kong_database e.prefix
      then (do
        mode' ← from_ref (get_db_mode_from_config_map_ref e.prefix) e.config_map_ref mode
        from_ref (get_db_mode_from_secret_ref e.prefix) e.secret_ref mode')
      else pure mode

  unfoldable pub env_from_loop : List EnvFromSource → Mode → M Mode
  unfolding env_from_mode
  env_from_loop [] mode = pure mode
  env_from_loop (e ∷ es) mode = do mode' ← env_from_mode e mode; env_from_loop es mode'

  unfoldable pub get_db_mode_from_env_from : List EnvFromSource → M Mode
  unfolding env_from_loop
  get_db_mode_from_env_from sources = env_from_loop sources ("", false)

  -- Only DB-less mode is supported.
  unfoldable pub check_db_mode : String → M (Unit {0})
  check_db_mode mode =
      if not (mode == "") && not (mode == "off")
      then raise (message ("database backend " <> mode <> " of dataplane not supported currently"))
      else pure tt

  unfoldable pub validate_deploy_options : DeploymentOptions → M (Unit {0})
  unfolding get_db_mode_from_env get_db_mode_from_env_from check_db_mode
  validate_deploy_options opts = do
    (mode, found) ← get_db_mode_from_env opts.env
    if found
        then check_db_mode mode
        else do (mode', _) ← get_db_mode_from_env_from opts.env_from; check_db_mode mode'

unfoldable pub validate : Client → DataPlane → M (Unit {0})
unfolding validate_deploy_options
validate c d = validate_deploy_options c d.metadata.namespace d.spec
