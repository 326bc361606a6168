-- ===== src/Validation/Laws.antt =====
-- What the check of the database mode accepts, and that it only reads.
use mathlib.Core.Path.{fun_ext}
use gateway_operator.Prelude.{
  ap, All, String, ◌≡◌, ◌≢◌, ◌↔◌, ◌⊎◌, refl, sym, true, false, List, [], ◌∷◌, ◌++◌, string_eq,
  eq_iff, arith, starts_with, ◌∙◌,
}
use gateway_operator.Errors.{ok}
use gateway_operator.Api.Env.{EnvVar, EnvFromSource}
use gateway_operator.Api.Resources.{DeploymentOptions}
use gateway_operator.Client.{Client, Trace, M, pure, raise, ◌>>=◌}
use gateway_operator.Client.Monad.{bind_step, pure-bind, bind_assoc}
use gateway_operator.Validation.{
  env_var_kong_database, Mode, env_var_mode, env_loop, env_from_mode, env_from_loop,
  get_db_mode_from_env, check_db_mode, validate_deploy_options,
}

module _ (c : Client) (namespace : String) where
  -- The mode that the check lets pass.
  abbrev pub IsDbless : String → Type 0
  IsDbless mode = (mode ≡ "") ⊎ (mode ≡ "off")

  pub check_db_mode_iff :
      (mode : String) (t : Trace) → ((check_db_mode c namespace mode t).0 ≡ ok tt) ↔ IsDbless mode
  unfolding check_db_mode pure raise
  check_db_mode_iff mode t = ground (arith, eq_iff mode "", eq_iff mode "off")

  pub env_loop-append :
      (xs ys : List EnvVar) (mode : Mode)
      → env_loop c namespace (xs ++ ys) mode
        ≡ (env_loop c namespace xs mode >>= env_loop c namespace ys)
  unfolding env_loop
  env_loop-append [] ys mode = sym (pure-bind mode (env_loop c namespace ys))
  env_loop-append (x ∷ xs) ys mode =
      ap (λ (k : Mode → M Mode). env_var_mode c namespace x mode >>= k)
        (fun_ext (env_loop-append xs ys))
      ∙ sym (
          bind_assoc (env_var_mode c namespace x mode) (env_loop c namespace xs)
            (env_loop c namespace ys))

  pub env_from_loop-append :
      (xs ys : List EnvFromSource) (mode : Mode)
      → env_from_loop c namespace (xs ++ ys) mode
        ≡ (env_from_loop c namespace xs mode >>= env_from_loop c namespace ys)
  unfolding env_from_loop
  env_from_loop-append [] ys mode = sym (pure-bind mode (env_from_loop c namespace ys))
  env_from_loop-append (x ∷ xs) ys mode =
      ap (λ (k : Mode → M Mode). env_from_mode c namespace x mode >>= k)
        (fun_ext (env_from_loop-append xs ys))
      ∙ sym (
          bind_assoc (env_from_mode c namespace x mode) (env_from_loop c namespace xs)
            (env_from_loop c namespace ys))

  -- No variable of these names the database.
  abbrev pub OtherNames : List EnvVar → Type 0
  OtherNames = All (λ e. e.name ≢ env_var_kong_database)

  -- None of these sources can hold the database: its prefix is no prefix of the name.
  abbrev pub OtherPrefixes : List EnvFromSource → Type 0
  OtherPrefixes = All (λ e. starts_with env_var_kong_database e.prefix ≡ false)

  pub env_var_mode_other :
      (e : EnvVar) (mode : Mode)
      → e.name ≢ env_var_kong_database
      → env_var_mode c namespace e mode ≡ pure mode
  unfolding env_var_mode
  env_var_mode_other e mode h = ground (arith, eq_iff e.name env_var_kong_database)

  pub env_var_mode_literal :
      (e : EnvVar) (mode : Mode)
      → e.name ≡ env_var_kong_database
      → e.value ≢ ""
      → env_var_mode c namespace e mode ≡ pure (e.value, true)
  unfolding env_var_mode
  env_var_mode_literal e mode h n =
      ground (arith, eq_iff e.name env_var_kong_database, eq_iff e.value "")

  pub env_loop_others :
      (es : List EnvVar) (mode : Mode) → OtherNames es → env_loop c namespace es mode ≡ pure mode
  unfolding env_loop
  env_loop_others [] mode h = refl
  env_loop_others (e ∷ es) mode h =
      ap (λ (m : M Mode). m >>= env_loop c namespace es) (env_var_mode_other e mode h.0)
      ∙ pure-bind mode (env_loop c namespace es)
      ∙ env_loop_others es mode h.1

  pub env_from_loop_others :
      (es : List EnvFromSource) (mode : Mode)
      → OtherPrefixes es
      → env_from_loop c namespace es mode ≡ pure mode
  unfolding env_from_loop env_from_mode
  env_from_loop_others [] mode h = refl
  env_from_loop_others (e ∷ es) mode h = rw (h.0, pure-bind) (env_from_loop_others es mode h.1)

  env_loop_literal :
      (e : EnvVar) (after : List EnvVar) (mode : Mode)
      → e.name ≡ env_var_kong_database
      → e.value ≢ ""
      → OtherNames after
      → env_loop c namespace (e ∷ after) mode ≡ pure (e.value, true)
  unfolding env_loop
  env_loop_literal e after mode named full others =
      ap (λ (m : M Mode). m >>= env_loop c namespace after) (env_var_mode_literal e mode named full)
      ∙ pure-bind (e.value, true) (env_loop c namespace after)
      ∙ env_loop_others after (e.value, true) others

  env_loop_decided :
      (before after : List EnvVar) (e : EnvVar) (t u : Trace) {mode : Mode}
      → e.name ≡ env_var_kong_database
      → e.value ≢ ""
      → OtherNames after
      → env_loop c namespace before ("", false) t ≡ (ok mode, u)
      → env_loop c namespace (before ++ (e ∷ after)) ("", false) t ≡ (ok (e.value, true), u)
  env_loop_decided before after e t u {mode} named full others run =
      ap (λ (m : M Mode). m t) (env_loop-append before (e ∷ after) ("", false))
      ∙ bind_step (env_loop c namespace before ("", false)) (env_loop c namespace (e ∷ after)) run
      ∙ ap (λ (m : M Mode). m u) (env_loop_literal e after mode named full others)
      ∙ unfold pure in refl

  -- The last literal value decides: if the variables before it can be read, a variable with the
  -- database's name and a value that is not empty, with none of that name behind it, leaves the
  -- verdict to its value, whatever the variables before it and the other sources say.
  pub last_literal_decides :
      (before after : List EnvVar) (e : EnvVar) (opts : DeploymentOptions) (t u : Trace)
      {mode : Mode}
      → opts.env ≡ before ++ (e ∷ after)
      → e.name ≡ env_var_kong_database
      → e.value ≢ ""
      → OtherNames after
      → env_loop c namespace before ("", false) t ≡ (ok mode, u)
      → validate_deploy_options c namespace opts t ≡ check_db_mode c namespace e.value u
  unfolding validate_deploy_options get_db_mode_from_env
  last_literal_decides before after e opts t u split named full others run = rw split (
      bind_step (env_loop c namespace (before ++ (e ∷ after)) ("", false)) _
        (env_loop_decided before after e t u named full others run))

  -- If the variables before it can be read, and a variable with the database's name and a value
  -- that is not empty has none of that name behind it, then the options are accepted exactly when
  -- its value is "off", whatever the variables before it and the other sources say.
  pub last_literal_iff :
      (before after : List EnvVar) (e : EnvVar) (opts : DeploymentOptions) (t u : Trace)
      {mode : Mode}
      → opts.env ≡ before ++ (e ∷ after)
      → e.name ≡ env_var_kong_database
      → e.value ≢ ""
      → OtherNames after
      → env_loop c namespace before ("", false) t ≡ (ok mode, u)
      → ((validate_deploy_options c namespace opts t).0 ≡ ok tt) ↔ (e.value ≡ "off")
  last_literal_iff before after e opts t u split named full others run =
      rw (last_literal_decides before after e opts t u split named full others run)
        (ground (arith, check_db_mode_iff e.value u))
