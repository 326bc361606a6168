-- ===== src/DataPlanes/Defaults/Valid.antt =====
-- The defaults of a data plane pass the check of its database mode.
use gateway_operator.Prelude.{
  ◌↔◌, Among, all_of-Among, All-Among, Among-All, all_of, any_of, not, ◌||◌, String, ◌≡◌, ◌≢◌, refl,
  sym, ap, ◌∙◌, Bool, true, false, List, [], ◌∷◌, ◌++◌, inl, inr, ◌==◌, string_eq, arith, eq_iff,
  All, All-append, if◌then◌else◌, Bool-cases,
}
use gateway_operator.Errors.{ok}
use gateway_operator.Api.Env.{EnvVar}
use gateway_operator.Api.Resources.{DeploymentOptions}
use gateway_operator.Client.{Client, Trace, M, pure, ◌>>=◌}
use gateway_operator.Client.Monad.{pure-bind}
use gateway_operator.Validation.{
  env_var_kong_database, Mode, env_var_mode, env_loop, validate_deploy_options, check_db_mode,
  get_db_mode_from_env, get_db_mode_from_env_from,
}
use gateway_operator.Validation.Laws.{
  OtherPrefixes, env_from_loop_others, env_var_mode_literal, env_var_mode_other,
}
use gateway_operator.DataPlanes.Defaults.Kept.{set_defaults_complete}
use gateway_operator.DataPlanes.Defaults.{
  kong_defaults, is_env_var_present, less, insert_sorted, sort_env, env_var, add_defaults,
  set_data_plane_defaults,
}

-- A variable that can only turn the database off.
abbrev pub DatabaseOff : EnvVar → Type 0
DatabaseOff v = v.name ≡ env_var_kong_database → v.value ≡ "off"

module _ (P : EnvVar → Type 0) where
  insert_step :
      (b : Bool) (v w : EnvVar) (vs rest : List EnvVar)
      → P v
      → All P (w ∷ vs)
      → All P rest
      → All P (if b then w ∷ rest else v ∷ w ∷ vs)
  insert_step true v w vs rest p h k = (h.0, k)
  insert_step false v w vs rest p h k = (p, h)

  All-insert_sorted : (v : EnvVar) (vs : List EnvVar) → P v → All P vs → All P (insert_sorted v vs)
  unfolding insert_sorted
  All-insert_sorted v [] p h = (p, tt)
  All-insert_sorted v (w ∷ vs) p h =
      insert_step (less w v) v w vs (insert_sorted v vs) p h (All-insert_sorted v vs p h.1)

  All-sort_env : (vs : List EnvVar) → All P vs → All P (sort_env vs)
  unfolding sort_env
  All-sort_env [] h = tt
  All-sort_env (v ∷ vs) h = All-insert_sorted v (sort_env vs) h.0 (All-sort_env vs h.1)

  All-with_default :
      (b : Bool) (v : EnvVar) (env : List EnvVar)
      → P v
      → All P env
      → All P (if b then env else env ++ v ∷ [])
  All-with_default true v env p h = h
  All-with_default false v env p h = All-append P env (v ∷ []) h (p, tt)

  All-add_defaults :
      (order : List (String × String)) (env : List EnvVar)
      → All (λ kv. P (env_var kv)) order
      → All P env
      → All P (add_defaults order env)
  unfolding add_defaults
  All-add_defaults [] env p h = h
  All-add_defaults (kv ∷ order) env p h =
      All-add_defaults order _ p.1
        (All-with_default (is_env_var_present (env_var kv) env) (env_var kv) env p.0 h)

-- The entries of the map of defaults, in whatever order.
abbrev pub IsOrderOfDefaults : List (String × String) → Type 0
IsOrderOfDefaults order = (kv : String × String) → Among kv order ↔ Among kv kong_defaults

entry_off : String × String → Bool
entry_off kv = not (kv.0 == env_var_kong_database) || kv.1 == "off"

kong_defaults_off : all_of entry_off kong_defaults ≡ true
unfolding entry_off
kong_defaults_off = refl

entry-DatabaseOff : (kv : String × String) → entry_off kv ≡ true → DatabaseOff (env_var kv)
unfolding entry_off
entry-DatabaseOff kv h named =
    ground (arith, h, named, eq_iff kv.0 env_var_kong_database, eq_iff kv.1 "off")

pub order-DatabaseOff :
    (order : List (String × String))
    → IsOrderOfDefaults order
    → All (λ kv. DatabaseOff (env_var kv)) order
order-DatabaseOff order is =
    Among-All (λ kv. DatabaseOff (env_var kv)) order
      (λ kv m.
        entry-DatabaseOff kv
          (all_of-Among entry_off kv kong_defaults kong_defaults_off ((is kv).0 m)))

-- Once the defaults are set the mode is: a variable has the database's name, and each of that name
-- says "off" if it did so before.
pub defaults_set_mode :
    (order : List (String × String)) (opts : DeploymentOptions)
    → IsOrderOfDefaults order
    → All DatabaseOff opts.env
    → (any_of (λ w. env_var_kong_database == w.name) (set_data_plane_defaults order opts).env
        ≡ true)
      × All DatabaseOff (set_data_plane_defaults order opts).env
unfolding set_data_plane_defaults is_env_var_present
defaults_set_mode order opts is set = (
  All-Among (λ kv. is_env_var_present (env_var kv) (set_data_plane_defaults order opts).env ≡ true)
      (env_var_kong_database, "off") order (set_defaults_complete order opts)
      ((is (env_var_kong_database, "off")).1 database_default),
  All-sort_env DatabaseOff (add_defaults order opts.env)
      (All-add_defaults DatabaseOff order opts.env (order-DatabaseOff order is) set),
)
  where
    database_default : Among (env_var_kong_database, "off") kong_defaults
    database_default = inr (inr (inr (inr (inr (inl refl)))))

-- a mode that the check lets pass
abbrev off_or_none : Bool → Mode
off_or_none true = ("off", true)
off_or_none false = ("", false)

module _ (c : Client) (namespace : String) where
  off_is_full : {s : String} → s ≡ "off" → s ≢ ""
  off_is_full h e = ground (arith, eq_iff "off" "", sym h ∙ e)

  env_var_mode_off :
      (v : EnvVar) (b : Bool)
      → DatabaseOff v
      → env_var_mode c namespace v (off_or_none b)
        ≡ pure (off_or_none (if v.name == env_var_kong_database then true else b))
  env_var_mode_off v b off = elim (Bool-cases (v.name == env_var_kong_database)) [
    | inl named ↦
        let e = (eq_iff v.name env_var_kong_database).0 named in
        rw named (
          env_var_mode_literal c namespace v (off_or_none b) e (off_is_full (off e))
          ∙ ap (λ (s : String). pure (s, true)) (off e))
    | inr other ↦ rw other (
        env_var_mode_other c namespace v (off_or_none b)
          (λ e. ground (arith, other, eq_iff v.name env_var_kong_database, e)))
  ]

  env_loop_off :
      (vs : List EnvVar) (b : Bool)
      → All DatabaseOff vs
      → (b' : Bool) × (env_loop c namespace vs (off_or_none b) ≡ pure (off_or_none b'))
  unfolding env_loop
  env_loop_off [] b h = (b, refl)
  env_loop_off (v ∷ vs) b h =
      let b1 = (if v.name == env_var_kong_database then true else b) in
      let rest = env_loop_off vs b1 h.1 in
      (
        rest.0,
        ap (λ (m : M Mode). m >>= env_loop c namespace vs) (env_var_mode_off v b h.0)
            ∙ pure-bind (off_or_none b1) (env_loop c namespace vs)
            ∙ rest.1,
      )

  decided :
      (b : Bool) (opts : DeploymentOptions) (t : Trace)
      → env_loop c namespace opts.env ("", false) ≡ pure (off_or_none b)
      → OtherPrefixes c namespace opts.env_from
      → validate_deploy_options c namespace opts t ≡ (ok tt, t)
  unfolding validate_deploy_options get_db_mode_from_env get_db_mode_from_env_from
  decided true opts t h others = rw (h, pure-bind) (unfold check_db_mode pure in refl)
  decided false opts t h others =
      rw
        (h, pure-bind, env_from_loop_others c namespace opts.env_from ("", false) others, pure-bind)
        (unfold check_db_mode pure in refl)

  -- If no source can hold the database mode, and every variable with the database's name, among
  -- the defaults and among those that were set before, says "off", then the options with the
  -- defaults set, met in any order, are accepted without a call.
  pub defaults_validate :
      (order : List (String × String)) (opts : DeploymentOptions) (t : Trace)
      → All (λ kv. DatabaseOff (env_var kv)) order
      → All DatabaseOff opts.env
      → OtherPrefixes c namespace opts.env_from
      → validate_deploy_options c namespace (set_data_plane_defaults order opts) t ≡ (ok tt, t)
  unfolding set_data_plane_defaults
  defaults_validate order opts t defaults set others =
      let run = env_loop_off (sort_env (add_defaults order opts.env)) false (
        All-sort_env DatabaseOff (add_defaults order opts.env)
          (All-add_defaults DatabaseOff order opts.env defaults set)) in
      decided run.0 (set_data_plane_defaults order opts) t run.1 others
