-- ===== src/ControlPlanes/Env/Values.antt =====
-- What the operations on an environment do to the values found by name.
use gateway_operator.Prelude.{
  String, ◌≡◌, ◌≢◌, Bool, any_of, Bool-cases, inl, inr, false, none, some, List, [], ◌∷◌, ◌==◌,
  string_eq, arith, eq_iff, if◌then◌else◌,
}
use gateway_operator.Api.Env.{EnvVar, EnvVarSource, env_var_source_eq}
use gateway_operator.ControlPlanes.Env.{
  env_value_by_name, env_var_source_by_name, reject_env_by_name, update_env, update_env_source,
  Progress, ensure_value, ensure_rejected,
}

-- A variable that is set is found with its value, and every other one as before.
pub value-update_env :
    (env : List EnvVar) (name value n : String)
    → env_value_by_name (update_env env name value) n
      ≡ (if name == n then value else env_value_by_name env n)
unfolding env_value_by_name update_env
value-update_env [] name value n = ground arith
value-update_env (v ∷ env) name value n =
    ground
      (arith, eq_iff v.name name, eq_iff v.name n, eq_iff name n, value-update_env env name value n)

pub source-update_env :
    (env : List EnvVar) (name value n : String)
    → env_var_source_by_name (update_env env name value) n
      ≡ (if name == n then none else env_var_source_by_name env n)
unfolding env_var_source_by_name update_env
source-update_env [] name value n = ground arith
source-update_env (v ∷ env) name value n =
    ground (
      arith,
      eq_iff v.name name,
      eq_iff v.name n,
      eq_iff name n,
      source-update_env env name value n,
    )

pub value-update_env_source :
    (env : List EnvVar) (name : String) (source : EnvVarSource) (n : String)
    → env_value_by_name (update_env_source env name source) n
      ≡ (if name == n then "" else env_value_by_name env n)
unfolding env_value_by_name update_env_source
value-update_env_source [] name source n = ground arith
value-update_env_source (v ∷ env) name source n = ground (
  arith,
  eq_iff v.name name,
  eq_iff v.name n,
  eq_iff name n,
  value-update_env_source env name source n,
)

pub source-update_env_source :
    (env : List EnvVar) (name : String) (source : EnvVarSource) (n : String)
    → env_var_source_by_name (update_env_source env name source) n
      ≡ (if name == n then some source else env_var_source_by_name env n)
unfolding env_var_source_by_name update_env_source
source-update_env_source [] name source n = ground arith
source-update_env_source (v ∷ env) name source n = ground (
  arith,
  eq_iff v.name name,
  eq_iff v.name n,
  eq_iff name n,
  source-update_env_source env name source n,
)

pub value-reject_env :
    (env : List EnvVar) (name n : String)
    → env_value_by_name (reject_env_by_name env name) n
      ≡ (if name == n then "" else env_value_by_name env n)
unfolding env_value_by_name reject_env_by_name
value-reject_env [] name n = ground arith
value-reject_env (v ∷ env) name n =
    ground (arith, eq_iff v.name name, eq_iff v.name n, eq_iff name n, value-reject_env env name n)

-- The value that a test-and-set leaves, and that it changes nothing where it reports no change.
pub value-ensure_value :
    (name value n : String) (p : Progress)
    → env_value_by_name (ensure_value name value p).0 n
      ≡ (if name == n then value else env_value_by_name p.0 n)
unfolding ensure_value
value-ensure_value name value n p = ground (
  arith,
  value-update_env p.0 name value n,
  eq_iff (env_value_by_name p.0 name) value,
  eq_iff name n,
)

pub ensure_value_kept :
    (name value : String) (p : Progress)
    → (ensure_value name value p).1 ≡ false
    → (p.1 ≡ false) × (ensure_value name value p ≡ p)
unfolding ensure_value
ensure_value_kept name value p h = ground (arith, h)

pub ensure_value_settled :
    (name value : String) (p : Progress)
    → env_value_by_name p.0 name ≡ value
    → ensure_value name value p ≡ p
unfolding ensure_value
ensure_value_settled name value p h = ground (arith, eq_iff (env_value_by_name p.0 name) value)

pub value-ensure_rejected :
    (name n : String) (p : Progress)
    → env_value_by_name (ensure_rejected name p).0 n
      ≡ (if name == n then "" else env_value_by_name p.0 n)
unfolding ensure_rejected
value-ensure_rejected name n p =
    ground
      (arith, value-reject_env p.0 name n, eq_iff (env_value_by_name p.0 name) "", eq_iff name n)

pub ensure_rejected_kept :
    (name : String) (p : Progress)
    → (ensure_rejected name p).1 ≡ false
    → (p.1 ≡ false) × (ensure_rejected name p ≡ p)
unfolding ensure_rejected
ensure_rejected_kept name p h = ground (arith, h)

pub ensure_rejected_settled :
    (name : String) (p : Progress) → env_value_by_name p.0 name ≡ "" → ensure_rejected name p ≡ p
unfolding ensure_rejected
ensure_rejected_settled name p h = ground (arith, eq_iff (env_value_by_name p.0 name) "")

-- The environment has a variable of the name, whatever its value and its source.
abbrev pub has_env : List EnvVar → String → Bool
has_env env n = any_of (λ v. v.name == n) env

has-reject_env :
    (env : List EnvVar) (name n : String)
    → has_env (reject_env_by_name env name) n ≡ (if name == n then false else has_env env n)
unfolding reject_env_by_name
has-reject_env [] name n = ground arith
has-reject_env (v ∷ env) name n =
    ground (arith, eq_iff v.name name, eq_iff v.name n, eq_iff name n, has-reject_env env name n)

-- A name that has a value is gone afterwards.
pub ensure_rejected_gone :
    (name : String) (p : Progress)
    → env_value_by_name p.0 name ≢ ""
    → has_env (ensure_rejected name p).0 name ≡ false
unfolding ensure_rejected
ensure_rejected_gone name p set = elim (Bool-cases (env_value_by_name p.0 name == "")) [
  | inl empty ↦ absurd (set ((eq_iff (env_value_by_name p.0 name) "").0 empty))
  | inr full ↦ rw full (ground (arith, has-reject_env p.0 name name, eq_iff name name))
]

-- What is gone stays so.
pub ensure_rejected_absent :
    (name : String) (p : Progress) (n : String)
    → has_env p.0 n ≡ false
    → has_env (ensure_rejected name p).0 n ≡ false
unfolding ensure_rejected
ensure_rejected_absent name p n h = elim (Bool-cases (env_value_by_name p.0 name == "")) [
  | inl empty ↦ rw empty h
  | inr full ↦ rw full (ground (arith, has-reject_env p.0 name n, h))
]
