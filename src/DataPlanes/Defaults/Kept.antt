-- ===== src/DataPlanes/Defaults/Kept.antt =====
-- What SetDataPlaneDefaults keeps and adds.
use gateway_operator.Prelude.{
  ℕ, ◌+◌, String, ◌≡◌, ◌≢◌, refl, sym, ap, ◌∙◌, Bool, true, false, List, [], ◌∷◌, ◌++◌, ◌==◌,
  string_eq, arith, eq_iff, any_of, All, any_of-append, Bool-cases, inl, inr, if◌then◌else◌,
}
use gateway_operator.Api.Env.{EnvVar, env_var_eq}
use gateway_operator.Api.Resources.{DeploymentOptions}
use gateway_operator.DataPlanes.Defaults.{
  is_env_var_present, insert_sorted, sort_env, env_var, add_defaults, set_data_plane_defaults,
}

-- How often the variable is there.
abbrev pub count : EnvVar → List EnvVar → ℕ
count v [] = 0
count v (w ∷ ws) = (if v == w then 1 else 0) + count v ws

abbrev pub named : String → List EnvVar → Bool
named name = any_of (λ w. name == w.name)

count-append : (v : EnvVar) (xs ys : List EnvVar) → count v (xs ++ ys) ≡ count v xs + count v ys
count-append v [] ys = ground arith
count-append v (x ∷ xs) ys = ground (arith, count-append v xs ys)

count-insert_sorted :
    (v w : EnvVar) (ws : List EnvVar) → count v (insert_sorted w ws) ≡ count v (w ∷ ws)
unfolding insert_sorted
count-insert_sorted v w [] = refl
count-insert_sorted v w (x ∷ ws) = ground (arith, count-insert_sorted v w ws)

count-sort_env : (v : EnvVar) (vs : List EnvVar) → count v (sort_env vs) ≡ count v vs
unfolding sort_env
count-sort_env v [] = refl
count-sort_env v (w ∷ vs) =
    count-insert_sorted v w (sort_env vs) ∙ ground (arith, count-sort_env v vs)

named-insert_sorted :
    (n : String) (w : EnvVar) (ws : List EnvVar) → named n (insert_sorted w ws) ≡ named n (w ∷ ws)
unfolding insert_sorted
named-insert_sorted n w [] = refl
named-insert_sorted n w (x ∷ ws) = ground (arith, named-insert_sorted n w ws)

named-sort_env : (n : String) (vs : List EnvVar) → named n (sort_env vs) ≡ named n vs
unfolding sort_env
named-sort_env n [] = refl
named-sort_env n (w ∷ vs) =
    named-insert_sorted n w (sort_env vs) ∙ ground (arith, named-sort_env n vs)

-- one round of the loop
abbrev with_default : String × String → List EnvVar → List EnvVar
with_default kv env = if named kv.0 env then env else env ++ env_var kv ∷ []

with_default-count :
    (kv : String × String) (env : List EnvVar) (v : EnvVar)
    → named v.name env ≡ true
    → count v (with_default kv env) ≡ count v env
with_default-count kv env v h = elim (Bool-cases (named kv.0 env)) [
  | inl set ↦ rw set refl
  | inr unset ↦ rw unset (
      count-append v env (env_var kv ∷ [])
      ∙ rw (differs v kv (λ e. named_apart env e h unset)) (ground arith))
]
  where
    named_apart :
        {n m : String} (env : List EnvVar) → n ≡ m → named n env ≡ true → named m env ≡ false → ⊥
    named_apart env e h unset = ground (arith, sym h ∙ ap (λ (x : String). named x env) e ∙ unset)

    differs : (v : EnvVar) (kv : String × String) → v.name ≢ kv.0 → (v == env_var kv) ≡ false
    differs v kv n = ground (arith, eq_iff v.name kv.0)

with_default-named :
    (kv : String × String) (env : List EnvVar) (n : String)
    → named n env ≡ true
    → named n (with_default kv env) ≡ true
with_default-named kv env n h =
    ground (arith, any_of-append (λ w. n == w.name) env (env_var kv ∷ []))

with_default-adds :
    (kv : String × String) (env : List EnvVar) → named kv.0 (with_default kv env) ≡ true
with_default-adds kv env =
    ground (arith, any_of-append (λ w. kv.0 == w.name) env (env_var kv ∷ []), eq_iff kv.0 kv.0)

add_defaults-count :
    (order : List (String × String)) (env : List EnvVar) (v : EnvVar)
    → named v.name env ≡ true
    → count v (add_defaults order env) ≡ count v env
unfolding add_defaults is_env_var_present
add_defaults-count [] env v h = refl
add_defaults-count (kv ∷ order) env v h =
    add_defaults-count order (with_default kv env) v (with_default-named kv env v.name h)
    ∙ with_default-count kv env v h

add_defaults-named :
    (order : List (String × String)) (env : List EnvVar) (n : String)
    → named n env ≡ true
    → named n (add_defaults order env) ≡ true
unfolding add_defaults is_env_var_present
add_defaults-named [] env n h = h
add_defaults-named (kv ∷ order) env n h =
    add_defaults-named order (with_default kv env) n (with_default-named kv env n h)

add_defaults_complete :
    (order : List (String × String)) (env : List EnvVar)
    → All (λ kv. named kv.0 (add_defaults order env) ≡ true) order
unfolding add_defaults is_env_var_present
add_defaults_complete [] env = tt
add_defaults_complete (kv ∷ order) env = (
  add_defaults-named order (with_default kv env) kv.0 (with_default-adds kv env),
  add_defaults_complete order (with_default kv env),
)

-- No variable is overridden: of each variable whose name the options already set, they have as many
-- copies as before, whatever the order in which the defaults come.
pub set_defaults-count :
    (order : List (String × String)) (opts : DeploymentOptions) (v : EnvVar)
    → is_env_var_present v opts.env ≡ true
    → count v (set_data_plane_defaults order opts).env ≡ count v opts.env
unfolding set_data_plane_defaults is_env_var_present
set_defaults-count order opts v h =
    count-sort_env v (add_defaults order opts.env) ∙ add_defaults-count order opts.env v h

All-map :
    {A : Type 0} {P Q : A → Type 0} → ((a : A) → P a → Q a) → (xs : List A) → All P xs → All Q xs
All-map f [] h = tt
All-map f (x ∷ xs) h = (f x h.0, All-map f xs h.1)

-- Every default is set: afterwards each name of the defaults is a variable's.
pub set_defaults_complete :
    (order : List (String × String)) (opts : DeploymentOptions)
    → All
        (λ kv. is_env_var_present (env_var kv) (set_data_plane_defaults order opts).env ≡ true)
        order
unfolding set_data_plane_defaults is_env_var_present
set_defaults_complete order opts =
    All-map (λ kv h. named-sort_env kv.0 (add_defaults order opts.env) ∙ h) order
      (add_defaults_complete order opts.env)
