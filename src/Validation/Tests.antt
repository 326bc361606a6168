-- ===== src/Validation/Tests.antt =====
-- The check of the database mode at concrete options.
use gateway_operator.Prelude.{
  String, ◌≡◌, ◌↔◌, refl, true, false, none, some, [], ◌∷◌, ◌++◌, arith, eq_iff,
}
use gateway_operator.Prelude.Labels.{lookup}
use gateway_operator.Errors.{ok}
use gateway_operator.Api.Env.{EnvFromSource, EnvSource}
use gateway_operator.Api.Meta.{empty_meta}
use gateway_operator.Api.Resources.{DeploymentOptions, empty_options}
use gateway_operator.Client.{Client, Call, pure, request, wrapping, ◌>>=◌}
use gateway_operator.Validation.{env_loop, env_from_loop, validate_deploy_options, config_map_mode}
use gateway_operator.Validation.Laws.{last_literal_iff}
use gateway_operator.Validation.Shadowing.{empty_value_ignored, last_source_resets}
use gateway_operator.Samples.{offline, literal}

abbrev postgres_then_off : DeploymentOptions
postgres_then_off = record empty_options {
  env = literal "KONG_DATABASE" "postgres" ∷ literal "KONG_DATABASE" "off" ∷ [];
}

last_literal_iff_example :
    ((validate_deploy_options offline "default" postgres_then_off []).0 ≡ ok tt)
    ↔ ((literal "KONG_DATABASE" "off").value ≡ "off")
unfolding env_loop pure ◌>>=◌
last_literal_iff_example =
    last_literal_iff offline "default" (literal "KONG_DATABASE" "postgres" ∷ []) []
      (literal "KONG_DATABASE" "off") postgres_then_off [] [] {mode = ("postgres", true)} refl refl
      (λ e. ground (arith, eq_iff "off" "", e)) tt refl

empty_value_ignored_example :
    env_loop offline "default"
      ((literal "KONG_DATABASE" "postgres" ∷ []) ++ (literal "KONG_DATABASE" "" ∷ []))
      ("", false)
    ≡ env_loop offline "default" (literal "KONG_DATABASE" "postgres" ∷ []) ("", false)
empty_value_ignored_example =
    empty_value_ignored offline "default" (literal "KONG_DATABASE" "postgres" ∷ [])
      (literal "KONG_DATABASE" "") ("", false) refl refl

-- Two ConfigMaps: the first says "postgres", and the second nothing of the database.
abbrev maps : Client
maps = record offline {
  config_map_at = λ t n. ok (record {
    metadata = empty_meta;
    contents = some (elim t [
      | [] ↦ []
      | _ ∷ before ↦ elim before [ [] ↦ ("DATABASE", "postgres") ∷ [] | _ ∷ _ ↦ [] ]
    ]);
  });
}

abbrev source : String → EnvFromSource
source name = record {
  prefix = "KONG_";
  config_map_ref = some (record { name = name; optional = none });
  secret_ref = none;
}

abbrev ref : String → EnvSource
ref name = record { name = name; optional = none }

abbrev two_sources : DeploymentOptions
two_sources = record empty_options { env_from = source "first" ∷ source "second" ∷ [] }

abbrev call_for : String → Call
call_for name = Call.get_config_map (record { namespace = "default"; name = name })

last_source_resets_example :
    validate_deploy_options maps "default" two_sources []
    ≡ (ok tt, call_for "second" ∷ call_for "first" ∷ [])
unfolding env_from_loop config_map_mode pure lookup ◌>>=◌ wrapping request
last_source_resets_example =
    last_source_resets maps "default" (source "first" ∷ []) (source "second") (ref "second")
      two_sources [] (call_for "first" ∷ []) (record { metadata = empty_meta; contents = some [] })
      ("postgres", true) tt refl refl refl refl refl refl refl
