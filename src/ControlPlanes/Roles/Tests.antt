-- ===== src/ControlPlanes/Roles/Tests.antt =====
-- Versions and roles of images.
use gateway_operator.Prelude.{
  ◌≡◌, String, refl, ℕ, ◌<>◌, true, some, none, ◌==◌, string_eq, nat_eq, if◌then◌else◌, ◌∷◌,
}
use gateway_operator.Errors.{ok}
use gateway_operator.Api.Meta.{empty_meta}
use gateway_operator.ControlPlanes.RoleRules.Ge22Lt23.{rules_ge2_2_lt2_3}
use gateway_operator.ControlPlanes.RoleRules.Ge23Lt24.{rules_ge2_3_lt2_4}
use gateway_operator.ControlPlanes.RoleRules.Ge24.{rules_ge2_4}
use gateway_operator.ControlPlanes.RoleRules.Ge21Lt22.{rules_ge2_1_lt2_2}
use gateway_operator.ControlPlanes.Roles.{
  Semver, role_version, latest_version, generate_new_cluster_role_for_control_plane, select_rules,
  [],
}
use gateway_operator.ControlPlanes.Roles.Tags.{colons, role_version_lem}
use gateway_operator.ControlPlanes.Roles.Permissions.{
  ReadsSecrets, permits, cluster_role-ReadsSecrets, later_roles_permit,
}

-- Every version is in every range.
abbrev any_version : Semver
any_version = record {
  Version = Unit {0};
  Constraints = Unit {0};
  new_version = λ v. ok tt;
  new_constraint = λ r. ok tt;
  check = λ r v. true;
}

role_version_lem_example : role_version (some ("localhost" <> ":" <> "5000/kong:2.1")) ≡ (
    if ◌==◌ {T = ℕ} (colons "5000/kong:2.1") 0
    then (if ◌==◌ {T = String} "5000/kong:2.1" "latest" then latest_version else "5000/kong:2.1")
    else latest_version)
unfolding colons
role_version_lem_example = role_version_lem "localhost" "5000/kong:2.1" refl

cluster_role-ReadsSecrets_example : ReadsSecrets rules_ge2_1_lt2_2
unfolding generate_new_cluster_role_for_control_plane select_rules
cluster_role-ReadsSecrets_example =
    cluster_role-ReadsSecrets any_version "cp" none
      {role = record {
        metadata = record empty_meta { generate_name = "cp-"; labels = some (("app", "cp") ∷ []) };
        rules = rules_ge2_1_lt2_2;
      }}
      refl

later_roles_permit_example :
    (permits rules_ge2_2_lt2_3 "" "secrets" "list" ≡ true
      → permits rules_ge2_3_lt2_4 "" "secrets" "list" ≡ true)
    × (permits rules_ge2_3_lt2_4 "" "secrets" "list" ≡ true
        → permits rules_ge2_4 "" "secrets" "list" ≡ true)
later_roles_permit_example = later_roles_permit "" "secrets" "list"
