-- ===== src/ControlPlanes/Roles.antt =====
-- internal/utils/kubernetes/resources/zz_generated_clusterrole_helpers.go, internal/versions, and
-- ensureClusterRoleForControlPlane: the ClusterRole of a control plane, by the version in its image.
pub mod Tags
pub mod Permissions
mod Tests
use Prim.Native.Char.{code}
use gateway_operator.Prelude.{
  String, ◌<>◌, Bool, true, false, Option, none, some, List, [], ◌∷◌, ◌==◌, string_eq, nat_eq,
  if◌then◌else◌, at_most_one,
}
use gateway_operator.Errors.{Result, ok, err, message}
use gateway_operator.Errors
use gateway_operator.Metadata.{
  set_owner_for_object, add_label_for_control_plane, ensure_object_meta_is_updated,
  gateway_operator_controlled_label, control_plane_managed_label_value,
}
use gateway_operator.Lists.{list_cluster_roles_for_owner}
use gateway_operator.ControlPlanes.Owned.{too_many}
use gateway_operator.Client.{Client, M, pure, raise, lift, ◌>>=◌, ◌>>◌}
use gateway_operator.Client.Calls
use gateway_operator.Api.Meta.{empty_meta}
use gateway_operator.Api.Resources.{ControlPlane, control_plane_object}
use gateway_operator.Api.Workloads.{ClusterRole, PolicyRule}
use gateway_operator.ControlPlanes.RoleRules.Ge21Lt22.{rules_ge2_1_lt2_2}
use gateway_operator.ControlPlanes.RoleRules.Ge22Lt23.{rules_ge2_2_lt2_3}
use gateway_operator.ControlPlanes.RoleRules.Ge23Lt24.{rules_ge2_3_lt2_4}
use gateway_operator.ControlPlanes.RoleRules.Ge24.{rules_ge2_4}

-- github.com/Masterminds/semver.
pub record Semver : Type 1 where
  pub Version : Type 0
  pub Constraints : Type 0
  pub new_version : String → Result Version
  pub new_constraint : String → Result Constraints
  pub check : Constraints → Version → Bool

abbrev pub default_control_plane_tag : String
default_control_plane_tag = "2.5"

-- versions.Latest
abbrev pub latest_version : String
latest_version = "2.5.0"

-- A change of the first part.
onto_first : (String → String) → List String → List String
onto_first f [] = []
onto_first f (part ∷ parts) = f part ∷ parts

-- strings.Split(s, ":")
unfoldable pub split_colons : String → List String
unfolding onto_first
split_colons String.[] = "" ∷ []
split_colons (String.◌∷◌ c s) =
    let rest = split_colons s in
    if code c == b':' then "" ∷ rest else onto_first (String.◌∷◌ c) rest

-- The tag, unless there is none or it is "latest".
abbrev pub version_of_parts : List String → String
version_of_parts (repository ∷ tag ∷ []) = if tag == "latest" then latest_version else tag
version_of_parts _ = latest_version

-- The version whose role is wanted for an image.
unfoldable pub role_version : Option String → String
unfolding split_colons
role_version none = default_control_plane_tag
role_version (some image) =
    if image == "" then default_control_plane_tag else version_of_parts (split_colons image)

-- The ranges in the order in which they are tried.
abbrev pub role_table : List (String × List PolicyRule)
role_table =
    (">=2.1,<2.2", rules_ge2_1_lt2_2)
    ∷ (">=2.2,<2.3", rules_ge2_2_lt2_3)
    ∷ (">=2.3,<2.4", rules_ge2_3_lt2_4)
    ∷ (">=2.4", rules_ge2_4)
    ∷ []

module _ (s : Semver) where
  -- The first range that has the version.
  unfoldable pub select_rules :
      String → s.Version → List (String × List PolicyRule) → Result (List PolicyRule)
  select_rules version v [] = err (message ("version " <> version <> " not supported"))
  select_rules version v (entry ∷ rest) =
      let others = select_rules version v rest in
      Errors.◌>>=◌ (s.new_constraint entry.0)
        (λ constraint. if s.check constraint v then ok entry.1 else others)

  unfoldable pub generate_new_cluster_role_for_control_plane :
      String → Option String → Result ClusterRole
  unfolding role_version select_rules
  generate_new_cluster_role_for_control_plane name image =
      Errors.◌>>=◌ (s.new_version (role_version image)) (λ v.
        Errors.◌>>=◌ (select_rules (role_version image) v role_table) (λ rules. ok (record {
          metadata = record empty_meta {
            generate_name = name <> "-";
            labels = some (("app", name) ∷ []);
          };
          rules = rules;
        })))

module _ (c : Client) (s : Semver) where
  unfoldable pub update_owned_cluster_role : ClusterRole → ClusterRole → M (Bool × ClusterRole)
  unfolding ensure_object_meta_is_updated
  update_owned_cluster_role generated existing = do
    (updated, meta) ← lift (ensure_object_meta_is_updated existing.metadata generated.metadata)
    let role = record existing { metadata = meta }
    if updated
        then (do stored ← Calls.update_cluster_role c role; pure (true, stored))
        else pure (false, role)

  -- The message speaks of deployments.
  abbrev pub check_count : List ClusterRole → M (Unit {0})
  check_count [] = pure tt
  check_count (x ∷ []) = pure tt
  check_count (x ∷ y ∷ xs) = raise (too_many "deployments" (x ∷ y ∷ xs))

  -- The first of the existing ClusterRoles is updated.
  abbrev pub create_or_update : ClusterRole → List ClusterRole → M (Bool × ClusterRole)
  create_or_update generated [] = do
    stored ← Calls.create_cluster_role c generated
    pure (true, stored)
  create_or_update generated (existing ∷ _) = update_owned_cluster_role generated existing

  -- The generated ClusterRole, with its owner and its label.
  abbrev pub owned_cluster_role : ControlPlane → ClusterRole → ClusterRole
  owned_cluster_role p g = record g {
    metadata = add_label_for_control_plane (set_owner_for_object g.metadata p);
  }

  unfoldable pub ensure_cluster_role_for_control_plane : ControlPlane → M (Bool × ClusterRole)
  unfolding generate_new_cluster_role_for_control_plane update_owned_cluster_role
      set_owner_for_object add_label_for_control_plane
  ensure_cluster_role_for_control_plane p = do
    roles ←
        list_cluster_roles_for_owner c gateway_operator_controlled_label
          control_plane_managed_label_value p.metadata.uid
    check_count roles
    g ← lift (
        generate_new_cluster_role_for_control_plane s p.metadata.name
          p.spec.deployment.container_image)
    create_or_update (owned_cluster_role p g) roles
