-- ===== src/ControlPlanes/Roles/Permissions.antt =====
-- What the ClusterRole of a control plane permits, by the meaning of rules in Kubernetes.
use gateway_operator.Prelude.{
  String, ◌≡◌, ◌↔◌, Bool, true, ◌&&◌, ◌||◌, List, ◌==◌, string_eq, list_eq, any_of, arith, eq_iff,
  ◌⊎◌, All, Bool-cases, inl, inr, inr, all_of, ap, list_beq_iff, refl,
}
use gateway_operator.Api.Workloads.{PolicyRule, ClusterRole}
use gateway_operator.ControlPlanes.RoleRules.Ge21Lt22.{rules_ge2_1_lt2_2}
use gateway_operator.ControlPlanes.RoleRules.Ge22Lt23.{rules_ge2_2_lt2_3}
use gateway_operator.ControlPlanes.RoleRules.Ge23Lt24.{rules_ge2_3_lt2_4}
use gateway_operator.ControlPlanes.RoleRules.Ge24.{rules_ge2_4}
use gateway_operator.ControlPlanes.Roles.{
  Semver, generate_new_cluster_role_for_control_plane, select_rules, Option, ok, ◌∷◌, role_version,
  role_table, Result, [], err,
}
use gateway_operator.Errors.{bind_ok}
use mathlib.Core.Path.{subst}

-- An entry of a rule matches a name, or any.
abbrev covers : String → List String → Bool
covers name entries = any_of (λ entry. entry == name || entry == "*") entries

abbrev rule_permits : String → String → String → PolicyRule → Bool
rule_permits group resource verb rule =
    covers group rule.api_groups && covers resource rule.resources && covers verb rule.verbs

abbrev pub permits : List PolicyRule → String → String → String → Bool
permits rules group resource verb = any_of (rule_permits group resource verb) rules

-- Secrets can be listed and watched, and nothing else; their status can be read, patched and updated,
-- and nothing else.
abbrev pub ReadsSecrets : List PolicyRule → Type 0
ReadsSecrets rules =
    (verb : String)
    → ((permits rules "" "secrets" verb ≡ true) ↔ ((verb ≡ "list") ⊎ (verb ≡ "watch")))
      × ((permits rules "" "secrets/status" verb ≡ true)
          ↔ ((verb ≡ "get") ⊎ (verb ≡ "patch") ⊎ (verb ≡ "update")))

rules_ge2_1_lt2_2-ReadsSecrets : ReadsSecrets rules_ge2_1_lt2_2
rules_ge2_1_lt2_2-ReadsSecrets verb = (
  ground (arith, eq_iff "list" verb, eq_iff "watch" verb, eq_iff "*" verb),
  ground (arith, eq_iff "get" verb, eq_iff "patch" verb, eq_iff "update" verb, eq_iff "*" verb),
)

rules_ge2_2_lt2_3-ReadsSecrets : ReadsSecrets rules_ge2_2_lt2_3
rules_ge2_2_lt2_3-ReadsSecrets verb = (
  ground (arith, eq_iff "list" verb, eq_iff "watch" verb, eq_iff "*" verb),
  ground (arith, eq_iff "get" verb, eq_iff "patch" verb, eq_iff "update" verb, eq_iff "*" verb),
)

rules_ge2_3_lt2_4-ReadsSecrets : ReadsSecrets rules_ge2_3_lt2_4
rules_ge2_3_lt2_4-ReadsSecrets verb = (
  ground (arith, eq_iff "list" verb, eq_iff "watch" verb, eq_iff "*" verb),
  ground (arith, eq_iff "get" verb, eq_iff "patch" verb, eq_iff "update" verb, eq_iff "*" verb),
)

rules_ge2_4-ReadsSecrets : ReadsSecrets rules_ge2_4
rules_ge2_4-ReadsSecrets verb = (
  ground (arith, eq_iff "list" verb, eq_iff "watch" verb, eq_iff "*" verb),
  ground (arith, eq_iff "get" verb, eq_iff "patch" verb, eq_iff "update" verb, eq_iff "*" verb),
)

chosen : List PolicyRule → Result (List PolicyRule) → List PolicyRule
chosen rules (ok rs) = rs
chosen rules (err e) = rules

rules_of : List PolicyRule → Result ClusterRole → List PolicyRule
rules_of rules (ok role) = role.rules
rules_of rules (err e) = rules

module _ (s : Semver) where
  -- The selected rules are some of the table.
  select_rules-All :
      (P : List PolicyRule → Type 0) (version : String) (v : s.Version)
      (table : List (String × List PolicyRule)) {rules : List PolicyRule}
      → All (λ entry. P entry.1) table
      → select_rules s version v table ≡ ok rules
      → P rules
  unfolding select_rules chosen
  select_rules-All P version v [] all h = ground (arith, h)
  select_rules-All P version v (entry ∷ rest) {rules} all h =
      let (constraint, e, k) = bind_ok (s.new_constraint entry.0) _ h in
      elim (Bool-cases (s.check constraint v)) [
        | inl has ↦ subst P (ap (chosen rules) (rw has at k)) all.0
        | inr other ↦ select_rules-All P version v rest all.1 (rw other at k)
      ]

  -- Whatever its image, and whatever the versions and ranges mean, the ClusterRole that is generated
  -- for a control plane lets it list and watch Secrets, and use no other verb on them; on the status
  -- of a Secret it lets it get, patch and update, and use no other verb.
  pub cluster_role-ReadsSecrets :
      (name : String) (image : Option String) {role : ClusterRole}
      → generate_new_cluster_role_for_control_plane s name image ≡ ok role
      → ReadsSecrets role.rules
  unfolding generate_new_cluster_role_for_control_plane rules_of
  cluster_role-ReadsSecrets name image {role} h =
      let (v, e, k) = bind_ok (s.new_version (role_version image)) _ h in
      let (rules, selected, made) =
        bind_ok (select_rules s (role_version image) v role_table) _ k in
      subst ReadsSecrets (ap (rules_of []) made) (
        select_rules-All ReadsSecrets (role_version image) v role_table
          (
            rules_ge2_1_lt2_2-ReadsSecrets,
            (
              rules_ge2_2_lt2_3-ReadsSecrets,
              (rules_ge2_3_lt2_4-ReadsSecrets, (rules_ge2_4-ReadsSecrets, tt)),
            ),
          )
          selected)

rule_beq : PolicyRule → PolicyRule → Bool
rule_beq a b = a.api_groups == b.api_groups && a.resources == b.resources && a.verbs == b.verbs

rule_beq→eq : (a b : PolicyRule) → rule_beq a b ≡ true → a ≡ b
unfolding rule_beq
rule_beq→eq a b h = ground (
  arith,
  list_beq_iff a.api_groups b.api_groups,
  list_beq_iff a.resources b.resources,
  list_beq_iff a.verbs b.verbs,
)

any_of_eq :
    (p : PolicyRule → Bool) (a : PolicyRule) (rules : List PolicyRule)
    → any_of (rule_beq a) rules ≡ true
    → p a ≡ true
    → any_of p rules ≡ true
any_of_eq p a [] h k = ground (arith, h)
any_of_eq p a (b ∷ rules) h k = elim (Bool-cases (rule_beq a b)) [
  | inl same ↦ ground (arith, ap p (rule_beq→eq a b same), k)
  | inr other ↦ ground (arith, any_of_eq p a rules (ground (arith, h, other)) k)
]

-- All rules of one list stand in the other.
abbrev all_in : List PolicyRule → List PolicyRule → Bool
all_in rules others = all_of (λ rule. any_of (rule_beq rule) others) rules

any_of_subset :
    (p : PolicyRule → Bool) (rules others : List PolicyRule)
    → all_in rules others ≡ true
    → any_of p rules ≡ true
    → any_of p others ≡ true
any_of_subset p [] others h k = ground (arith, k)
any_of_subset p (rule ∷ rules) others h k = elim (Bool-cases (p rule)) [
  | inl here ↦ any_of_eq p rule others (ground (arith, h)) here
  | inr there ↦ any_of_subset p rules others (ground (arith, h)) (ground (arith, k, there))
]

second_in_third : all_in rules_ge2_2_lt2_3 rules_ge2_3_lt2_4 ≡ true
unfolding rule_beq
second_in_third = refl

third_in_fourth : all_in rules_ge2_3_lt2_4 rules_ge2_4 ≡ true
unfolding rule_beq
third_in_fourth = refl

-- From version 2.2 on, the role of each range permits all that the role of the range before it does.
pub later_roles_permit :
    (group resource verb : String)
    → (permits rules_ge2_2_lt2_3 group resource verb ≡ true
        → permits rules_ge2_3_lt2_4 group resource verb ≡ true)
      × (permits rules_ge2_3_lt2_4 group resource verb ≡ true
          → permits rules_ge2_4 group resource verb ≡ true)
later_roles_permit group resource verb = (
  any_of_subset (rule_permits group resource verb) rules_ge2_2_lt2_3 rules_ge2_3_lt2_4
      second_in_third,
  any_of_subset (rule_permits group resource verb) rules_ge2_3_lt2_4 rules_ge2_4 third_in_fourth,
)
