-- ===== src/ControlPlanes/RoleRules/Rule.antt =====
-- The form that all generated rules have.
use gateway_operator.Prelude.{String, List, [], ◌∷◌}
use gateway_operator.Api.Workloads.{PolicyRule}

-- A rule for one group and one resource.
abbrev pub rule : String → String → List String → PolicyRule
rule group resource verbs = record {
  api_groups = group ∷ [];
  resources = resource ∷ [];
  verbs = verbs;
}
