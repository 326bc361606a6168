-- ===== src/Lists.antt =====
-- internal/utils/kubernetes/lists.go: the objects of a kind that an owner has. The server selects by
-- label and namespace, and the code by the UID in the owner references.
pub mod Laws
use gateway_operator.Prelude.{String, Bool, Option, none, some, List, filter_if}
use gateway_operator.Api.Meta.{ObjectMeta}
use gateway_operator.Api.Workloads.{
  Deployment, Service, Secret, ServiceAccount, ClusterRole, ClusterRoleBinding,
}
use gateway_operator.Metadata.{is_owned_by_ref_uid}
use gateway_operator.Client.{Client, M, ListOptions, pure, ◌>>=◌}
use gateway_operator.Client.Calls

-- The loop over the items. Where the source writes IsOwnedByRefUID out, as a loop with a break, it
-- is the same test.
unfoldable pub owned_items : {A : Type 0} → (A → ObjectMeta) → String → List A → List A
owned_items metadata uid items = filter_if (λ a. is_owned_by_ref_uid (metadata a) uid) items

module _ (c : Client) (label value : String) where
  abbrev selected_in : String → ListOptions
  selected_in ns = record { namespace = some ns; label = label; value = value }

  abbrev selected : ListOptions
  selected = record { namespace = none; label = label; value = value }

  unfoldable pub list_deployments_for_owner : String → String → M (List Deployment)
  list_deployments_for_owner namespace uid = do
    items ← Calls.list_deployments c (selected_in namespace)
    pure (owned_items (λ d. d.metadata) uid items)

  unfoldable pub list_services_for_owner : String → String → M (List Service)
  list_services_for_owner namespace uid = do
    items ← Calls.list_services c (selected_in namespace)
    pure (owned_items (λ s. s.metadata) uid items)

  unfoldable pub list_service_accounts_for_owner : String → String → M (List ServiceAccount)
  list_service_accounts_for_owner namespace uid = do
    items ← Calls.list_service_accounts c (selected_in namespace)
    pure (owned_items (λ s. s.metadata) uid items)

  unfoldable pub list_cluster_roles_for_owner : String → M (List ClusterRole)
  list_cluster_roles_for_owner uid = do
    items ← Calls.list_cluster_roles c selected
    pure (owned_items (λ r. r.metadata) uid items)

  unfoldable pub list_cluster_role_bindings_for_owner : String → M (List ClusterRoleBinding)
  list_cluster_role_bindings_for_owner uid = do
    items ← Calls.list_cluster_role_bindings c selected
    pure (owned_items (λ b. b.metadata) uid items)

  unfoldable pub list_secrets_for_owner : String → M (List Secret)
  list_secrets_for_owner uid = do
    items ← Calls.list_secrets c selected
    pure (owned_items (λ s. s.metadata) uid items)
