-- ===== src/ControlPlanes/Reconciler/Deletion.antt =====
-- What a reconciliation does with a control plane that is being deleted.
use gateway_operator.Prelude.{String}
use gateway_operator.Api.Meta.{NamespacedName}
use gateway_operator.Api.Resources.{ControlPlane}
use gateway_operator.Api.Workloads.{ClusterRole, ClusterRoleBinding}
use gateway_operator.Lists.{list_cluster_roles_for_owner, list_cluster_role_bindings_for_owner}
use gateway_operator.Outcomes.{Outcome}
use gateway_operator.ControlPlanes.Cleanup.{
  ensure_owned_cluster_roles_deleted, ensure_owned_cluster_role_bindings_deleted, without_finalizer,
  clean_roles, clean,
}
use gateway_operator.ControlPlanes.Cleanup.Steps.{delete_each-Keeps, error_or_nil-Keeps}
use gateway_operator.ControlPlanes.Reconciler.{Outside}
use gateway_operator.ControlPlanes.Reconciler.Safety.{Deleting, Guarded}
use gateway_operator.Client.{Client, Trace, M}
use gateway_operator.Client.Calls
use gateway_operator.Client.Keeps.{Keeps, Extends, keeps_rules}
use gateway_operator.Client.Before.{Before-later}

module _ (c : Client) (ca_name : NamespacedName) (o : Outside) (request : NamespacedName) where
  Deleting-later :
      (t u : Trace) → Extends t u → Deleting c ca_name o request u → Deleting c ca_name o request t
  Deleting-later t u e d = record {
    plane = d.plane;
    timestamp = d.timestamp;
    scheduled = d.scheduled;
    due = Before-later t u e d.due;
  }

  delete_role-Keeps :
      (u : Trace) (x : ClusterRole)
      → Deleting c ca_name o request u
      → Keeps u (Guarded c ca_name o request) (Calls.delete_cluster_role c x)
  delete_role-Keeps u x d = search (keeps_rules, Deleting-later)

  delete_binding-Keeps :
      (u : Trace) (x : ClusterRoleBinding)
      → Deleting c ca_name o request u
      → Keeps u (Guarded c ca_name o request) (Calls.delete_cluster_role_binding c x)
  delete_binding-Keeps u x d = search (keeps_rules, Deleting-later)

  roles_deleted-Keeps :
      (p : ControlPlane) (u : Trace)
      → Deleting c ca_name o request u
      → Keeps u (Guarded c ca_name o request) (ensure_owned_cluster_roles_deleted c o.combine p)
  unfolding ensure_owned_cluster_roles_deleted list_cluster_roles_for_owner
  roles_deleted-Keeps p u d =
      search (keeps_rules, delete_each-Keeps, delete_role-Keeps, error_or_nil-Keeps) depth 8

  bindings_deleted-Keeps :
      (p : ControlPlane) (u : Trace)
      → Deleting c ca_name o request u
      → Keeps u
          (Guarded c ca_name o request)
          (ensure_owned_cluster_role_bindings_deleted c o.combine p)
  unfolding ensure_owned_cluster_role_bindings_deleted list_cluster_role_bindings_for_owner
  bindings_deleted-Keeps p u d =
      search (keeps_rules, delete_each-Keeps, delete_binding-Keeps, error_or_nil-Keeps) depth 8

  without_finalizer-Keeps :
      (finalizer : String) (p : ControlPlane) (next : M Outcome) (u : Trace)
      → Keeps u (Guarded c ca_name o request) next
      → Keeps u (Guarded c ca_name o request) (without_finalizer c o.combine finalizer p next)
  unfolding without_finalizer
  without_finalizer-Keeps finalizer p next u rest = search keeps_rules

  pub clean-Keeps :
      (p : ControlPlane) (u : Trace)
      → Deleting c ca_name o request u
      → Keeps u (Guarded c ca_name o request) (clean c o.combine p)
  unfolding clean clean_roles
  clean-Keeps p u d =
      search (keeps_rules, roles_deleted-Keeps, bindings_deleted-Keeps, without_finalizer-Keeps)
        depth 8
