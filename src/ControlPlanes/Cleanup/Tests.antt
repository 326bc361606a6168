-- ===== src/ControlPlanes/Cleanup/Tests.antt =====
-- A control plane that is deleted at time 50, seen at time 100.
use gateway_operator.Prelude.{Among, String, ◌≡◌, ◌↔◌, false, some, none, List, [], ◌∷◌}
use gateway_operator.Errors.{Err, Result, ok, err, is_not_found}
use gateway_operator.Api.Meta.{empty_meta}
use gateway_operator.Api.Resources.{ControlPlane, empty_options}
use gateway_operator.Api.Workloads.{ClusterRole}
use gateway_operator.Client.{Client, Call, Trace, request}
use gateway_operator.Client.Keeps.{History}
use gateway_operator.ControlPlanes.Cleanup.{
  cleanup_cluster_role, cleanup_cluster_role_binding, reconcile_deleted, delete_each,
}
use gateway_operator.ControlPlanes.Cleanup.Deletes.{calls_for, answers_of, delete_each_lem}
use gateway_operator.ControlPlanes.Cleanup.Order.{InOrder, cleanup-InOrder}
use gateway_operator.Samples.{offline}

abbrev deleted : ControlPlane
deleted = record {
  metadata = record empty_meta {
    name = "cp";
    uid = "u2";
    finalizers = cleanup_cluster_role ∷ cleanup_cluster_role_binding ∷ [];
    deletion_timestamp = some 50;
  };
  spec = record { deployment = empty_options; data_plane = none };
  gateway_class = none;
  ingress_class = none;
  conditions = [];
}

abbrev first_error : List Err → Err
first_error [] = Err.message ""
first_error (e ∷ es) = e

abbrev cluster : Client
cluster = record offline { cluster_roles = λ t o. ok []; cluster_role_bindings = λ t o. ok [] }

cleanup-InOrder_example :
    History
      (InOrder cluster first_error deleted)
      (reconcile_deleted cluster first_error deleted 50 []).1
cleanup-InOrder_example = cleanup-InOrder cluster first_error deleted 50

abbrev role : String → ClusterRole
role name = record { metadata = record empty_meta { name = name }; rules = [] }

abbrev down : ClusterRole → Trace → Result (Unit {0})
down x u = err (Err.api "down")

abbrev two_roles : List ClusterRole
two_roles = role "a" ∷ role "b" ∷ []

delete_each_lem_example :
    (errors : List Err) × (delete_each
        (λ x. request (Call.delete_cluster_role x) (down x))
        two_roles
        []
      ≡ (ok errors, calls_for Call.delete_cluster_role down two_roles []))
    × ((e : Err)
        → Among e errors ↔ (
            Among (err e) (answers_of Call.delete_cluster_role down two_roles [])
            × (is_not_found e ≡ false)))
delete_each_lem_example = delete_each_lem Call.delete_cluster_role down two_roles []
