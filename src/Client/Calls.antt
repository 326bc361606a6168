-- ===== src/Client/Calls.antt =====
-- The calls as actions: each is recorded with its argument, and answered by the server.
use gateway_operator.Prelude.{String, List}
use gateway_operator.Api.Meta.{NamespacedName}
use gateway_operator.Api.Resources.{
  DataPlane, ControlPlane, Gateway, GatewayClass, GatewayConfiguration,
}
use gateway_operator.Api.Workloads.{
  Deployment, Service, Secret, ConfigMap, ServiceAccount, ClusterRole, ClusterRoleBinding,
  NetworkPolicy,
}
use gateway_operator.Client.{Call, Client, M, ListOptions, request, outcome}

module _ (c : Client) where
  abbrev pub get_data_plane : NamespacedName → M DataPlane
  get_data_plane n = request (Call.get_data_plane n) (λ t. c.data_plane_at t n)

  abbrev pub get_control_plane : NamespacedName → M ControlPlane
  get_control_plane n = request (Call.get_control_plane n) (λ t. c.control_plane_at t n)

  abbrev pub get_gateway : NamespacedName → M Gateway
  get_gateway n = request (Call.get_gateway n) (λ t. c.gateway_at t n)

  abbrev pub get_gateway_config : NamespacedName → M GatewayConfiguration
  get_gateway_config n = request (Call.get_gateway_config n) (λ t. c.gateway_config_at t n)

  abbrev pub get_secret : NamespacedName → M Secret
  get_secret n = request (Call.get_secret n) (λ t. c.secret_at t n)

  abbrev pub get_config_map : NamespacedName → M ConfigMap
  get_config_map n = request (Call.get_config_map n) (λ t. c.config_map_at t n)

  abbrev pub get_gateway_class : String → M GatewayClass
  get_gateway_class n = request (Call.get_gateway_class n) (λ t. c.gateway_class_at t n)

  abbrev pub list_deployments : ListOptions → M (List Deployment)
  list_deployments o = request (Call.list_deployments o) (λ t. c.deployments t o)

  abbrev pub list_services : ListOptions → M (List Service)
  list_services o = request (Call.list_services o) (λ t. c.services t o)

  abbrev pub list_secrets : ListOptions → M (List Secret)
  list_secrets o = request (Call.list_secrets o) (λ t. c.secrets t o)

  abbrev pub list_service_accounts : ListOptions → M (List ServiceAccount)
  list_service_accounts o = request (Call.list_service_accounts o) (λ t. c.service_accounts t o)

  abbrev pub list_cluster_roles : ListOptions → M (List ClusterRole)
  list_cluster_roles o = request (Call.list_cluster_roles o) (λ t. c.cluster_roles t o)

  abbrev pub list_cluster_role_bindings : ListOptions → M (List ClusterRoleBinding)
  list_cluster_role_bindings o =
      request (Call.list_cluster_role_bindings o) (λ t. c.cluster_role_bindings t o)

  abbrev pub list_data_planes : ListOptions → M (List DataPlane)
  list_data_planes o = request (Call.list_data_planes o) (λ t. c.data_planes t o)

  abbrev pub list_control_planes : ListOptions → M (List ControlPlane)
  list_control_planes o = request (Call.list_control_planes o) (λ t. c.control_planes t o)

  abbrev pub list_network_policies : ListOptions → M (List NetworkPolicy)
  list_network_policies o = request (Call.list_network_policies o) (λ t. c.network_policies t o)

  abbrev pub list_all_control_planes : M (List ControlPlane)
  list_all_control_planes = request Call.list_all_control_planes c.all_control_planes

  abbrev pub list_all_gateways : M (List Gateway)
  list_all_gateways = request Call.list_all_gateways c.all_gateways

  abbrev pub list_all_gateway_classes : M (List GatewayClass)
  list_all_gateway_classes = request Call.list_all_gateway_classes c.all_gateway_classes

  abbrev pub create_deployment : Deployment → M Deployment
  create_deployment x = request (Call.create_deployment x) (λ t. c.wrote_deployment t x)

  abbrev pub update_deployment : Deployment → M Deployment
  update_deployment x = request (Call.update_deployment x) (λ t. c.wrote_deployment t x)

  abbrev pub create_service : Service → M Service
  create_service x = request (Call.create_service x) (λ t. c.wrote_service t x)

  abbrev pub update_service : Service → M Service
  update_service x = request (Call.update_service x) (λ t. c.wrote_service t x)

  abbrev pub create_secret : Secret → M Secret
  create_secret x = request (Call.create_secret x) (λ t. c.wrote_secret t x)

  abbrev pub update_secret : Secret → M Secret
  update_secret x = request (Call.update_secret x) (λ t. c.wrote_secret t x)

  abbrev pub create_service_account : ServiceAccount → M ServiceAccount
  create_service_account x =
      request (Call.create_service_account x) (λ t. c.wrote_service_account t x)

  abbrev pub update_service_account : ServiceAccount → M ServiceAccount
  update_service_account x =
      request (Call.update_service_account x) (λ t. c.wrote_service_account t x)

  abbrev pub create_cluster_role : ClusterRole → M ClusterRole
  create_cluster_role x = request (Call.create_cluster_role x) (λ t. c.wrote_cluster_role t x)

  abbrev pub update_cluster_role : ClusterRole → M ClusterRole
  update_cluster_role x = request (Call.update_cluster_role x) (λ t. c.wrote_cluster_role t x)

  abbrev pub create_cluster_role_binding : ClusterRoleBinding → M ClusterRoleBinding
  create_cluster_role_binding x =
      request (Call.create_cluster_role_binding x) (λ t. c.wrote_cluster_role_binding t x)

  abbrev pub update_cluster_role_binding : ClusterRoleBinding → M ClusterRoleBinding
  update_cluster_role_binding x =
      request (Call.update_cluster_role_binding x) (λ t. c.wrote_cluster_role_binding t x)

  abbrev pub delete_cluster_role : ClusterRole → M (Unit {0})
  delete_cluster_role x =
      request (Call.delete_cluster_role x) (λ t. outcome (c.failure t (Call.delete_cluster_role x)))

  abbrev pub delete_cluster_role_binding : ClusterRoleBinding → M (Unit {0})
  delete_cluster_role_binding x =
      request (Call.delete_cluster_role_binding x)
        (λ t. outcome (c.failure t (Call.delete_cluster_role_binding x)))

  abbrev pub create_network_policy : NetworkPolicy → M (Unit {0})
  create_network_policy x =
      request (Call.create_network_policy x)
        (λ t. outcome (c.failure t (Call.create_network_policy x)))

  abbrev pub update_network_policy : NetworkPolicy → M (Unit {0})
  update_network_policy x =
      request (Call.update_network_policy x)
        (λ t. outcome (c.failure t (Call.update_network_policy x)))

  abbrev pub create_data_plane : DataPlane → M (Unit {0})
  create_data_plane x =
      request (Call.create_data_plane x) (λ t. outcome (c.failure t (Call.create_data_plane x)))

  abbrev pub update_data_plane : DataPlane → M DataPlane
  update_data_plane x = request (Call.update_data_plane x) (λ t. c.wrote_data_plane t x)

  abbrev pub update_status_data_plane : DataPlane → M (Unit {0})
  update_status_data_plane x =
      request (Call.update_status_data_plane x)
        (λ t. outcome (c.failure t (Call.update_status_data_plane x)))

  abbrev pub create_control_plane : ControlPlane → M (Unit {0})
  create_control_plane x =
      request (Call.create_control_plane x)
        (λ t. outcome (c.failure t (Call.create_control_plane x)))

  abbrev pub update_control_plane : ControlPlane → M ControlPlane
  update_control_plane x = request (Call.update_control_plane x) (λ t. c.wrote_control_plane t x)

  abbrev pub update_status_control_plane : ControlPlane → M (Unit {0})
  update_status_control_plane x =
      request (Call.update_status_control_plane x)
        (λ t. outcome (c.failure t (Call.update_status_control_plane x)))

  abbrev pub update_status_gateway : Gateway → M Gateway
  update_status_gateway x = request (Call.update_status_gateway x) (λ t. c.wrote_gateway_status t x)
