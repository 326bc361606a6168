-- ===== src/ControlPlanes/RoleRules.antt =====
-- internal/utils/kubernetes/resources/clusterroles: the rules of the ClusterRoles, one module for each
-- range of versions of the ingress controller. The files are generated by hack/generators.
pub mod Rule
pub mod Ge21Lt22
pub mod Ge22Lt23
pub mod Ge23Lt24
pub mod Ge24
