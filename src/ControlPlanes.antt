-- ===== src/ControlPlanes.antt =====
-- The control planes: controllers/controlplane_controller*.go, and the ClusterRoles of
-- internal/utils/kubernetes/resources.
pub mod Conditions
pub mod Env
pub mod Generators
pub mod Owned
pub mod Watch
pub mod RoleRules
pub mod Roles
pub mod Cleanup
pub mod Reconciler
