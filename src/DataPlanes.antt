-- ===== src/DataPlanes.antt =====
-- The data planes: internal/utils/dataplane, and controllers/dataplane_controller*.go.
pub mod Defaults
pub mod Generators
pub mod Conditions
pub mod Owned
pub mod Reconciler
