-- ===== src/Api.antt =====
-- The data that the operator works on: object metadata, environment variables, the operator's own
-- resources (apis/v1alpha1) and the fields of the Kubernetes and Gateway API objects that it uses.
-- A nil slice and an empty one are both `[]`; a nil map is `none`, since writing to it is a fault.
pub mod Meta
pub mod Env
pub mod Resources
pub mod Workloads
