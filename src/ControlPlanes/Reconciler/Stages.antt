-- ===== src/ControlPlanes/Reconciler/Stages.antt =====
-- The reconciliation of a control plane, and what its calls satisfy.
use gateway_operator.Prelude.{ℕ, string_eq, ℕ}
use gateway_operator.Status.{control_plane_conditions}
use gateway_operator.Client.{Client}
use gateway_operator.Client.Calls
use gateway_operator.Client.Keeps.{Keeps}
use gateway_operator.Client.Before.{Before}
