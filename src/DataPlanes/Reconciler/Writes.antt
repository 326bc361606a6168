-- ===== src/DataPlanes/Reconciler/Writes.antt =====
-- What a reconciliation of a data plane writes, and when.
use gateway_operator.Prelude.{◌≡◌, false}
use gateway_operator.Api.Resources.{DataPlane}
use gateway_operator.Status.{is_ready, data_plane_conditions}
use gateway_operator.DataPlanes.Reconciler.{validate}
use gateway_operator.Client.{Client}
use gateway_operator.Client.Calls
use gateway_operator.Validation.{validate}
use gateway_operator.Client.Keeps.{Keeps-attempt, Keeps-read, Keeps, Keeps-attempt, Keeps-read}

abbrev NotReady : DataPlane → Type 0
NotReady d = is_ready d ≡ false
