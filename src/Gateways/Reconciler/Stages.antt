-- ===== src/Gateways/Reconciler/Stages.antt =====
-- What a reconciliation of a gateway writes, and when.
use gateway_operator.Prelude.{String, ◌≡◌, refl, List}
use gateway_operator.Api.Meta.{NamespacedName}
use gateway_operator.Api.Resources.{Gateway}
use gateway_operator.Status.{
  data_plane_conditions, control_plane_conditions, gateway_conditions, is_ready, is_valid_condition,
  condition_true,
}
use gateway_operator.Gateways.Provision.{scheduled, gateway_scheduled_type}
use gateway_operator.Gateways.Provision.Told.{mark-Marked}
use gateway_operator.Gateways.Reconciler.{schedule}
use gateway_operator.Client.{Client}
use gateway_operator.Client.Keeps.{Keeps}
use gateway_operator.Client.Answers.{Answers, Answers-weaken, Answers-pure, Answers-if}
use gateway_operator.Client.Calls
use gateway_operator.Client.Before.{Before}

module _ (c : Client) (controller_name : String) (order : List (String × String))
    (request : NamespacedName) where
  -- the gateway is the same, and as ready as before
  pub schedule-Answers :
      (g : Gateway)
      → Answers
          (λ g'. (is_ready g' ≡ is_ready g) × (g'.metadata ≡ g.metadata))
          (schedule c controller_name order g)
  unfolding schedule
  schedule-Answers g =
      Answers-if (is_valid_condition gateway_scheduled_type g) _ _
        (λ _. Answers-pure g (refl, refl))
        (λ _.
          Answers-weaken _ (λ g' m. (m.readiness, m.metadata))
            (mark-Marked c scheduled condition_true scheduled _ g refl))
