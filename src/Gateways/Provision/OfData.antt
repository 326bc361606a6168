-- ===== src/Gateways/Provision/OfData.antt =====
-- The provisioning of the data plane of a gateway.
use gateway_operator.Prelude.{String, refl, false, Option, none, some, List, string_eq}
use gateway_operator.Errors.{Result, ok, err}
use gateway_operator.Api.Resources.{DataPlane, DeploymentOptions, Gateway, GatewayConfiguration}
use gateway_operator.Status.{
  data_plane_conditions, control_plane_conditions, gateway_conditions, condition_true,
  condition_false, is_ready, resource_ready_reason, waiting_to_become_ready_reason,
  waiting_to_become_ready_message, resource_created_or_updated_reason, resource_updated_message,
}
use gateway_operator.DataPlanes.Generators.{data_plane_spec_deep_equal}
use gateway_operator.Gateways.{list_data_planes_for_gateway}
use gateway_operator.Gateways.Owned.{create_data_plane}
use gateway_operator.Gateways.Provision.{
  await_data_plane, updated_data_plane, refresh_data_plane, found_data_planes, provision_data_plane,
  data_plane_ready_type,
}
use gateway_operator.Client.{Client}
use gateway_operator.Client.Calls
use gateway_operator.Client.Answers.{
  Answers, Answers-pure, Answers-if, Answers-attempt, Answers-at_most_one, Answers-bind,
}
use gateway_operator.Client.Answers.{Answers-weaken}
use gateway_operator.Gateways.Classes.{set_dataplane_gateway_config_defaults}
use gateway_operator.Gateways.Provision.Told.{
  Told, mark-Marked, present-Told, Told-later, unable-Told, created-Told,
}

module _ (c : Client) where
  abbrev pub DataTold : Gateway → Gateway × Option DataPlane → Type 0
  DataTold = Told data_plane_ready_type (λ (d : DataPlane). is_ready d)

  await_data_plane-Told :
      (g : Gateway) (x : DataPlane) → Answers (DataTold g) (await_data_plane c g x)
  unfolding await_data_plane
  await_data_plane-Told g x =
      Answers-if (is_ready x) _ _
        (λ h.
          Answers-bind _ _
            (mark-Marked c data_plane_ready_type condition_true resource_ready_reason "" g refl)
            (λ g' m.
              Answers-pure (g', some x)
                (present-Told c data_plane_ready_type refl _ g g' x (rw h m))))
        (λ h.
          Answers-bind _ _
            (mark-Marked c data_plane_ready_type condition_false waiting_to_become_ready_reason
              waiting_to_become_ready_message g refl)
            (λ g' m.
              Answers-pure (g', some x)
                (present-Told c data_plane_ready_type refl _ g g' x (rw h m))))

  updated_data_plane-Told :
      (g : Gateway) (r : Result DataPlane) → Answers (DataTold g) (updated_data_plane c g r)
  unfolding updated_data_plane
  updated_data_plane-Told g (ok x) =
      Answers-bind _ _
        (mark-Marked c data_plane_ready_type condition_false resource_created_or_updated_reason
          resource_updated_message g refl)
        (λ g' m.
          Answers-weaken (await_data_plane c g' x)
            (λ r t. Told-later c data_plane_ready_type refl _ false g g' r m t)
            (await_data_plane-Told g' x))
  updated_data_plane-Told g (err e) = unable-Told c data_plane_ready_type refl _ g e

  refresh_data_plane-Told :
      (g : Gateway) (options : Option DeploymentOptions) (x : DataPlane)
      → Answers (DataTold g) (refresh_data_plane c g options x)
  unfolding refresh_data_plane
  refresh_data_plane-Told g none x = await_data_plane-Told g x
  refresh_data_plane-Told g (some options) x =
      Answers-if (data_plane_spec_deep_equal x.spec options) _ _ (λ _. await_data_plane-Told g x)
        (λ _.
          Answers-bind _ _
            (Answers-attempt (Calls.update_data_plane c (record x { spec = options })))
            (λ r _. updated_data_plane-Told g r))

  found_data_planes-Told :
      (g : Gateway) (config : GatewayConfiguration) (r : Result (List DataPlane))
      → Answers (DataTold g) (found_data_planes c g config r)
  unfolding found_data_planes
  found_data_planes-Told g config (err e) = unable-Told c data_plane_ready_type refl _ g e
  found_data_planes-Told g config (ok ds) =
      Answers-at_most_one _ _ (refresh_data_plane c g config.data_plane_options) ds
        (Answers-bind _ _ (Answers-attempt (create_data_plane c g config))
          (λ r _. created-Told c data_plane_ready_type refl _ g r))
        (unable-Told c data_plane_ready_type refl _ g _)
        (λ x. refresh_data_plane-Told g config.data_plane_options x)

  -- The provisioning of the data plane of a gateway never fails, whatever the server answers: the
  -- DataPlaneReady condition is True afterwards exactly if a data plane is returned that is ready.
  -- Whether the gateway is Ready, and its metadata, stay as they were.
  pub provision_data_plane-Told :
      (order : List (String × String)) (g : Gateway) (config : GatewayConfiguration)
      → Answers (DataTold g) (provision_data_plane c order g config)
  unfolding provision_data_plane
  provision_data_plane-Told order g config =
      Answers-bind _ _ (Answers-attempt (list_data_planes_for_gateway c g))
        (λ r _. found_data_planes-Told g (set_dataplane_gateway_config_defaults order config) r)
