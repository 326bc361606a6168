-- ===== src/Gateways/Provision/OfControl.antt =====
-- The provisioning of the control plane of a gateway.
use gateway_operator.Prelude.{String, refl, false, Option, none, some, List, string_eq}
use gateway_operator.Errors.{Result, ok, err}
use gateway_operator.Api.Resources.{
  DataPlane, ControlPlane, ControlPlaneOptions, Gateway, GatewayClass, GatewayConfiguration,
}
use gateway_operator.Api.Workloads.{Service}
use gateway_operator.Status.{
  data_plane_conditions, control_plane_conditions, gateway_conditions, condition_true,
  condition_false, is_ready, resource_ready_reason, waiting_to_become_ready_reason,
  waiting_to_become_ready_message, resource_created_or_updated_reason, resource_updated_message,
}
use gateway_operator.ControlPlanes.Generators.{control_plane_spec_deep_equal}
use gateway_operator.Gateways.{list_control_planes_for_gateway}
use gateway_operator.Gateways.Owned.{create_control_plane}
use gateway_operator.Gateways.Provision.{
  await_control_plane, updated_control_plane, refresh_control_plane, found_control_planes,
  provision_control_plane, control_plane_ready_type,
}
use gateway_operator.Client.{Client}
use gateway_operator.Client.Calls
use gateway_operator.Client.Answers.{
  Answers, Answers-pure, Answers-if, Answers-attempt, Answers-at_most_one, Answers-bind,
}
use gateway_operator.Client.Answers.{Answers-weaken}
use gateway_operator.Gateways.Classes.{set_controlplane_gateway_config_defaults}
use gateway_operator.Gateways.Provision.Told.{
  Told, mark-Marked, absent-Told, present-Told, Told-later, unable-Told, created-Told,
}

module _ (c : Client) where
  abbrev pub ControlTold : Gateway → Gateway × Option ControlPlane → Type 0
  ControlTold = Told control_plane_ready_type (λ (p : ControlPlane). is_ready p)

  await_control_plane-Told :
      (g : Gateway) (x : ControlPlane) → Answers (ControlTold g) (await_control_plane c g x)
  unfolding await_control_plane
  await_control_plane-Told g x =
      Answers-if (is_ready x) _ _
        (λ h.
          Answers-bind _ _
            (mark-Marked c control_plane_ready_type condition_true resource_ready_reason "" g refl)
            (λ g' m.
              Answers-pure (g', some x)
                (present-Told c control_plane_ready_type refl _ g g' x (rw h m))))
        (λ h.
          Answers-bind _ _
            (mark-Marked c control_plane_ready_type condition_false waiting_to_become_ready_reason
              waiting_to_become_ready_message g refl)
            (λ g' m.
              Answers-pure (g', none) (absent-Told c control_plane_ready_type refl _ g g' m)))

  updated_control_plane-Told :
      (g : Gateway) (r : Result ControlPlane)
      → Answers (ControlTold g) (updated_control_plane c g r)
  unfolding updated_control_plane
  updated_control_plane-Told g (ok x) =
      Answers-bind _ _
        (mark-Marked c control_plane_ready_type condition_false resource_created_or_updated_reason
          resource_updated_message g refl)
        (λ g' m.
          Answers-weaken (await_control_plane c g' x)
            (λ r t. Told-later c control_plane_ready_type refl _ false g g' r m t)
            (await_control_plane-Told g' x))
  updated_control_plane-Told g (err e) = unable-Told c control_plane_ready_type refl _ g e

  refresh_control_plane-Told :
      (g : Gateway) (options : Option ControlPlaneOptions) (x : ControlPlane)
      → Answers (ControlTold g) (refresh_control_plane c g options x)
  unfolding refresh_control_plane
  refresh_control_plane-Told g none x = await_control_plane-Told g x
  refresh_control_plane-Told g (some options) x =
      Answers-if (control_plane_spec_deep_equal x.spec options) _ _
        (λ _. await_control_plane-Told g x)
        (λ _.
          Answers-bind _ _
            (Answers-attempt (Calls.update_control_plane c (record x { spec = options })))
            (λ r _. updated_control_plane-Told g r))

  found_control_planes-Told :
      (k : GatewayClass) (g : Gateway) (config : GatewayConfiguration) (data_plane_name : String)
      (r : Result (List ControlPlane))
      → Answers (ControlTold g) (found_control_planes c k g config data_plane_name r)
  unfolding found_control_planes
  found_control_planes-Told k g config data_plane_name (err e) =
      unable-Told c control_plane_ready_type refl _ g e
  found_control_planes-Told k g config data_plane_name (ok ps) =
      Answers-at_most_one _ _ (refresh_control_plane c g config.control_plane_options) ps
        (Answers-bind _ _ (Answers-attempt (create_control_plane c k g config data_plane_name))
          (λ r _. created-Told c control_plane_ready_type refl _ g r))
        (unable-Told c control_plane_ready_type refl _ g _)
        (λ x. refresh_control_plane-Told g config.control_plane_options x)

  -- The provisioning of the control plane of a gateway never fails, whatever the server answers: the
  -- ControlPlaneReady condition is True afterwards exactly if a control plane is returned that is
  -- ready. Whether the gateway is Ready, and its metadata, stay as they were.
  pub provision_control_plane-Told :
      (k : GatewayClass) (g : Gateway) (config : GatewayConfiguration) (d : DataPlane)
      (service : Service)
      → Answers (ControlTold g) (provision_control_plane c k g config d service)
  unfolding provision_control_plane
  provision_control_plane-Told k g config d service =
      Answers-bind _ _ (Answers-attempt (list_control_planes_for_gateway c g)) (λ r _.
        found_control_planes-Told k g
          (set_controlplane_gateway_config_defaults g config d.metadata.name service.metadata.name)
          d.metadata.name r)
