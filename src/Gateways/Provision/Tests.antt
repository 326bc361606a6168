-- ===== src/Gateways/Provision/Tests.antt =====
-- Planes of a gateway that are there and ready.
use gateway_operator.DataPlanes.Defaults.{kong_defaults}
use gateway_operator.DataPlanes.Owned.{generated_service}
use gateway_operator.Client.Answers.{Answers}
use gateway_operator.Gateways.Provision.{provision_data_plane, provision_control_plane}
use gateway_operator.Gateways.Provision.OfData.{DataTold, provision_data_plane-Told}
use gateway_operator.Gateways.Provision.OfControl.{ControlTold, provision_control_plane-Told}
use gateway_operator.Gateways.Samples.{cluster, gateway, class, configuration, ready_plane}

provision_data_plane-Told_example :
    Answers
      (DataTold cluster gateway)
      (provision_data_plane cluster kong_defaults gateway configuration)
provision_data_plane-Told_example =
    provision_data_plane-Told cluster kong_defaults gateway configuration

provision_control_plane-Told_example : Answers (ControlTold cluster gateway) (
    provision_control_plane cluster class gateway configuration ready_plane
      (generated_service ready_plane))
provision_control_plane-Told_example =
    provision_control_plane-Told cluster class gateway configuration ready_plane
      (generated_service ready_plane)
