-- ===== src/Gateways/Reconciler/Planes.antt =====
-- The calls of the provisioning of the planes of a gateway.
use gateway_operator.Prelude.{String, ◌≡◌, true, Option, some, none, List, string_eq}
use gateway_operator.Errors.{Err, Result, ok, err}
use gateway_operator.Api.Meta.{ObjectMeta, NamespacedName}
use gateway_operator.Api.Resources.{
  DataPlane, ControlPlane, ControlPlaneOptions, DeploymentOptions, Gateway, GatewayClass,
  GatewayConfiguration, gateway_object,
}
use gateway_operator.Api.Workloads.{Service}
use gateway_operator.Metadata.{is_owned_by_ref_uid}
use gateway_operator.Gateways.{
  list_data_planes_for_gateway, list_control_planes_for_gateway, list_network_policies_for_gateway,
}
use gateway_operator.Gateways.Owned.{
  create_data_plane, create_control_plane, ensure_data_plane_has_network_policy,
}
use gateway_operator.Gateways.Provision.{
  mark, unable, created, await_data_plane, updated_data_plane, refresh_data_plane,
  found_data_planes, provision_data_plane, await_control_plane, updated_control_plane,
  refresh_control_plane, found_control_planes, provision_control_plane,
}
use gateway_operator.Gateways.Reconciler.Safety.{
  Supports, Belongs, HasData, HasControl, DataReady, PlanesReady, Allowed,
}
use gateway_operator.Client.{Client, Trace}
use gateway_operator.Client.Keeps.{Keeps, Extends, keeps_rules}
use gateway_operator.Client.Before.{Before, Before-later}
use gateway_operator.Gateways.Owned.Ownership.{
  new_data_plane-owned, new_control_plane-owned, network_policy-owned,
}

module _ (c : Client) (controller_name : String) (order : List (String × String))
    (request : NamespacedName) where
  -- `g` is a gateway of this operator.
  abbrev pub Known : Gateway → Trace → Type 0
  Known g = Before (Supports c controller_name order request g.metadata)

  belongs :
      (m : ObjectMeta) (g : Gateway) (u t : Trace)
      → Extends t u
      → Known g u
      → is_owned_by_ref_uid m g.metadata.uid ≡ true
      → Belongs c controller_name order request m t
  belongs m g u t e known owned = record {
    owner = g.metadata;
    supported = Before-later t u e known;
    owned = owned;
  }

  pub mark-Keeps :
      (type status reason text : String) (g : Gateway) (u : Trace)
      → Keeps u (Allowed c controller_name order request) (mark c type status reason text g)
  unfolding mark
  mark-Keeps type status reason text g u = search keeps_rules

  unable-Keeps :
      {A : Type 0} (type : String) (g : Gateway) (e : Err) (u : Trace)
      → Keeps u (Allowed c controller_name order request) (unable c {A = A} type g e)
  unfolding unable
  unable-Keeps type g e u = search (keeps_rules, mark-Keeps)

  created-Keeps :
      {A : Type 0} (type : String) (g : Gateway) (r : Result (Unit {0})) (u : Trace)
      → Keeps u (Allowed c controller_name order request) (created c {A = A} type g r)
  unfolding created
  created-Keeps type g (ok _) u = search (keeps_rules, mark-Keeps)
  created-Keeps type g (err e) u = unable-Keeps type g e u

  await_data_plane-Keeps :
      (g : Gateway) (d : DataPlane) (u : Trace)
      → Keeps u (Allowed c controller_name order request) (await_data_plane c g d)
  unfolding await_data_plane
  await_data_plane-Keeps g d u = search (keeps_rules, mark-Keeps)

  updated_data_plane-Keeps :
      (g : Gateway) (r : Result DataPlane) (u : Trace)
      → Keeps u (Allowed c controller_name order request) (updated_data_plane c g r)
  unfolding updated_data_plane
  updated_data_plane-Keeps g (ok d) u = search (keeps_rules, mark-Keeps, await_data_plane-Keeps)
  updated_data_plane-Keeps g (err e) u = unable-Keeps _ g e u

  refresh_data_plane-Keeps :
      (g : Gateway) (options : Option DeploymentOptions) (d : DataPlane) (u : Trace)
      → Keeps u (Allowed c controller_name order request) (refresh_data_plane c g options d)
  unfolding refresh_data_plane
  refresh_data_plane-Keeps g none d u = await_data_plane-Keeps g d u
  refresh_data_plane-Keeps g (some options) d u =
      search (keeps_rules, await_data_plane-Keeps, updated_data_plane-Keeps)

  create_data_plane-Keeps :
      (g : Gateway) (config : GatewayConfiguration) (u : Trace)
      → Known g u
      → Keeps u (Allowed c controller_name order request) (create_data_plane c g config)
  unfolding create_data_plane
  create_data_plane-Keeps g config u known = search (keeps_rules, belongs, new_data_plane-owned)

  found_data_planes-Keeps :
      (g : Gateway) (config : GatewayConfiguration) (r : Result (List DataPlane)) (u : Trace)
      → Known g u
      → Keeps u (Allowed c controller_name order request) (found_data_planes c g config r)
  unfolding found_data_planes
  found_data_planes-Keeps g config (err e) u known = unable-Keeps _ g e u
  found_data_planes-Keeps g config (ok ds) u known =
      search
        (
          keeps_rules, create_data_plane-Keeps, created-Keeps, refresh_data_plane-Keeps,
          unable-Keeps,
        )
        depth 8

  pub provision_data_plane-Keeps :
      (g : Gateway) (config : GatewayConfiguration) (u : Trace)
      → Known g u
      → Keeps u (Allowed c controller_name order request) (provision_data_plane c order g config)
  unfolding provision_data_plane list_data_planes_for_gateway
  provision_data_plane-Keeps g config u known =
      search (keeps_rules, found_data_planes-Keeps) depth 8

  await_control_plane-Keeps :
      (g : Gateway) (p : ControlPlane) (u : Trace)
      → Keeps u (Allowed c controller_name order request) (await_control_plane c g p)
  unfolding await_control_plane
  await_control_plane-Keeps g p u = search (keeps_rules, mark-Keeps)

  updated_control_plane-Keeps :
      (g : Gateway) (r : Result ControlPlane) (u : Trace)
      → Keeps u (Allowed c controller_name order request) (updated_control_plane c g r)
  unfolding updated_control_plane
  updated_control_plane-Keeps g (ok p) u =
      search (keeps_rules, mark-Keeps, await_control_plane-Keeps)
  updated_control_plane-Keeps g (err e) u = unable-Keeps _ g e u

  DataReady-later :
      (d : DataPlane) (t u : Trace)
      → Extends t u
      → Before (HasData c controller_name order request d) u
      → DataReady c controller_name order request t
  DataReady-later d t u e h = (d, Before-later t u e h)

  refresh_control_plane-Keeps :
      (g : Gateway) (options : Option ControlPlaneOptions) (d : DataPlane) (p : ControlPlane)
      (u : Trace)
      → Before (HasData c controller_name order request d) u
      → Keeps u (Allowed c controller_name order request) (refresh_control_plane c g options p)
  unfolding refresh_control_plane
  refresh_control_plane-Keeps g none d p u ready = await_control_plane-Keeps g p u
  refresh_control_plane-Keeps g (some options) d p u ready =
      search
        (keeps_rules, await_control_plane-Keeps, updated_control_plane-Keeps, DataReady-later d)

  create_control_plane-Keeps :
      (k : GatewayClass) (g : Gateway) (config : GatewayConfiguration) (d : DataPlane)
      (name : String) (u : Trace)
      → Known g u
      → Before (HasData c controller_name order request d) u
      → Keeps u (Allowed c controller_name order request) (create_control_plane c k g config name)
  unfolding create_control_plane
  create_control_plane-Keeps k g config d name u known ready =
      search (keeps_rules, belongs, new_control_plane-owned, DataReady-later d)

  found_control_planes-Keeps :
      (k : GatewayClass) (g : Gateway) (config : GatewayConfiguration) (d : DataPlane)
      (name : String) (r : Result (List ControlPlane)) (u : Trace)
      → Known g u
      → Before (HasData c controller_name order request d) u
      → Keeps u (Allowed c controller_name order request) (found_control_planes c k g config name r)
  unfolding found_control_planes
  found_control_planes-Keeps k g config d name (err e) u known ready = unable-Keeps _ g e u
  found_control_planes-Keeps k g config d name (ok ps) u known ready =
      search
        (
          keeps_rules,
          create_control_plane-Keeps k g config d,
          created-Keeps,
          refresh_control_plane-Keeps g config.control_plane_options d,
          unable-Keeps,
        )
        depth 8

  pub provision_control_plane-Keeps :
      (k : GatewayClass) (g : Gateway) (config : GatewayConfiguration) (d : DataPlane)
      (service : Service) (u : Trace)
      → Known g u
      → Before (HasData c controller_name order request d) u
      → Keeps u
          (Allowed c controller_name order request)
          (provision_control_plane c k g config d service)
  unfolding provision_control_plane list_control_planes_for_gateway
  provision_control_plane-Keeps k g config d service u known ready =
      search (keeps_rules, found_control_planes-Keeps) depth 8

  PlanesReady-later :
      (d : DataPlane) (p : ControlPlane) (t u : Trace)
      → Extends t u
      → Before (HasData c controller_name order request d) u
      → Before (HasControl c controller_name order request d p) u
      → PlanesReady c controller_name order request t
  PlanesReady-later d p t u e hd hp = (d, p, Before-later t u e hd, Before-later t u e hp)

  pub network_policy-Keeps :
      (g : Gateway) (d : DataPlane) (p : ControlPlane) (u : Trace)
      → Known g u
      → Before (HasData c controller_name order request d) u
      → Before (HasControl c controller_name order request d p) u
      → Keeps u
          (Allowed c controller_name order request)
          (ensure_data_plane_has_network_policy c g d p)
  unfolding ensure_data_plane_has_network_policy list_network_policies_for_gateway
  network_policy-Keeps g d p u known hd hp =
      search (keeps_rules, belongs, network_policy-owned, PlanesReady-later d p) depth 8
