-- ===== src/Gateways/Reconciler/Safety.antt =====
-- What a reconciliation of a gateway writes only under conditions.
use gateway_operator.Prelude.{String, ◌≡◌, true, false, some, List}
use gateway_operator.Errors.{ok}
use gateway_operator.Api.Meta.{ObjectMeta, NamespacedName}
use gateway_operator.Api.Resources.{
  DataPlane, ControlPlane, Gateway, GatewayClass, GatewayConfiguration,
}
use gateway_operator.Api.Workloads.{Service}
use gateway_operator.Metadata.{is_owned_by_ref_uid}
use gateway_operator.Status.{
  is_ready, data_plane_conditions, control_plane_conditions, gateway_conditions,
}
use gateway_operator.Gateways.Classes.{verify_gateway_class_support}
use gateway_operator.Gateways.Owned.{ensure_data_plane_has_network_policy}
use gateway_operator.Gateways.Provision.{provision_data_plane, provision_control_plane}
use gateway_operator.Client.{Client, Call, Trace}
use gateway_operator.Client.Calls
use gateway_operator.Client.Before.{Before, Ran}

module _ (c : Client) (controller_name : String) (order : List (String × String))
    (request : NamespacedName) where
  -- The class of the gateway that the server answered to the read of the request was found to be one
  -- of this operator; the gateway has this metadata.
  pub record Supports (m : ObjectMeta) (t : Trace) : Type 0 where
    pub gateway : Gateway
    pub class : GatewayClass
    pub start : Trace
    pub answered : Before (Ran (Calls.get_gateway c request) gateway) start
    pub run : verify_gateway_class_support c controller_name gateway start ≡ (ok class, t)
    pub same : gateway.metadata ≡ m

  -- The object belongs to the gateway of the request, which is one of this operator.
  pub record Belongs (m : ObjectMeta) (t : Trace) : Type 0 where
    pub owner : ObjectMeta
    pub supported : Before (Supports owner) t
    pub owned : is_owned_by_ref_uid m owner.uid ≡ true

  -- The provisioning of the gateway of the request has returned the data plane, which is ready.
  pub record HasData (d : DataPlane) (t : Trace) : Type 0 where
    pub gateway : Gateway
    pub config : GatewayConfiguration
    pub marked : Gateway
    pub supported : Before (Supports gateway.metadata) t
    pub start : Trace
    pub run : provision_data_plane c order gateway config start ≡ (ok (marked, some d), t)
    pub ready : is_ready d ≡ true

  -- The provisioning of the gateway of the request has returned the control plane, which is ready.
  pub record HasControl (d : DataPlane) (p : ControlPlane) (t : Trace) : Type 0 where
    pub gateway : Gateway
    pub class : GatewayClass
    pub config : GatewayConfiguration
    pub service : Service
    pub marked : Gateway
    pub supported : Before (Supports gateway.metadata) t
    pub start : Trace
    pub run :
        provision_control_plane c class gateway config d service start ≡ (ok (marked, some p), t)
    pub ready : is_ready p ≡ true

  -- Some data plane is ready.
  abbrev pub DataReady : Trace → Type 0
  DataReady t = (d : DataPlane) × Before (HasData d) t

  -- Some data plane is ready, with its control plane.
  abbrev pub PlanesReady : Trace → Type 0
  PlanesReady t =
      (d : DataPlane) × (p : ControlPlane) × Before (HasData d) t × Before (HasControl d p) t

  -- Their network policy was found, with the owner and the labels that are wanted; its rules are not
  -- looked at.
  pub record HasPolicy (d : DataPlane) (p : ControlPlane) (t : Trace) : Type 0 where
    pub gateway : Gateway
    pub supported : Before (Supports gateway.metadata) t
    pub start : Trace
    pub run : ensure_data_plane_has_network_policy c gateway d p start ≡ (ok false, t)

  abbrev pub Secured : Trace → Type 0
  Secured t =
      (d : DataPlane) × (p : ControlPlane) × Before (HasData d) t
      × Before (HasControl d p) t
      × Before (HasPolicy d p) t

  -- What holds when the call is made after the calls `t`.
  abbrev pub Allowed : Trace → Call → Type 0
  Allowed t (Call.create_data_plane x) = Belongs x.metadata t
  Allowed t (Call.create_control_plane x) = Belongs x.metadata t × DataReady t
  Allowed t (Call.update_control_plane x) = DataReady t
  Allowed t (Call.create_network_policy x) = Belongs x.metadata t × PlanesReady t
  Allowed t (Call.update_network_policy x) = PlanesReady t
  Allowed t (Call.update_status_gateway x) = is_ready x ≡ true → Secured t
  Allowed t _ = Unit
