-- ===== src/Gateways/Reconciler/Progress.antt =====
-- A reconciliation of a gateway that finds everything in place.
use mathlib.Core.Path.{subst}
use gateway_operator.Prelude.{String, ◌≡◌, true, false, some, List, refl, ◌∙◌, ◌∷◌, ◌↔◌}
use gateway_operator.Errors.{Result, ok, err}
use gateway_operator.Api.Resources.{
  DataPlane, ControlPlane, Gateway, GatewayClass, GatewayConfiguration,
}
use gateway_operator.Api.Workloads.{Service}
use gateway_operator.Status.{
  data_plane_conditions, control_plane_conditions, gateway_conditions, is_ready, init_ready,
  ready_type,
}
use gateway_operator.Gateways.Provision.{mark, provision_data_plane, provision_control_plane}
use gateway_operator.Gateways.Owned.{ensure_data_plane_has_network_policy}
use gateway_operator.Gateways.Readiness.{
  service_of, update_status, mark_service, ensure_gateway_marked_ready, or_empty,
}
use gateway_operator.Gateways.Reconciler.{
  finish, control, provision, secure, schedule, reconcile, or_gone, reconcile_found, supported,
}
use gateway_operator.Client.{Client, Call, Trace, ◌>>=◌, continue, pure, read}
use gateway_operator.Client.Keeps.{Keeps, Extends, continue-grows, keeps_rules, Extends-refl}
use gateway_operator.Client.Monad.{bind_run, attempt_run, read_run}
use gateway_operator.Gateways.Provision.OfControl.{ControlTold, provision_control_plane-Told}
use gateway_operator.Gateways.Provision.OfData.{DataTold, provision_data_plane-Told}
use gateway_operator.Client.Answers.{Answers-Answered}
use gateway_operator.Api.Meta.{NamespacedName}
use gateway_operator.Gateways.Classes.{
  verify_gateway_class_support, get_or_create_gateway_configuration,
}
use gateway_operator.Gateways.Reconciler.Stages.{schedule-Answers}
use gateway_operator.Status.Conditions.{init_ready_lem, OthersTrue, is_ready-set_ready}
use gateway_operator.Gateways.Readiness.Addresses.{HasAddresses, made_ready, marked_ready_lem}
use gateway_operator.Client.Calls

abbrev AnyCall : Trace → Call → Type 0
AnyCall t call = Unit {0}

module _ (c : Client) (controller_name : String) (order : List (String × String)) where
  -- Both planes of a gateway were found ready, the data plane with its Service, and then the network
  -- policy as wanted.
  pub record Found (k : GatewayClass) (g : Gateway) (config : GatewayConfiguration) (t u : Trace)
      : Type 0 where
    pub told : Gateway
    pub marked : Gateway
    pub data_plane : DataPlane
    pub control_plane : ControlPlane
    pub service : Service
    pub provisioned : Trace
    pub served : Trace
    pub controlled : Trace
    pub has_data_plane :
        provision_data_plane c order g config t ≡ (ok (told, some data_plane), provisioned)
    pub data_plane_ready : is_ready data_plane ≡ true
    pub has_service : service_of c data_plane provisioned ≡ (ok service, served)
    pub has_control_plane :
        provision_control_plane c k told config data_plane service served
        ≡ (ok (marked, some control_plane), controlled)
    pub control_plane_ready : is_ready control_plane ≡ true
    pub has_policy :
        ensure_data_plane_has_network_policy c marked data_plane control_plane controlled
        ≡ (ok false, u)

  -- The gateway was found, with a class that is supported, and with its configuration.
  pub record Admitted (name : NamespacedName) (t u : Trace) : Type 0 where
    pub fetched : Gateway
    pub gateway : Gateway
    pub class : GatewayClass
    pub config : GatewayConfiguration
    pub found : Trace
    pub classed : Trace
    pub marked : Trace
    pub has_gateway : Calls.get_gateway c name t ≡ (ok fetched, found)
    pub has_class :
        verify_gateway_class_support c controller_name (init_ready (c.now found) fetched) found
        ≡ (ok class, classed)
    pub is_scheduled :
        schedule c controller_name order (init_ready (c.now found) fetched) classed
        ≡ (ok gateway, marked)
    pub has_configuration :
        get_or_create_gateway_configuration c controller_name class marked ≡ (ok config, u)

  mark-Keeps :
      (type status reason text : String) (g : Gateway) (u : Trace)
      → Keeps u AnyCall (mark c type status reason text g)
  unfolding mark
  mark-Keeps type status reason text g u = search keeps_rules

  mark_service-Keeps :
      (g : Gateway) (r : Result (Unit {0})) (u : Trace) → Keeps u AnyCall (mark_service c g r)
  unfolding mark_service
  mark_service-Keeps g (ok _) u = mark-Keeps _ _ _ _ g u
  mark_service-Keeps g (err e) u = mark-Keeps _ _ _ _ g u

  or_empty-Keeps : (r : Result Gateway) (u : Trace) → Keeps u AnyCall (or_empty c r)
  unfolding or_empty
  or_empty-Keeps (ok g) u = search keeps_rules
  or_empty-Keeps (err e) u = search keeps_rules

  update_status-Keeps : (g : Gateway) (u : Trace) → Keeps u AnyCall (update_status c g)
  unfolding update_status
  update_status-Keeps g u = search (keeps_rules, or_empty-Keeps) depth 8

  -- The calls that announce the gateway are followed by others.
  finish-Extends :
      (g : Gateway) (d : DataPlane) (t : Trace)
      → Extends (finish c controller_name order g d t).1 (ensure_gateway_marked_ready c g d t).1
  unfolding finish ◌>>=◌
  finish-Extends g d t =
      continue-grows {P = AnyCall} (ensure_gateway_marked_ready c g d t).0 _
        (ensure_gateway_marked_ready c g d t).1
        (λ r _. search (keeps_rules, mark_service-Keeps, update_status-Keeps))

  secured :
      (g : Gateway) (d : DataPlane) (p : ControlPlane) (t u : Trace)
      → ensure_data_plane_has_network_policy c g d p t ≡ (ok false, u)
      → secure c controller_name order g d p t ≡ finish c controller_name order g d u
  unfolding secure
  secured g d p t u in_place =
      bind_run (ensure_data_plane_has_network_policy c g d p) _ in_place refl

  -- past the provisioning of the control plane
  controlled :
      (k : GatewayClass) (g g' : Gateway) (config : GatewayConfiguration) (d : DataPlane)
      (p : ControlPlane) (s : Service) (t served u : Trace)
      → service_of c d t ≡ (ok s, served)
      → provision_control_plane c k g config d s served ≡ (ok (g', some p), u)
      → is_ready p ≡ true
      → (control c controller_name order k g config d t ≡ secure c controller_name order g' d p u)
        × (is_ready g' ≡ is_ready g)
  unfolding control ◌>>=◌ continue pure
  controlled k g g' config d p s t served u has_service has_plane ready = (
    bind_run (service_of c d) _ has_service (
        bind_run (provision_control_plane c k g config d s) _ has_plane
          (rw (said.told.1 (p, refl, ready)) refl)),
    said.readiness,
  )
    where
      said : ControlTold c g (g', some p)
      said =
          Answers-Answered (provision_control_plane c k g config d s) (g', some p)
            (provision_control_plane-Told c k g config d s)
            (record { before = served; since = Extends-refl served; answer = has_plane })

  -- past the provisioning of the data plane
  provisioned :
      (k : GatewayClass) (g g' : Gateway) (config : GatewayConfiguration) (d : DataPlane)
      (t u : Trace)
      → provision_data_plane c order g config t ≡ (ok (g', some d), u)
      → is_ready d ≡ true
      → (provision c controller_name order k g config t
          ≡ control c controller_name order k g' config d u)
        × (is_ready g' ≡ is_ready g)
  unfolding provision ◌>>=◌ continue pure
  provisioned k g g' config d t u has_plane ready = (
    bind_run (provision_data_plane c order g config) _ has_plane
        (rw (said.told.1 (d, refl, ready)) refl),
    said.readiness,
  )
    where
      said : DataTold c g (g', some d)
      said =
          Answers-Answered (provision_data_plane c order g config) (g', some d)
            (provision_data_plane-Told c order g config)
            (record { before = t; since = Extends-refl t; answer = has_plane })

  -- up to the provisioning
  admitted :
      (name : NamespacedName) (t u : Trace) (a : Admitted name t u)
      → (reconcile c controller_name order name t
          ≡ provision c controller_name order a.class a.gateway a.config u)
        × (is_ready a.gateway ≡ false)
  unfolding reconcile or_gone reconcile_found supported
  admitted name t u a = (
    bind_run _ _ (attempt_run _ a.has_gateway) (
        bind_run (read c.now) _ (read_run c.now a.found) (
          bind_run _ _ (attempt_run _ a.has_class)
            (bind_run _ _ a.is_scheduled (bind_run _ _ a.has_configuration refl)))),
    same.0 ∙ (init_ready_lem (c.now a.found) ready_type a.fetched).0,
  )
    where
      same :
          (is_ready a.gateway ≡ is_ready (init_ready (c.now a.found) a.fetched))
          × (a.gateway.metadata ≡ (init_ready (c.now a.found) a.fetched).metadata)
      same =
          Answers-Answered (schedule c controller_name order (init_ready (c.now a.found) a.fetched))
            a.gateway
            (schedule-Answers c controller_name order name (init_ready (c.now a.found) a.fetched))
            (record { before = a.classed; since = Extends-refl a.classed; answer = a.is_scheduled })

  -- from the provisioning to the announcement
  found_run :
      (k : GatewayClass) (g : Gateway) (config : GatewayConfiguration) (t u : Trace)
      (f : Found k g config t u)
      → (provision c controller_name order k g config t
          ≡ finish c controller_name order f.marked f.data_plane u)
        × (is_ready f.marked ≡ is_ready g)
  found_run k g config t u f =
      let (to_control, same) =
        provisioned k g f.told config f.data_plane t f.provisioned f.has_data_plane
          f.data_plane_ready in
      let (to_secure, same') =
        controlled k f.told f.marked config f.data_plane f.control_plane f.service f.provisioned
          f.served f.controlled f.has_service f.has_control_plane f.control_plane_ready in
      (
        to_control
            ∙ to_secure
            ∙ secured f.marked f.data_plane f.control_plane f.controlled u f.has_policy,
        same' ∙ same,
      )

  -- A reconciliation of a gateway that finds it with a supported class and its configuration, then
  -- both planes ready, the network policy as wanted, and the Service of the data plane with addresses,
  -- writes the gateway with these addresses, marked by SetReady, right after it has read the Service;
  -- that status says Ready exactly if all conditions of the gateway other than Ready are True.
  pub reconcile_completes :
      (name : NamespacedName) (t u v w : Trace) (a : Admitted name t u)
      (f : Found a.class a.gateway a.config u v) (s : Service) (addresses : List String)
      → service_of c f.data_plane v ≡ (ok s, w)
      → HasAddresses s addresses
      → Extends
          (reconcile c controller_name order name t).1
          (Call.update_status_gateway (made_ready c f.marked addresses w) ∷ w)
        × ((is_ready (made_ready c f.marked addresses w) ≡ true) ↔ OthersTrue f.marked.conditions)
  reconcile_completes name t u v w a f s addresses has_service has_addresses =
      let (to_planes, unready) = admitted name t u a in
      let (to_finish, same) = found_run a.class a.gateway a.config u v f in
      let announced =
        (marked_ready_lem c f.marked f.data_plane s v w (same ∙ unready) has_service).0 addresses
          has_addresses in
      (
        rw (to_planes, to_finish)
            (subst (Extends (finish c controller_name order f.marked f.data_plane v).1) announced
              (finish-Extends f.marked f.data_plane v)),
        is_ready-set_ready (c.now w) (record f.marked { addresses = addresses }),
      )
