-- ===== src/Gateways/Reconciler/Provisioned.antt =====
-- What a reconciliation of a gateway writes once its configuration is known, and when.
use gateway_operator.Prelude.{
  String, ◌≡◌, refl, ap, ◌∙◌, true, not, Option, some, none, List, arith, if◌then◌else◌,
}
use gateway_operator.Errors.{ok}
use gateway_operator.Api.Resources.{
  DataPlane, ControlPlane, Gateway, GatewayClass, GatewayConfiguration,
}
use gateway_operator.Status.{
  data_plane_conditions, control_plane_conditions, gateway_conditions, is_ready, is_valid_condition,
}
use gateway_operator.Gateways.Provision.{
  provision_data_plane, provision_control_plane, data_plane_ready_type, control_plane_ready_type,
}
use gateway_operator.Gateways.Provision.OfData.{provision_data_plane-Told, DataTold}
use gateway_operator.Gateways.Provision.OfControl.{provision_control_plane-Told, ControlTold}
use gateway_operator.Gateways.Readiness.{service_of, update_status}
use gateway_operator.Gateways.Reconciler.{provision, control, secure, needed, NamespacedName}
use gateway_operator.Gateways.Reconciler.Safety.{Allowed, HasData, HasControl}
use gateway_operator.Gateways.Reconciler.Planes.{
  Known, provision_data_plane-Keeps, provision_control_plane-Keeps,
}
use gateway_operator.Client.{Client, Trace, ◌>>=◌}
use gateway_operator.Client.Keeps.{Keeps, Keeps-bind, Keeps-bind_answer, Keeps-if, Answered-Extends}
use gateway_operator.Client.Answers.{Answers-Answered}
use gateway_operator.Client.Before.{Before, Before-now, Before-later}
use gateway_operator.Client.Keeps.{Keeps-bind-raise, Keeps-bind-pure}
use gateway_operator.Gateways.Reconciler.Writes.{
  NotReady, waiting-Keeps, service_of-Keeps, secure-Keeps, Known-same,
}

module _ (c : Client) (controller_name : String) (order : List (String × String))
    (request : NamespacedName) where
  -- what follows the provisioning of the control plane
  after_control :
      (g g' : Gateway) (d : DataPlane) (found : Option ControlPlane) (t : Trace)
      → NotReady g
      → Known c controller_name order request g t
      → Before (HasData c controller_name order request d) t
      → ControlTold c g (g', found)
      → ((p : ControlPlane)
          → found ≡ some p
          → is_ready p ≡ true
          → HasControl c controller_name order request d p t)
      → Keeps t (Allowed c controller_name order request) (
          if not (is_valid_condition control_plane_ready_type g')
          then update_status c g'
          else (needed found >>= λ p. secure c controller_name order g' d p))
  after_control g g' d none t unready known hd said has =
      Keeps-if (not (is_valid_condition control_plane_ready_type g')) _ _
        (λ _. waiting-Keeps c controller_name order request g' t (said.readiness ∙ unready))
        (λ _. Keeps-bind-raise _ _)
  after_control g g' d (some p) t unready known hd said has =
      Keeps-if (not (is_valid_condition control_plane_ready_type g')) _ _
        (λ _. waiting-Keeps c controller_name order request g' t (said.readiness ∙ unready))
        (λ valid.
          let (q, e, ready) = said.told.0 (ground (arith, valid)) in
          Keeps-bind-pure p _ (
            secure-Keeps c controller_name order request g' d p t
              (Known-same c controller_name order request g g' t said.metadata known) hd
              (Before-now t (has p refl (ground (arith, e, ready))))))

  control-Keeps :
      (k : GatewayClass) (g : Gateway) (config : GatewayConfiguration) (d : DataPlane) (u : Trace)
      → NotReady g
      → Known c controller_name order request g u
      → Before (HasData c controller_name order request d) u
      → Keeps u
          (Allowed c controller_name order request)
          (control c controller_name order k g config d)
  unfolding control
  control-Keeps k g config d u unready known hd =
      Keeps-bind (service_of c d) _ (service_of-Keeps c controller_name order request d u)
        (λ service.
          let keeps =
            provision_control_plane-Keeps c controller_name order request k g config d service u
              known hd in
          Keeps-bind_answer (provision_control_plane c k g config d service) _ keeps
            (λ r t answered.
              let later =
                Answered-Extends (provision_control_plane c k g config d service) r t keeps
                  answered in
              after_control g r.0 d r.1 t unready (Before-later t u later known)
                (Before-later t u later hd)
                (Answers-Answered (provision_control_plane c k g config d service) r
                  (provision_control_plane-Told c k g config d service) answered)
                (λ p e ready. record {
                  gateway = g;
                  class = k;
                  config = config;
                  service = service;
                  marked = r.0;
                  start = answered.before;
                  supported = Before-later t u later known;
                  run = answered.answer ∙ ap (λ (o : Option ControlPlane). (ok (r.0, o), t)) e;
                  ready = ready;
                })))

  -- what follows the provisioning of the data plane
  after_data :
      (k : GatewayClass) (g g' : Gateway) (config : GatewayConfiguration) (found : Option DataPlane)
      (t : Trace)
      → NotReady g
      → Known c controller_name order request g t
      → DataTold c g (g', found)
      → ((d : DataPlane)
          → found ≡ some d
          → is_ready d ≡ true
          → HasData c controller_name order request d t)
      → Keeps t (Allowed c controller_name order request) (
          if not (is_valid_condition data_plane_ready_type g')
          then update_status c g'
          else (needed found >>= λ d. control c controller_name order k g' config d))
  after_data k g g' config none t unready known said has =
      Keeps-if (not (is_valid_condition data_plane_ready_type g')) _ _
        (λ _. waiting-Keeps c controller_name order request g' t (said.readiness ∙ unready))
        (λ _. Keeps-bind-raise _ _)
  after_data k g g' config (some d) t unready known said has =
      Keeps-if (not (is_valid_condition data_plane_ready_type g')) _ _
        (λ _. waiting-Keeps c controller_name order request g' t (said.readiness ∙ unready))
        (λ valid.
          let (q, e, ready) = said.told.0 (ground (arith, valid)) in
          Keeps-bind-pure d _ (
            control-Keeps k g' config d t (said.readiness ∙ unready)
              (Known-same c controller_name order request g g' t said.metadata known)
              (Before-now t (has d refl (ground (arith, e, ready))))))

  pub provision-Keeps :
      (k : GatewayClass) (g : Gateway) (config : GatewayConfiguration) (u : Trace)
      → NotReady g
      → Known c controller_name order request g u
      → Keeps u
          (Allowed c controller_name order request)
          (provision c controller_name order k g config)
  unfolding provision
  provision-Keeps k g config u unready known =
      let keeps = provision_data_plane-Keeps c controller_name order request g config u known in
      Keeps-bind_answer (provision_data_plane c order g config) _ keeps (λ r t answered.
        after_data k g r.0 config r.1 t unready
          (Before-later t u
            (Answered-Extends (provision_data_plane c order g config) r t keeps answered) known)
          (Answers-Answered (provision_data_plane c order g config) r
            (provision_data_plane-Told c order g config) answered)
          (λ d e ready. record {
            gateway = g;
            config = config;
            marked = r.0;
            start = answered.before;
            supported =
                Before-later t u
                  (Answered-Extends (provision_data_plane c order g config) r t keeps answered)
                  known;
            run = answered.answer ∙ ap (λ (o : Option DataPlane). (ok (r.0, o), t)) e;
            ready = ready;
          }))
