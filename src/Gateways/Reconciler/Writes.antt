-- ===== src/Gateways/Reconciler/Writes.antt =====
-- The writes of a reconciliation of a gateway whose planes are ready, and of its status.
use gateway_operator.Prelude.{String, ◌≡◌, sym, Bool, true, false, List, arith, if◌then◌else◌}
use mathlib.Core.Path.{subst}
use gateway_operator.Errors.{Result, ok, err}
use gateway_operator.Api.Meta.{ObjectMeta, NamespacedName}
use gateway_operator.Api.Resources.{DataPlane, ControlPlane, Gateway}
use gateway_operator.Lists.{list_services_for_owner}
use gateway_operator.Status.{
  data_plane_conditions, control_plane_conditions, gateway_conditions, is_ready,
}
use gateway_operator.Gateways.Owned.{ensure_data_plane_has_network_policy}
use gateway_operator.Gateways.Readiness.{
  service_of, ensure_gateway_marked_ready, mark_service, update_status, or_empty, announce,
}
use gateway_operator.Gateways.Reconciler.{secure, finish}
use gateway_operator.Gateways.Reconciler.Safety.{Allowed, Supports, HasData, HasControl, Secured}
use gateway_operator.Gateways.Reconciler.Planes.{Known, mark-Keeps, network_policy-Keeps}
use gateway_operator.Client.{Client, Trace, pure}
use gateway_operator.Client.Keeps.{
  Keeps, Keeps-bind_answer, Keeps-pure, Extends, Answered, Answered-Extends, keeps_rules,
}
use gateway_operator.Client.Before.{Before, Before-now, Before-later}

abbrev pub NotReady : Gateway → Type 0
NotReady g = is_ready g ≡ false

module _ (c : Client) (controller_name : String) (order : List (String × String))
    (request : NamespacedName) where
  or_empty-Keeps :
      (r : Result Gateway) (u : Trace)
      → Keeps u (Allowed c controller_name order request) (or_empty c r)
  unfolding or_empty
  or_empty-Keeps (ok g) u = search keeps_rules
  or_empty-Keeps (err e) u = search keeps_rules

  Secured-later :
      (t u : Trace)
      → Extends t u
      → Secured c controller_name order request u
      → Secured c controller_name order request t
  Secured-later t u e (d, p, hd, hp, hn) =
      (d, p, Before-later t u e hd, Before-later t u e hp, Before-later t u e hn)

  pub update_status-Keeps :
      (g : Gateway) (u : Trace)
      → (is_ready g ≡ true → Secured c controller_name order request u)
      → Keeps u (Allowed c controller_name order request) (update_status c g)
  unfolding update_status
  update_status-Keeps g u h = search (keeps_rules, or_empty-Keeps, Secured-later) depth 8

  pub waiting-Keeps :
      (g : Gateway) (u : Trace)
      → NotReady g
      → Keeps u (Allowed c controller_name order request) (update_status c g)
  waiting-Keeps g u h = update_status-Keeps g u (λ ready. ground (arith, h, ready))

  pub service_of-Keeps :
      (d : DataPlane) (u : Trace)
      → Keeps u (Allowed c controller_name order request) (service_of c d)
  unfolding service_of list_services_for_owner
  service_of-Keeps d u = search keeps_rules depth 8

  announce-Keeps :
      (g : Gateway) (r : Result (List String)) (u : Trace)
      → Secured c controller_name order request u
      → Keeps u (Allowed c controller_name order request) (announce c g r)
  unfolding announce
  announce-Keeps g (err e) u h = search keeps_rules
  announce-Keeps g (ok addresses) u h = search (keeps_rules, Secured-later) depth 8

  marked_ready-Keeps :
      (g : Gateway) (d : DataPlane) (u : Trace)
      → Secured c controller_name order request u
      → Keeps u (Allowed c controller_name order request) (ensure_gateway_marked_ready c g d)
  unfolding ensure_gateway_marked_ready
  marked_ready-Keeps g d u h = search (keeps_rules, service_of-Keeps, announce-Keeps)

  mark_service-Keeps :
      (g : Gateway) (r : Result (Unit {0})) (u : Trace)
      → Keeps u (Allowed c controller_name order request) (mark_service c g r)
  unfolding mark_service
  mark_service-Keeps g (ok _) u = mark-Keeps c controller_name order request _ _ _ _ g u
  mark_service-Keeps g (err e) u = mark-Keeps c controller_name order request _ _ _ _ g u

  status_write-Keeps :
      (g : Gateway) (u : Trace)
      → Secured c controller_name order request u
      → Keeps u (Allowed c controller_name order request) (update_status c g)
  status_write-Keeps g u h = update_status-Keeps g u (λ _. h)

  finish-Keeps :
      (g : Gateway) (d : DataPlane) (u : Trace)
      → Secured c controller_name order request u
      → Keeps u (Allowed c controller_name order request) (finish c controller_name order g d)
  unfolding finish
  finish-Keeps g d u h =
      search (keeps_rules, marked_ready-Keeps, mark_service-Keeps, status_write-Keeps) depth 8

  pub secure-Keeps :
      (g : Gateway) (d : DataPlane) (p : ControlPlane) (u : Trace)
      → Known c controller_name order request g u
      → Before (HasData c controller_name order request d) u
      → Before (HasControl c controller_name order request d p) u
      → Keeps u (Allowed c controller_name order request) (secure c controller_name order g d p)
  unfolding secure
  secure-Keeps g d p u known hd hp =
      Keeps-bind_answer (ensure_data_plane_has_network_policy c g d p) _
        (network_policy-Keeps c controller_name order request g d p u known hd hp)
        (λ written t answered. after written t answered (
          Answered-Extends (ensure_data_plane_has_network_policy c g d p) written t
            (network_policy-Keeps c controller_name order request g d p u known hd hp) answered))
    where
      after :
          (written : Bool) (t : Trace)
          → Answered u (ensure_data_plane_has_network_policy c g d p) written t
          → Extends t u
          → Keeps t
              (Allowed c controller_name order request)
              (if written then pure tt else finish c controller_name order g d)
      after true t answered e = Keeps-pure tt
      after false t answered e = finish-Keeps g d t (
        d,
        p,
        Before-later t u e hd,
        Before-later t u e hp,
        Before-now t (record {
          gateway = g;
          start = answered.before;
          supported = Before-later t u e known;
          run = answered.answer;
        }),
      )

  pub Known-same :
      (g g' : Gateway) (u : Trace)
      → g'.metadata ≡ g.metadata
      → Known c controller_name order request g u
      → Known c controller_name order request g' u
  Known-same g g' u e known =
      subst (λ (m : ObjectMeta). Before (Supports c controller_name order request m) u) (sym e)
        known
