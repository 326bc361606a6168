-- ===== src/ControlPlanes/Reconciler/Connected.antt =====
-- A control plane that was marked as not ready, up to its accounts.
use gateway_operator.Prelude.{
  ℕ, String, ◌≡◌, refl, sym, ap, ◌∙◌, Bool, true, false, arith, Bool-cases, inl, inr, ◌==◌,
  string_eq, ℕ,
}
use gateway_operator.Errors.{Result, ok, err}
use gateway_operator.Api.Meta.{NamespacedName, Condition}
use gateway_operator.Api.Resources.{ControlPlane, ControlPlaneOptions}
use gateway_operator.Status.{
  is_ready, control_plane_conditions, set_condition, get_condition, new_condition, ready_type,
}
use gateway_operator.Status.Conditions.{is_valid-set_condition_in}
use gateway_operator.DataPlanes.Conditions.{provisioned_type}
use gateway_operator.ControlPlanes.Env.{
  data_plane_is_set, set_control_plane_env_on_data_plane_change, set_control_plane_defaults,
}
use gateway_operator.ControlPlanes.Conditions.{
  ensure_data_plane_status, ensure_data_plane_configuration, data_plane_condition, is_news,
}
use gateway_operator.ControlPlanes.Reconciler.{
  Outside, connected_service, aligned, configure, connect, [],
}
use gateway_operator.ControlPlanes.Reconciler.Safety.{Named, Stale, Guarded, Current, settled_spec}
use gateway_operator.ControlPlanes.Reconciler.Reads.{
  connected_service-Keeps, data_plane-Keeps, configuration-Keeps,
}
use gateway_operator.ControlPlanes.Reconciler.Writes.{
  Named-later, authorize-Keeps, or_requeue-Keeps,
}
use gateway_operator.Client.{Client, Trace, pure, read, attempt, ◌>>=◌}
use gateway_operator.Client.Monad.{attempt_answer}
use gateway_operator.Client.Keeps.{
  Keeps, Extends, Answered-Extends, Keeps-bind, Keeps-bind_answer, Keeps-read, Keeps-attempt,
  Answered, keeps_rules,
}
use gateway_operator.Client.Calls
use gateway_operator.Gateways.{get_data_plane_for_control_plane}
use gateway_operator.Client.Before.{Before, Ran, Before-later, Before-now, Before, Ran}

abbrev pub NotReady : ControlPlane → Type 0
NotReady p = is_ready p ≡ false

is_data_plane_condition :
    (now : ℕ) (set : Bool) → (data_plane_condition now set).type ≡ provisioned_type
unfolding data_plane_condition new_condition
is_data_plane_condition now true = refl
is_data_plane_condition now false = refl

-- whether a control plane is ready does not depend on the condition for its data plane
is_ready-data_plane_status :
    (now : ℕ) (p : ControlPlane) → is_ready (ensure_data_plane_status now p).0 ≡ is_ready p
unfolding is_ready ensure_data_plane_status set_condition
is_ready-data_plane_status now p =
    elim (Bool-cases (is_news (get_condition provisioned_type p) new)) [
      | inl news ↦ rw news (
          ground (
            arith,
            is_valid-set_condition_in ready_type new p.conditions,
            ap (λ type. type == ready_type)
                (is_data_plane_condition now (data_plane_is_set p.spec)),
          ))
      | inr old ↦ rw old refl
    ]
  where
    new : Condition
    new = data_plane_condition now (data_plane_is_set p.spec)

outcome_plane : ControlPlane → Result ControlPlane → ControlPlane
outcome_plane p (ok q) = q
outcome_plane p (err e) = p

module _ (c : Client) (ca_name : NamespacedName) (o : Outside) (request : NamespacedName) where
  -- A control plane that was not ready before its configuration for the data plane is so afterwards
  -- only as the answer to an update.
  configured :
      (p q : ControlPlane) (service_name : String) (start t : Trace)
      → NotReady p
      → ensure_data_plane_configuration c p service_name start ≡ (ok q, t)
      → is_ready q ≡ true
      → Stale c ca_name o request t
  unfolding ensure_data_plane_configuration pure is_ready outcome_plane
  configured p q service_name start t unready h ready = elim (Bool-cases change.1) [
    | inl wrote ↦ record {
      sent = record p { spec = change.0 };
      stored = q;
      answered = Before-now t (start, rw wrote at h);
      ready = ready;
    }
    | inr kept ↦ absurd (
        ground (
          arith,
          unready,
          ready,
          ap (λ (x : Result ControlPlane × Trace). is_ready (outcome_plane p x.0)) (rw kept at h),
        ))
  ]
    where
      change : ControlPlaneOptions × Bool
      change = set_control_plane_env_on_data_plane_change p.spec p.metadata.namespace service_name

  -- The control plane that was read for the request, but for its status.
  pub record AsRead (p : ControlPlane) (t : Trace) : Type 0 where
    pub stored : ControlPlane
    pub answered : Before (Ran (Calls.get_control_plane c request) stored) t
    pub same_metadata : p.metadata ≡ stored.metadata
    pub same_spec : p.spec ≡ stored.spec

  -- the defaults are set
  abbrev defaulted : ControlPlane → String → ControlPlane
  defaulted p service_name = record p {
    spec = (set_control_plane_defaults p.spec p.metadata.namespace service_name []).0;
  }

  -- what is then the control plane: the answer to an update, or what was read with its settings
  settled :
      (p q : ControlPlane) (service_name : String) (start t : Trace)
      → AsRead p t
      → Named c ca_name o request p service_name t
      → ensure_data_plane_configuration c (defaulted p service_name) service_name start ≡ (ok q, t)
      → Current c ca_name o request q t
  unfolding ensure_data_plane_configuration pure outcome_plane
  settled p q service_name start t read named h = elim (Bool-cases change.1) [
    | inl wrote ↦ record {
      stored = q;
      same_metadata = refl;
      origin = inr (record p { spec = change.0 }, Before-now t (start, rw wrote at h), refl);
    }
    | inr kept ↦
        let same = ap (λ (x : Result ControlPlane × Trace). outcome_plane p x.0) (rw kept at h) in
        record {
          stored = read.stored;
          same_metadata = ap (λ (x : ControlPlane). x.metadata) (sym same) ∙ read.same_metadata;
          origin = inl (
            read.answered,
            service_name,
            (p, read.same_metadata, read.same_spec, named),
            ap (λ (x : ControlPlane). x.spec) (sym same)
                ∙ settled_same p read.stored read.same_metadata read.same_spec,
          );
        }
  ]
    where
      change : ControlPlaneOptions × Bool
      change =
          set_control_plane_env_on_data_plane_change
            (set_control_plane_defaults p.spec p.metadata.namespace service_name []).0
            p.metadata.namespace service_name

      settled_same :
          (p stored : ControlPlane)
          → p.metadata ≡ stored.metadata
          → p.spec ≡ stored.spec
          → settled_spec p service_name ≡ settled_spec stored service_name
      settled_same p stored m s = rw (m, s) refl

  -- its status does not count
  Current-data_plane_status :
      (now : ℕ) (q : ControlPlane) (t : Trace)
      → Current c ca_name o request q t
      → Current c ca_name o request (ensure_data_plane_status now q).0 t
  unfolding ensure_data_plane_status set_condition
  Current-data_plane_status now q t h =
      elim (Bool-cases (
        is_news (get_condition provisioned_type q)
          (data_plane_condition now (data_plane_is_set q.spec)))) [
            | inl news ↦
                rw news
                  (record { stored = h.stored; same_metadata = h.same_metadata; origin = h.origin })
            | inr old ↦ rw old h
          ]

  aligned-Keeps :
      (p : ControlPlane) (service_name : String) (r : Result ControlPlane) (u t : Trace)
      → NotReady p
      → AsRead p t
      → Named c ca_name o request p service_name t
      → Answered u
          (attempt (ensure_data_plane_configuration c (defaulted p service_name) service_name))
          r
          t
      → Keeps t (Guarded c ca_name o request) (aligned c ca_name o r)
  unfolding aligned is_ready
  aligned-Keeps p service_name (err e) u t unready read_it named answered = search keeps_rules
  aligned-Keeps p service_name (ok q) u t unready read_it named answered =
      let run =
        attempt_answer (ensure_data_plane_configuration c (defaulted p service_name) service_name)
          answered.answer in
      Keeps-bind (read c.now) _ (Keeps-read c.now) (λ now.
        authorize-Keeps c ca_name o request (ensure_data_plane_status now q).0
          (ensure_data_plane_status now q).1 t
          (Current-data_plane_status now q t
            (settled p q service_name answered.before t read_it named run))
          (λ ready.
            configured (defaulted p service_name) q service_name answered.before t unready run
              (sym (is_ready-data_plane_status now q) ∙ ready)))

  AsRead-later : (p : ControlPlane) (t u : Trace) → Extends t u → AsRead p u → AsRead p t
  AsRead-later p t u e h = record {
    stored = h.stored;
    answered = Before-later t u e h.answered;
    same_metadata = h.same_metadata;
    same_spec = h.same_spec;
  }

  align-Keeps :
      (p : ControlPlane) (service_name : String) (u : Trace)
      → NotReady p
      → AsRead p u
      → Named c ca_name o request p service_name u
      → Keeps u (Guarded c ca_name o request) (
          attempt (ensure_data_plane_configuration c (defaulted p service_name) service_name)
          >>= aligned c ca_name o)
  align-Keeps p service_name u unready read_it named =
      let step = ensure_data_plane_configuration c (defaulted p service_name) service_name in
      let keeps =
        Keeps-attempt step
          (configuration-Keeps c ca_name o request (defaulted p service_name) service_name u) in
      Keeps-bind_answer (attempt step) _ keeps (λ r t answered.
        let later = Answered-Extends (attempt step) r t keeps answered in
        aligned-Keeps p service_name r u t unready (AsRead-later p t u later read_it)
          (Named-later c ca_name o request p service_name t u later named) answered)

  configure-Keeps :
      (p : ControlPlane) (service_name : String) (u : Trace)
      → NotReady p
      → AsRead p u
      → Named c ca_name o request p service_name u
      → Keeps u (Guarded c ca_name o request) (configure c ca_name o p service_name)
  unfolding configure is_ready
  configure-Keeps p service_name u unready read_it named =
      search (keeps_rules, or_requeue-Keeps, align-Keeps) depth 8

  pub connect-Keeps :
      (p : ControlPlane) (u : Trace)
      → NotReady p
      → AsRead p u
      → Keeps u (Guarded c ca_name o request) (connect c ca_name o p)
  unfolding connect
  connect-Keeps p u unready read_it =
      let found = Keeps-attempt _ (data_plane-Keeps c ca_name o request p u) in
      Keeps-bind_answer (attempt (get_data_plane_for_control_plane c p)) _ found (λ r t answered.
        let read_then =
          AsRead-later p t u
            (Answered-Extends (attempt (get_data_plane_for_control_plane c p)) r t found answered)
            read_it in
        let served = connected_service-Keeps c ca_name o request p r t in
        Keeps-bind_answer (connected_service c ca_name o p r) _ served (λ name w ran.
          let later = Answered-Extends (connected_service c ca_name o p r) name w served ran in
          configure-Keeps p name w unready (AsRead-later p w t later read_then) (
            r,
            Before-later w t later (Before-now t (answered.before, answered.answer)),
            Before-now w (ran.before, ran.answer),
          )))
