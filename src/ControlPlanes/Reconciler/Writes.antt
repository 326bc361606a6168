-- ===== src/ControlPlanes/Reconciler/Writes.antt =====
-- What a reconciliation of a control plane writes, and when.
use gateway_operator.Prelude.{String, ◌≡◌, ◌⊎◌, inl, inr, Bool, true, false, if◌then◌else◌}
use gateway_operator.Errors.{Result, ok, err}
use gateway_operator.Api.Meta.{NamespacedName}
use gateway_operator.Api.Resources.{ControlPlane}
use gateway_operator.Api.Workloads.{Deployment, ServiceAccount, ClusterRole, ClusterRoleBinding}
use gateway_operator.Status.{is_ready, control_plane_conditions}
use gateway_operator.Lists.{list_deployments_for_owner}
use gateway_operator.Outcomes.{done, or_requeue}
use gateway_operator.DataPlanes.Reconciler.{deployment_ready}
use gateway_operator.ControlPlanes.Conditions.{update_status}
use gateway_operator.ControlPlanes.Owned.{
  ensure_deployment_for_control_plane, ensure_service_account_for_control_plane,
  ensure_cluster_role_binding_for_control_plane, ensure_certificate, update_controller_deployment,
}
use gateway_operator.ControlPlanes.Owned.Scale.{
  Follows, Found, generated-Found, dormant-Follows, refreshed-Follows,
}
use gateway_operator.ControlPlanes.Roles.{ensure_cluster_role_for_control_plane}
use gateway_operator.ControlPlanes.Reconciler.{Outside, finish, deploy, authorize}
use gateway_operator.ControlPlanes.Reconciler.Safety.{
  Named, Origin, Current, InPlace, IsWanted, PodsAvailable, Stale, Guarded,
}
use gateway_operator.ControlPlanes.Reconciler.Reads.{
  service_account-Keeps, binding-Keeps, certificate-Keeps, or_empty-Keeps, cluster_role-Keeps,
}
use gateway_operator.Client.{Client, Trace, pure, ◌>>=◌}
use gateway_operator.Client.Keeps.{Keeps, Extends, Keeps-pure, keeps_rules}
use gateway_operator.Client.Before.{Before, Before-later, Ran, Keeps-unless_written}

module _ (c : Client) (ca_name : NamespacedName) (o : Outside) (request : NamespacedName) where
  pub Named-later :
      (p : ControlPlane) (service_name : String) (t u : Trace)
      → Extends t u
      → Named c ca_name o request p service_name u
      → Named c ca_name o request p service_name t
  Named-later p service_name t u e (answer, got, ran) =
      (answer, Before-later t u e got, Before-later t u e ran)

  Origin-later :
      (p stored : ControlPlane) (t u : Trace)
      → Extends t u
      → Origin c ca_name o request p stored u
      → Origin c ca_name o request p stored t
  Origin-later p stored t u e (inl (read, service_name, (q, meta, same, named), spec)) = inl (
    Before-later t u e read,
    service_name,
    (q, meta, same, Named-later q service_name t u e named),
    spec,
  )
  Origin-later p stored t u e (inr (sent, answered, spec)) =
      inr (sent, Before-later t u e answered, spec)

  pub Current-later :
      (p : ControlPlane) (t u : Trace)
      → Extends t u
      → Current c ca_name o request p u
      → Current c ca_name o request p t
  Current-later p t u e h = record {
    stored = h.stored;
    same_metadata = h.same_metadata;
    origin = Origin-later p h.stored t u e h.origin;
  }

  InPlace-later :
      (p : ControlPlane) (t u : Trace)
      → Extends t u
      → InPlace c ca_name o request p u
      → InPlace c ca_name o request p t
  unfolding Current-later
  InPlace-later p t u e i = record {
    current = Current-later p t u e i.current;
    account = i.account;
    role = i.role;
    binding = i.binding;
    secret = i.secret;
    has_account = Before-later t u e i.has_account;
    has_role = Before-later t u e i.has_role;
    has_binding = Before-later t u e i.has_binding;
    has_secret = Before-later t u e i.has_secret;
  }

  pub Stale-later :
      (t u : Trace) → Extends t u → Stale c ca_name o request u → Stale c ca_name o request t
  Stale-later t u e s = record {
    sent = s.sent;
    stored = s.stored;
    answered = Before-later t u e s.answered;
    ready = s.ready;
  }

  PodsAvailable-later :
      (t u : Trace)
      → Extends t u
      → PodsAvailable c ca_name o request u
      → PodsAvailable c ca_name o request t
  unfolding InPlace-later
  PodsAvailable-later t u e v = record {
    plane = v.plane;
    in_place = InPlace-later v.plane t u e v.in_place;
    deployment = v.deployment;
    found = Before-later t u e v.found;
    available = v.available;
  }

  Reason-later :
      (t u : Trace)
      → Extends t u
      → PodsAvailable c ca_name o request u ⊎ Stale c ca_name o request u
      → PodsAvailable c ca_name o request t ⊎ Stale c ca_name o request t
  Reason-later t u e (inl v) = inl (PodsAvailable-later t u e v)
  Reason-later t u e (inr s) = inr (Stale-later t u e s)

  wanted :
      (p : ControlPlane) (x : Deployment) (t u : Trace)
      → Extends t u
      → Follows p x
      → InPlace c ca_name o request p u
      → IsWanted c ca_name o request x t
  wanted p x t u e f i = (p, f, InPlace-later p t u e i)

  update_deployment-Keeps :
      (p : ControlPlane) (generated existing : Deployment) (u : Trace)
      → Found p generated.template.containers
      → InPlace c ca_name o request p u
      → Keeps u (Guarded c ca_name o request) (update_controller_deployment c p generated existing)
  unfolding update_controller_deployment
  update_deployment-Keeps p generated existing u h i =
      search (keeps_rules, refreshed-Follows, wanted) depth 10

  deployment-Keeps :
      (p : ControlPlane) (account secret : String) (u : Trace)
      → InPlace c ca_name o request p u
      → Keeps u
          (Guarded c ca_name o request)
          (ensure_deployment_for_control_plane c p account secret)
  unfolding ensure_deployment_for_control_plane list_deployments_for_owner
  deployment-Keeps p account secret u i =
      search (keeps_rules, update_deployment-Keeps, dormant-Follows, generated-Found, wanted) depth
        10

  pub update_status-Keeps :
      (p : ControlPlane) (u : Trace)
      → (is_ready p ≡ true → PodsAvailable c ca_name o request u ⊎ Stale c ca_name o request u)
      → Keeps u (Guarded c ca_name o request) (update_status c p)
  unfolding update_status
  update_status-Keeps p u h = search (keeps_rules, or_empty-Keeps, Reason-later) depth 8

  pub or_requeue-Keeps :
      {A : Type 0} (r : Result A) (u : Trace) → Keeps u (Guarded c ca_name o request) (or_requeue r)
  unfolding or_requeue
  or_requeue-Keeps (ok _) u = search keeps_rules
  or_requeue-Keeps (err e) u = search keeps_rules

  excused_by_pods :
      (p : ControlPlane) (u : Trace)
      → PodsAvailable c ca_name o request u
      → is_ready p ≡ true
      → PodsAvailable c ca_name o request u ⊎ Stale c ca_name o request u
  excused_by_pods p u v ready = inl v

  pub excused_by_answer :
      (p : ControlPlane) (u : Trace)
      → (is_ready p ≡ true → Stale c ca_name o request u)
      → is_ready p ≡ true
      → PodsAvailable c ca_name o request u ⊎ Stale c ca_name o request u
  excused_by_answer p u h ready = inr (h ready)

  finish-Keeps :
      (p : ControlPlane) (deployment : Deployment) (u : Trace)
      → (deployment_ready deployment ≡ true → PodsAvailable c ca_name o request u)
      → Keeps u (Guarded c ca_name o request) (finish c ca_name o p deployment)
  unfolding finish
  finish-Keeps p deployment u h =
      search (keeps_rules, or_requeue-Keeps, update_status-Keeps, excused_by_pods) depth 8

  -- what follows the write of a Deployment
  scaled-Keeps :
      (p : ControlPlane) (set : Bool) (u : Trace)
      → (is_ready p ≡ true → Stale c ca_name o request u)
      → Keeps u
          (Guarded c ca_name o request)
          (if set then pure done else update_status c p >>= (λ _. pure done))
  scaled-Keeps p set u h = search (keeps_rules, update_status-Keeps, excused_by_answer) depth 8

  placed-Keeps :
      (p : ControlPlane) (set : Bool) (u : Trace) (i : InPlace c ca_name o request p u)
      → (is_ready p ≡ true → Stale c ca_name o request u)
      → Keeps u (Guarded c ca_name o request) (
          ensure_deployment_for_control_plane c p i.account.metadata.name i.secret.metadata.name
          >>= λ r.
              if r.0
              then (if set then pure done else update_status c p >>= (λ _. pure done))
              else finish c ca_name o p r.1)
  unfolding InPlace-later
  placed-Keeps p set u i h =
      Keeps-unless_written
        (ensure_deployment_for_control_plane c p i.account.metadata.name i.secret.metadata.name) _
        (finish c ca_name o p)
        (deployment-Keeps p i.account.metadata.name i.secret.metadata.name u i)
        (λ t e. scaled-Keeps p set t (λ ready. Stale-later t u e (h ready)))
        (λ deployment t e found. finish-Keeps p deployment t (λ available. record {
          plane = p;
          in_place = InPlace-later p t u e i;
          deployment = deployment;
          found = found;
          available = available;
        }))

  -- The account has its role.
  record Bound (p : ControlPlane) (account : ServiceAccount) (t : Trace) : Type 0 where
    pub current : Current c ca_name o request p t
    pub role : ClusterRole
    pub binding : ClusterRoleBinding
    pub has_account : Before (Ran (ensure_service_account_for_control_plane c p) (false, account)) t
    pub has_role : Before (Ran (ensure_cluster_role_for_control_plane c o.semver p) (false, role)) t
    pub has_binding :
        Before
          (Ran
            (ensure_cluster_role_binding_for_control_plane c p account.metadata.name
              role.metadata.name)
            (false, binding))
          t

  deploy-Keeps :
      (p : ControlPlane) (set : Bool) (account : ServiceAccount) (u : Trace)
      → Bound p account u
      → (is_ready p ≡ true → Stale c ca_name o request u)
      → Keeps u (Guarded c ca_name o request) (deploy c ca_name o p set account)
  unfolding deploy
  deploy-Keeps p set account u b h =
      Keeps-unless_written (ensure_certificate c o.crypto ca_name p) (pure done) _
        (certificate-Keeps c ca_name o request p u) (λ t e. Keeps-pure done)
        (λ secret t e has_secret.
          placed-Keeps p set t
            (record {
              current = Current-later p t u e b.current;
              account = account;
              role = b.role;
              binding = b.binding;
              secret = secret;
              has_account = Before-later t u e b.has_account;
              has_role = Before-later t u e b.has_role;
              has_binding = Before-later t u e b.has_binding;
              has_secret = has_secret;
            })
            (λ ready. Stale-later t u e (h ready)))

  pub authorize-Keeps :
      (p : ControlPlane) (set : Bool) (u : Trace)
      → Current c ca_name o request p u
      → (is_ready p ≡ true → Stale c ca_name o request u)
      → Keeps u (Guarded c ca_name o request) (authorize c ca_name o p set)
  unfolding authorize
  authorize-Keeps p set u current h =
      Keeps-unless_written (ensure_service_account_for_control_plane c p) (pure done) _
        (service_account-Keeps c ca_name o request p u) (λ t e. Keeps-pure done)
        (λ account t1 e1 has_account.
          Keeps-unless_written (ensure_cluster_role_for_control_plane c o.semver p) (pure done) _
            (cluster_role-Keeps c ca_name o request p t1) (λ t e. Keeps-pure done)
            (λ role t2 e2 has_role.
              Keeps-unless_written
                (ensure_cluster_role_binding_for_control_plane c p account.metadata.name
                  role.metadata.name)
                (pure done) _
                (binding-Keeps c ca_name o request p account.metadata.name role.metadata.name t2)
                (λ t e. Keeps-pure done)
                (λ binding t3 e3 has_binding.
                  deploy-Keeps p set account t3
                    (record {
                      current =
                          Current-later p t3 t2 e3
                            (Current-later p t2 t1 e2 (Current-later p t1 u e1 current));
                      role = role;
                      binding = binding;
                      has_account = Before-later t3 t2 e3 (Before-later t2 t1 e2 has_account);
                      has_role = Before-later t3 t2 e3 has_role;
                      has_binding = has_binding;
                    })
                    (λ ready.
                      Stale-later t3 t2 e3
                        (Stale-later t2 t1 e2 (Stale-later t1 u e1 (h ready)))))))
