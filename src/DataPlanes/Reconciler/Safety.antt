-- ===== src/DataPlanes/Reconciler/Safety.antt =====
-- What a reconciliation of a data plane writes only under conditions.
use gateway_operator.Prelude.{String, ◌≡◌, true, false, refl}
use gateway_operator.Errors.{ok}
use gateway_operator.Api.Resources.{DataPlane}
use gateway_operator.Api.Workloads.{Deployment, Service, Secret}
use gateway_operator.Status.{is_ready, data_plane_conditions}
use gateway_operator.Validation.{validate}
use gateway_operator.Validation.Reads.{validate_deploy_options-Keeps}
use gateway_operator.Lists.{
  list_deployments_for_owner, list_services_for_owner, list_secrets_for_owner,
}
use gateway_operator.Certificates.{
  maybe_create_certificate_secret, create_certificate_secret, update_certificate_secret,
}
use gateway_operator.DataPlanes.Owned.{
  update_owned_deployment, generated_deployment, refreshed_containers,
  ensure_deployment_for_data_plane, ensure_certificate, ensure_service_for_data_plane,
  update_owned_deployment, update_owned_service,
}
use gateway_operator.DataPlanes.Owned.Deployments.{
  RunsOptions, refreshed_containers-RunsOptions, generated_proxy,
}
use gateway_operator.DataPlanes.Generators.{proxy_container}
use gateway_operator.DataPlanes.Reconciler.{deployment_ready, Crypto, NamespacedName, List}
use gateway_operator.Client.{Client, Call, Trace}
use gateway_operator.Client.Calls
use gateway_operator.Client.Before.{Before, Ran, Before-later}
use gateway_operator.Client.Keeps.{Keeps, Extends, keeps_rules, Extends-trans}
use gateway_operator.Api.Meta.{ObjectMeta}

module _ (c : Client) (request : NamespacedName) where
  -- The data plane is the one that the server answered to the read of the request, but for its
  -- status.
  pub record Fetched (d : DataPlane) (t : Trace) : Type 0 where
    pub stored : DataPlane
    pub answered : Before (Ran (Calls.get_data_plane c request) stored) t
    pub same_metadata : d.metadata ≡ stored.metadata
    pub same_spec : d.spec ≡ stored.spec

  -- Before the calls that come after `t`, the validation has accepted the data plane, which is the
  -- one of the request.
  pub record Accepted (d : DataPlane) (t : Trace) : Type 0 where
    pub fetched : Fetched d t
    pub before : Trace
    pub after : Trace
    pub accepted : validate c d before ≡ (ok tt, after)
    pub since : Extends t after

  -- It has accepted the data plane of the request.
  abbrev pub Validated : Trace → Type 0
  Validated t = (d : DataPlane) × Accepted d t

  -- The Deployment is the one generated for the data plane of the request, which was accepted.
  pub record IsGenerated (x : Deployment) (t : Trace) : Type 0 where
    pub data_plane : DataPlane
    pub secret_name : String
    pub accepted : Accepted data_plane t
    pub generated : x ≡ generated_deployment data_plane secret_name

  -- The Deployment runs its proxy with the environment of the data plane of the
  -- request, which was accepted.
  pub record IsRefreshed (x : Deployment) (t : Trace) : Type 0 where
    pub data_plane : DataPlane
    pub accepted : Accepted data_plane t
    pub runs : RunsOptions data_plane x.template.containers

  -- Before the calls that come after `t`, the Deployment of the data plane of the request was found
  -- as wanted, with pods that are all available.
  pub record PodsAvailable (t : Trace) : Type 0 where
    pub data_plane : DataPlane
    pub accepted : Accepted data_plane t
    pub secret_name : String
    pub deployment : Deployment
    pub before : Trace
    pub after : Trace
    pub found :
        ensure_deployment_for_data_plane c data_plane secret_name before
        ≡ (ok (false, deployment), after)
    pub available : deployment_ready deployment ≡ true
    pub since : Extends t after

  -- What holds when the call is made after the calls `t`.
  abbrev pub Safe : Trace → Call → Type 0
  Safe t (Call.create_deployment x) = IsGenerated x t
  Safe t (Call.update_deployment x) = IsRefreshed x t
  Safe t (Call.create_secret x) = Validated t
  Safe t (Call.update_secret x) = Validated t
  Safe t (Call.update_status_data_plane x) = is_ready x ≡ true → PodsAvailable t
  Safe t _ = Unit

  pub validate-Keeps : (d : DataPlane) (u : Trace) → Keeps u Safe (validate c d)
  unfolding validate
  validate-Keeps d u =
      validate_deploy_options-Keeps (λ n t e. tt) (λ n t e. tt) c d.metadata.namespace d.spec

  list_deployments-Keeps :
      (label value namespace uid : String) (u : Trace)
      → Keeps u Safe (list_deployments_for_owner c label value namespace uid)
  unfolding list_deployments_for_owner
  list_deployments-Keeps label value namespace uid u = search (keeps_rules)

  list_services-Keeps :
      (label value namespace uid : String) (u : Trace)
      → Keeps u Safe (list_services_for_owner c label value namespace uid)
  unfolding list_services_for_owner
  list_services-Keeps label value namespace uid u = search (keeps_rules)

  list_secrets-Keeps :
      (label value uid : String) (u : Trace)
      → Keeps u Safe (list_secrets_for_owner c label value uid)
  unfolding list_secrets_for_owner
  list_secrets-Keeps label value uid u = search (keeps_rules)

  update_service-Keeps :
      (generated existing : Service) (u : Trace)
      → Keeps u Safe (update_owned_service c generated existing)
  unfolding update_owned_service
  update_service-Keeps generated existing u = search (keeps_rules) depth 8

  pub ensure_service-Keeps :
      (d : DataPlane) (u : Trace) → Keeps u Safe (ensure_service_for_data_plane c d)
  unfolding ensure_service_for_data_plane
  ensure_service-Keeps d u = search (keeps_rules, list_services-Keeps, update_service-Keeps) depth 8

  pub Fetched-later : (d : DataPlane) (t u : Trace) → Extends t u → Fetched d u → Fetched d t
  Fetched-later d t u e f = record {
    stored = f.stored;
    answered = Before-later t u e f.answered;
    same_metadata = f.same_metadata;
    same_spec = f.same_spec;
  }

  pub Accepted-later : (d : DataPlane) (t u : Trace) → Extends t u → Accepted d u → Accepted d t
  unfolding Fetched-later
  Accepted-later d t u e v = record {
    fetched = Fetched-later d t u e v.fetched;
    before = v.before;
    after = v.after;
    accepted = v.accepted;
    since = Extends-trans t u v.after e v.since;
  }

  Validated-later : (t u : Trace) → Extends t u → Validated u → Validated t
  Validated-later t u e v = (v.0, Accepted-later v.0 t u e v.1)

  pub PodsAvailable-later : (t u : Trace) → Extends t u → PodsAvailable u → PodsAvailable t
  unfolding Accepted-later
  PodsAvailable-later t u e v = record {
    data_plane = v.data_plane;
    accepted = Accepted-later v.data_plane t u e v.accepted;
    secret_name = v.secret_name;
    deployment = v.deployment;
    before = v.before;
    after = v.after;
    found = v.found;
    available = v.available;
    since = Extends-trans t u v.after e v.since;
  }

  create_certificate-Keeps :
      (crypto : Crypto) (secret : Secret) (subject : String) (ca_name : NamespacedName)
      (usages : List String) (u : Trace)
      → Validated u
      → Keeps u Safe (create_certificate_secret c crypto secret subject ca_name usages)
  unfolding create_certificate_secret
  create_certificate-Keeps crypto secret subject ca_name usages u v =
      search (keeps_rules, Validated-later) depth 14

  update_certificate-Keeps :
      (crypto : Crypto) (existing generated : Secret) (u : Trace)
      → Validated u
      → Keeps u Safe (update_certificate_secret c crypto existing generated)
  unfolding update_certificate_secret
  update_certificate-Keeps crypto existing generated u v =
      search (keeps_rules, Validated-later) depth 8

  pub ensure_certificate-Keeps :
      (crypto : Crypto) (ca_name : NamespacedName) (d : DataPlane) (service_name : String)
      (u : Trace)
      → Validated u
      → Keeps u Safe (ensure_certificate c crypto ca_name d service_name)
  unfolding ensure_certificate maybe_create_certificate_secret
  ensure_certificate-Keeps crypto ca_name d service_name u v =
      search (keeps_rules, list_secrets-Keeps, create_certificate-Keeps, update_certificate-Keeps)
        depth 8

  updated_deployment :
      (d : DataPlane) (secret_name : String) (existing : Deployment) (meta : ObjectMeta) (t : Trace)
      → Accepted d t
      → IsRefreshed
          (record existing {
            metadata = meta;
            template = record existing.template {
              containers =
                  (refreshed_containers d
                    (generated_deployment d secret_name).template.containers
                    existing.template).0;
            };
          })
          t
  updated_deployment d secret_name existing meta t v = record {
    data_plane = d;
    accepted = v;
    runs =
        refreshed_containers-RunsOptions d (generated_deployment d secret_name).template.containers
          existing.template (proxy_container d) (generated_proxy d secret_name);
  }

  created_deployment :
      (d : DataPlane) (secret_name : String) (t : Trace)
      → Accepted d t
      → IsGenerated (generated_deployment d secret_name) t
  created_deployment d secret_name t v = record {
    data_plane = d;
    secret_name = secret_name;
    accepted = v;
    generated = refl;
  }

  update_deployment-Keeps :
      (d : DataPlane) (secret_name : String) (existing : Deployment) (u : Trace)
      → Accepted d u
      → Keeps u Safe (update_owned_deployment c d (generated_deployment d secret_name) existing)
  unfolding update_owned_deployment
  update_deployment-Keeps d secret_name existing u v =
      search (keeps_rules, Accepted-later, updated_deployment) depth 8

  pub ensure_deployment-Keeps :
      (d : DataPlane) (secret_name : String) (u : Trace)
      → Accepted d u
      → Keeps u Safe (ensure_deployment_for_data_plane c d secret_name)
  unfolding ensure_deployment_for_data_plane
  ensure_deployment-Keeps d secret_name u v =
      search
        (
          keeps_rules, list_deployments-Keeps, update_deployment-Keeps, Accepted-later,
          created_deployment,
        )
        depth 8
