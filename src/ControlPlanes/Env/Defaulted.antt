-- ===== src/ControlPlanes/Env/Defaulted.antt =====
-- What a control plane's environment holds after its defaults are set.
use gateway_operator.Prelude.{
  ◌&&◌, not, String, ◌≡◌, ◌≢◌, ◌∙◌, Bool, true, false, some, List, arith, eq_iff, if◌then◌else◌,
  ◌==◌, string_eq, option_beq_iff, ap, refl, sym,
}
use gateway_operator.Api.Env.{EnvVarSource, env_var_source_eq}
use gateway_operator.ControlPlanes.Env.{
  Progress, env_var_source_by_name, ensure_value, ensure_source, set_value, unless_disabled,
  pod_field, ControlPlaneOptions, env_value_by_name, reported_defaults, tls_client_cert_file_name,
  tls_defaults, ca_cert_file_name, kong_admin_url_name, set_control_plane_defaults,
  tls_client_key_file_name, controller_kong_admin_url, publish_service_name,
  controller_publish_service, not,
}
use gateway_operator.ControlPlanes.Env.Values.{source-update_env, source-update_env_source}
use gateway_operator.ControlPlanes.Env.Tls.{TlsFiles, disabled, TlsFiles-tls, tls_unreported}

source-ensure_value :
    (name value n : String) (p : Progress)
    → name ≢ n
    → env_var_source_by_name (ensure_value name value p).0 n ≡ env_var_source_by_name p.0 n
unfolding ensure_value
source-ensure_value name value n p other =
    ground (arith, source-update_env p.0 name value n, eq_iff name n, other)

source-set_value :
    (name value n : String) (p : Progress)
    → name ≢ n
    → env_var_source_by_name (set_value name value p).0 n ≡ env_var_source_by_name p.0 n
unfolding set_value
source-set_value name value n p other =
    ground (arith, source-update_env p.0 name value n, eq_iff name n, other)

source-ensure_source :
    (name : String) (source : EnvVarSource) (n : String) (p : Progress)
    → env_var_source_by_name (ensure_source name source p).0 n
      ≡ (if name == n then some source else env_var_source_by_name p.0 n)
unfolding ensure_source
source-ensure_source name source n p = ground (
  arith,
  source-update_env_source p.0 name source n,
  eq_iff name n,
  option_beq_iff (some source) (env_var_source_by_name p.0 name),
)

either_keeps :
    (Q : Progress → Type 0) (b : Bool) (p q : Progress) → Q p → Q q → Q (if b then p else q)
either_keeps Q true p q h k = h
either_keeps Q false p q h k = k

unless_disabled_keeps :
    (Q : Progress → Type 0) (dont_override : List String) (name : String)
    (f : String → Progress → Progress) (p : Progress)
    → Q p
    → Q (f name p)
    → Q (unless_disabled dont_override name f p)
unfolding unless_disabled
unless_disabled_keeps Q dont_override name f p h k =
    either_keeps Q (disabled dont_override name) p (f name p) h k

-- The pod's namespace and name come from its metadata.
abbrev PodFields : Progress → Type 0
PodFields p =
    (env_var_source_by_name p.0 "POD_NAMESPACE" ≡ some (pod_field "metadata.namespace"))
    × (env_var_source_by_name p.0 "POD_NAME" ≡ some (pod_field "metadata.name"))

-- A name that is neither of the two.
abbrev NotPod : String → Type 0
NotPod name = (name ≢ "POD_NAMESPACE") × (name ≢ "POD_NAME")

PodFields-ensure_value :
    (name value : String) (p : Progress)
    → NotPod name
    → PodFields p
    → PodFields (ensure_value name value p)
PodFields-ensure_value name value p other h = (
  source-ensure_value name value "POD_NAMESPACE" p other.0 ∙ h.0,
  source-ensure_value name value "POD_NAME" p other.1 ∙ h.1,
)

PodFields-set_value :
    (name value : String) (p : Progress)
    → NotPod name
    → PodFields p
    → PodFields (set_value name value p)
PodFields-set_value name value p other h = (
  source-set_value name value "POD_NAMESPACE" p other.0 ∙ h.0,
  source-set_value name value "POD_NAME" p other.1 ∙ h.1,
)

PodFields-start :
    (p : Progress)
    → PodFields (
        ensure_source "POD_NAME"
          (pod_field "metadata.name")
          (ensure_source "POD_NAMESPACE" (pod_field "metadata.namespace") p))
PodFields-start p = (
  source-ensure_source "POD_NAME" (pod_field "metadata.name") "POD_NAMESPACE" _
      ∙ source-ensure_source "POD_NAMESPACE" (pod_field "metadata.namespace") "POD_NAMESPACE" p,
  source-ensure_source "POD_NAME" (pod_field "metadata.name") "POD_NAME" _,
)

not_pod :
    (name : String) → (name == "POD_NAMESPACE") ≡ false → (name == "POD_NAME") ≡ false → NotPod name
not_pod name h k = (
  λ e. ground (arith, eq_iff name "POD_NAMESPACE", h, e),
  λ e. ground (arith, eq_iff name "POD_NAME", k, e),
)

PodFields-unless_ensure :
    (dont_override : List String) (name value : String) (p : Progress)
    → NotPod name
    → PodFields p
    → PodFields (unless_disabled dont_override name (λ n. ensure_value n value) p)
PodFields-unless_ensure dont_override name value p other h =
    unless_disabled_keeps PodFields dont_override name (λ n. ensure_value n value) p h
      (PodFields-ensure_value name value p other h)

PodFields-unless_set :
    (dont_override : List String) (name value : String) (p : Progress)
    → NotPod name
    → PodFields p
    → PodFields (unless_disabled dont_override name (λ n. set_value n value) p)
PodFields-unless_set dont_override name value p other h =
    unless_disabled_keeps PodFields dont_override name (λ n. set_value n value) p h
      (PodFields-set_value name value p other h)

PodFields-reported :
    (namespace service_name : String) (dont_override : List String) (p : Progress)
    → PodFields (reported_defaults namespace service_name dont_override p)
unfolding reported_defaults
PodFields-reported namespace service_name dont_override p =
    either_keeps PodFields (not (namespace == "") && not (service_name == "")) _ _
      (PodFields-unless_ensure dont_override kong_admin_url_name
        (controller_kong_admin_url service_name namespace) _ (not_pod kong_admin_url_name refl refl)
        (PodFields-unless_ensure dont_override publish_service_name
          (controller_publish_service service_name namespace) _
          (not_pod publish_service_name refl refl) (PodFields-start p)))
      (PodFields-start p)

PodFields-tls :
    (dont_override : List String) (p : Progress)
    → PodFields p
    → PodFields (tls_defaults dont_override p)
unfolding tls_defaults
PodFields-tls dont_override p h =
    PodFields-unless_set dont_override ca_cert_file_name _ _ (not_pod ca_cert_file_name refl refl) (
      PodFields-unless_set dont_override tls_client_key_file_name _ _
        (not_pod tls_client_key_file_name refl refl)
        (PodFields-unless_set dont_override tls_client_cert_file_name _ p
          (not_pod tls_client_cert_file_name refl refl) h))

module _ (spec : ControlPlaneOptions) (namespace service_name : String)
    (dont_override : List String) where
  abbrev defaulted : ControlPlaneOptions × Bool
  defaulted = set_control_plane_defaults spec namespace service_name dont_override

  -- After the defaults are set, the pod's namespace and name come from its metadata, and each file
  -- of the TLS client that may be overridden is that of the cluster certificate.
  defaults_lem :
      PodFields (defaulted.0.deployment.env, defaulted.1)
      × TlsFiles dont_override (defaulted.0.deployment.env, defaulted.1)
  unfolding set_control_plane_defaults
  defaults_lem = (
    PodFields-tls dont_override
        (reported_defaults namespace service_name dont_override (spec.deployment.env, false))
        (PodFields-reported namespace service_name dont_override (spec.deployment.env, false)),
    TlsFiles-tls dont_override
        (reported_defaults namespace service_name dont_override (spec.deployment.env, false)),
  )

  -- If the settings before those of the TLS client need no change, and the client certificate may be
  -- overridden and is not the one of the cluster certificate, then no change is reported although
  -- the environment has changed.
  pub unreported_change :
      reported_defaults namespace service_name dont_override (spec.deployment.env, false)
        ≡ (spec.deployment.env, false)
      → disabled dont_override tls_client_cert_file_name ≡ false
      → env_value_by_name spec.deployment.env tls_client_cert_file_name
        ≢ "/var/cluster-certificate/tls.crt"
      → (defaulted.1 ≡ false) × (defaulted.0 ≢ spec)
  unfolding set_control_plane_defaults
  unreported_change settled enabled stale = (
    tls_unreported dont_override
          (reported_defaults namespace service_name dont_override (spec.deployment.env, false))
        ∙ ap (λ (p : Progress). p.1) settled,
    λ same. stale (
        ap
          (λ (s : ControlPlaneOptions).
            env_value_by_name s.deployment.env tls_client_cert_file_name)
          (sym same)
        ∙ defaults_lem.1.0 enabled),
  )
