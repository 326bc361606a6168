-- ===== src/ControlPlanes/Env/Tls.antt =====
-- The files of the TLS client in a control plane's environment.
use gateway_operator.Prelude.{
  String, ◌≡◌, refl, ◌∙◌, Bool, false, List, arith, eq_iff, ◌==◌, string_eq, any_of, if◌then◌else◌,
}
use gateway_operator.ControlPlanes.Env.{
  Progress, env_value_by_name, set_value, unless_disabled, tls_defaults, tls_client_cert_file_name,
  tls_client_key_file_name, ca_cert_file_name,
}
use gateway_operator.ControlPlanes.Env.Values.{value-update_env}

-- The name is one of those that must not be overridden.
abbrev pub disabled : List String → String → Bool
disabled dont_override name = any_of (λ n. n == name) dont_override

value-unless_set :
    (dont_override : List String) (name value n : String) (p : Progress)
    → env_value_by_name (unless_disabled dont_override name (λ m. set_value m value) p).0 n ≡ (
        if disabled dont_override name
        then env_value_by_name p.0 n
        else if name == n
        then value
        else env_value_by_name p.0 n)
unfolding unless_disabled set_value
value-unless_set dont_override name value n p = ground (arith, value-update_env p.0 name value n)

-- The files of the TLS client that are not disabled.
abbrev pub TlsFiles : List String → Progress → Type 0
TlsFiles dont_override p =
    (disabled dont_override tls_client_cert_file_name ≡ false
      → env_value_by_name p.0 tls_client_cert_file_name ≡ "/var/cluster-certificate/tls.crt")
    × (disabled dont_override tls_client_key_file_name ≡ false
        → env_value_by_name p.0 tls_client_key_file_name ≡ "/var/cluster-certificate/tls.key")
    × (disabled dont_override ca_cert_file_name ≡ false
        → env_value_by_name p.0 ca_cert_file_name ≡ "/var/cluster-certificate/ca.crt")

value-unless_self :
    (dont_override : List String) (name value : String) (p : Progress)
    → disabled dont_override name ≡ false
    → env_value_by_name (unless_disabled dont_override name (λ m. set_value m value) p).0 name
      ≡ value
value-unless_self dont_override name value p h =
    value-unless_set dont_override name value name p ∙ ground (arith, h, eq_iff name name)

value-unless_other :
    (dont_override : List String) (name value n : String) (p : Progress)
    → (name == n) ≡ false
    → env_value_by_name (unless_disabled dont_override name (λ m. set_value m value) p).0 n
      ≡ env_value_by_name p.0 n
value-unless_other dont_override name value n p h =
    value-unless_set dont_override name value n p ∙ ground (arith, h)

pub TlsFiles-tls :
    (dont_override : List String) (p : Progress)
    → TlsFiles dont_override (tls_defaults dont_override p)
unfolding tls_defaults
TlsFiles-tls dont_override p = (
  λ h.
      value-unless_other dont_override ca_cert_file_name "/var/cluster-certificate/ca.crt"
        tls_client_cert_file_name with_key refl
      ∙ value-unless_other dont_override tls_client_key_file_name "/var/cluster-certificate/tls.key"
          tls_client_cert_file_name with_cert refl
      ∙ value-unless_self dont_override tls_client_cert_file_name "/var/cluster-certificate/tls.crt"
          p h,
  λ h.
      value-unless_other dont_override ca_cert_file_name "/var/cluster-certificate/ca.crt"
        tls_client_key_file_name with_key refl
      ∙ value-unless_self dont_override tls_client_key_file_name "/var/cluster-certificate/tls.key"
          with_cert h,
  λ h.
      value-unless_self dont_override ca_cert_file_name "/var/cluster-certificate/ca.crt" with_key
        h,
)
  where
    with_cert : Progress
    with_cert =
        unless_disabled dont_override tls_client_cert_file_name
          (λ m. set_value m "/var/cluster-certificate/tls.crt") p

    with_key : Progress
    with_key =
        unless_disabled dont_override tls_client_key_file_name
          (λ m. set_value m "/var/cluster-certificate/tls.key") with_cert

-- The flag does not see the files of the TLS client.
pub tls_unreported :
    (dont_override : List String) (p : Progress) → (tls_defaults dont_override p).1 ≡ p.1
unfolding tls_defaults unless_disabled set_value
tls_unreported dont_override p = ground arith
