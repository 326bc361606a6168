-- ===== src/Authority.antt =====
-- internal/manager/run.go, caManager: the Secret with the certificate of the cluster's CA, which is
-- created when the manager starts and there is none.
pub mod Created
pub mod Signs
mod Tests
use gateway_operator.Prelude.{
  ℕ, ◌+◌, ◌*◌, String, Bool, true, none, List, [], ◌∷◌, ◌==◌, string_eq, if◌then◌else◌,
}
use gateway_operator.Errors.{Result, ok, err, message, is_not_found}
use gateway_operator.Api.Meta.{NamespacedName, empty_meta}
use gateway_operator.Api.Workloads.{Secret}
use gateway_operator.Signing.{Crypto, second}
use gateway_operator.Client.{Client, Trace, M, pure, raise, lift, read, draw, attempt, ◌>>=◌, ◌>>◌}
use gateway_operator.Client.Calls

-- What the template sets of an x509.Certificate, with times in nanoseconds.
pub record Template : Type 0 where
  pub common_name : String
  pub organization : List String
  pub country : List String
  pub serial_number : ℕ
  pub signature_algorithm : String
  pub not_before : ℕ
  pub not_after : ℕ
  pub key_usage : List String
  pub basic_constraints_valid : Bool
  pub is_ca : Bool

-- rand.Int up to math.MaxInt64, and x509.CreateCertificate with the template as its own parent, the
-- key, and the public part of the key.
pub record SelfSigning : Type 0 where
  pub random_serial : Trace → Result ℕ
  pub create_certificate : Trace → Template → String → Result String

abbrev pub ca_lifetime : ℕ
ca_lifetime = second * 315400000

-- The template, where `time.Now()` is read once for each end of the validity.
unfoldable pub ca_template : ℕ → ℕ → ℕ → Template
ca_template serial from now = record {
  common_name = "Kong Gateway Operator CA";
  organization = "Kong, Inc." ∷ [];
  country = "US" ∷ [];
  serial_number = serial;
  signature_algorithm = "ECDSA-SHA256";
  not_before = from;
  not_after = now + ca_lifetime;
  key_usage = "cert sign" ∷ "key encipherment" ∷ "digital signature" ∷ [];
  basic_constraints_valid = true;
  is_ca = true;
}

unfoldable pub signed_secret : Crypto → NamespacedName → String → String → Secret
signed_secret crypto name der priv_der = record {
  metadata = record empty_meta { namespace = name.namespace; name = name.name };
  type = "kubernetes.io/tls";
  contents = none;
  string_data =
      ("tls.crt", crypto.pem_encode "CERTIFICATE" der)
      ∷ ("tls.key", crypto.pem_encode "EC PRIVATE KEY" priv_der)
      ∷ [];
}

module _ (c : Client) (crypto : Crypto) (self : SelfSigning) where
  -- There is no CA.
  unfoldable pub create_ca_certificate : NamespacedName → M (Unit {0})
  unfolding ca_template signed_secret
  create_ca_certificate name = do
    serial ← draw self.random_serial
    from ← read c.now
    now ← read c.now
    priv ← draw crypto.generate_key
    priv_der ← lift (crypto.marshal_key priv)
    der ← draw (λ t. self.create_certificate t (ca_template serial from now) priv)
    Calls.create_secret c (signed_secret crypto name der priv_der)
    pure tt

  unfoldable pub or_create : NamespacedName → Result Secret → M (Unit {0})
  unfolding create_ca_certificate
  or_create name (ok _) = pure tt
  or_create name (err e) = if is_not_found e then create_ca_certificate name else raise e

  unfoldable pub maybe_create_ca_certificate : NamespacedName → M (Unit {0})
  unfolding or_create
  maybe_create_ca_certificate name = do r ← attempt (Calls.get_secret c name); or_create name r

  unfoldable pub start : NamespacedName → M (Unit {0})
  unfolding maybe_create_ca_certificate
  start name =
      if name.name == ""
      then raise (message "cannot use an empty secret name when creating a CA secret")
      else if name.namespace == ""
      then raise (message "cannot use an empty secret namespace when creating a CA secret")
      else maybe_create_ca_certificate name
