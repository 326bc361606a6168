-- ===== src/Certificates.antt =====
-- controllers/utils.go, maybeCreateCertificateSecret: the Secret with an owner's certificate.
use gateway_operator.Prelude.{
  ℕ, String, ◌<>◌, Bool, true, false, none, List, [], ◌∷◌, if◌then◌else◌, length, at_most_one,
  show_count,
}
use gateway_operator.Errors.{message}
use gateway_operator.Api.Meta.{NamespacedName, empty_meta}
use gateway_operator.Api.Workloads.{Secret}
use gateway_operator.Metadata.{set_owner_for_object, ensure_object_meta_is_updated, entries}
use gateway_operator.Owners.{
  Owner, owner_object, get_prefix_for_owner, get_managed_label_for_owner, add_label_for_owner,
}
use gateway_operator.Signing.{Crypto, sign_certificate, value_at}
use gateway_operator.Lists.{list_secrets_for_owner}
use gateway_operator.Client.{Client, M, pure, raise, lift, read, draw, ◌>>=◌}
use gateway_operator.Client.Calls

abbrev pub expiration_seconds : ℕ
expiration_seconds = 315400000

unfoldable pub generate_new_tls_secret : String → String → String → Secret
generate_new_tls_secret namespace name_prefix owner_prefix = record {
  metadata = record empty_meta {
    namespace = namespace;
    generate_name = owner_prefix <> "-" <> name_prefix <> "-";
  };
  type = "kubernetes.io/tls";
  contents = none;
  string_data = [];
}

-- The Secret before its contents are known, with its owner and its label.
unfoldable pub generated_secret : Owner → Secret
unfolding generate_new_tls_secret get_prefix_for_owner add_label_for_owner set_owner_for_object
generated_secret owner =
    let m = owner_object.get_meta owner in
    let secret = generate_new_tls_secret m.namespace m.name (get_prefix_for_owner owner) in
    record secret {
      metadata = add_label_for_owner (set_owner_for_object secret.metadata owner) owner;
    }

module _ (c : Client) (crypto : Crypto) where
  unfoldable pub create_certificate_secret :
      Secret → String → NamespacedName → List String → M (Bool × Secret)
  unfolding sign_certificate
  create_certificate_secret secret subject ca_name usages = do
    priv ← draw crypto.generate_key
    der ← draw (λ t. crypto.create_certificate_request t subject priv)
    let csr = crypto.pem_encode "CERTIFICATE REQUEST" der
    ca ← Calls.get_secret c ca_name
    now ← read c.now
    signed ← lift (sign_certificate crypto usages expiration_seconds csr ca now)
    priv_der ← lift (crypto.marshal_key priv)
    stored ← Calls.create_secret c (record secret {
      string_data =
          ("ca.crt", value_at "tls.crt" (entries ca.contents))
          ∷ ("tls.crt", signed)
          ∷ ("tls.key", crypto.pem_encode "EC PRIVATE KEY" priv_der)
          ∷ [];
    })
    pure (true, stored)

  -- One Secret is there already.
  unfoldable pub update_certificate_secret : Secret → Secret → M (Bool × Secret)
  unfolding ensure_object_meta_is_updated
  update_certificate_secret existing generated = do
    (updated, meta) ← lift (ensure_object_meta_is_updated existing.metadata generated.metadata)
    let secret = record existing { metadata = meta }
    if updated
        then (do stored ← Calls.update_secret c secret; pure (true, stored))
        else pure (false, secret)

  unfoldable pub maybe_create_certificate_secret :
      Owner → String → NamespacedName → List String → M (Bool × Secret)
  unfolding create_certificate_secret update_certificate_secret generated_secret
      get_managed_label_for_owner show_count
  maybe_create_certificate_secret owner subject ca_name usages = do
    let (key, value) = get_managed_label_for_owner owner
    secrets ← list_secrets_for_owner c key value (owner_object.get_meta owner).uid
    at_most_one (create_certificate_secret (generated_secret owner) subject ca_name usages)
        (λ existing. update_certificate_secret existing (generated_secret owner))
        (raise (
          message (
            "found "
            <> show_count (length secrets)
            <> " mTLS secrets for DataPlane currently unsupported: expected 1 or less")))
        secrets
