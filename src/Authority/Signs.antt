-- ===== src/Authority/Signs.antt =====
-- What the manager stores as the CA is what the controllers sign with.
use gateway_operator.Prelude.{
  Bool-cases, inl, inr, [], ◌∷◌, ℕ, ◌*◌, ◌-◌, String, ◌<>◌, ◌≡◌, refl, some, List, if◌then◌else◌,
  ltb, arith,
}
use gateway_operator.Prelude.Labels.{lookup}
use gateway_operator.Errors.{ok, err, message}
use gateway_operator.Api.Meta.{NamespacedName}
use gateway_operator.Api.Workloads.{Secret}
use gateway_operator.Signing.{
  value_at, Crypto, Certificate, second, limited_expiry, sign_certificate, sign_within,
  decoded_block,
}
use gateway_operator.Authority.{signed_secret}

module _ (crypto : Crypto)
    (decodes : (type bytes : String)
      → crypto.pem_decode (crypto.pem_encode type bytes) ≡ some bytes) where
  block_of :
      (entries : List (String × String)) (key type bytes : String)
      → value_at key entries ≡ crypto.pem_encode type bytes
      → decoded_block crypto (value_at key entries) ≡ ok bytes
  unfolding decoded_block
  block_of entries key type bytes e = rw e (ground (arith, decodes type bytes))

  contents : String → String → List (String × String)
  contents der key_der =
      ("tls.crt", crypto.pem_encode "CERTIFICATE" der)
      ∷ ("tls.key", crypto.pem_encode "EC PRIVATE KEY" key_der)
      ∷ []

  -- If decoding a PEM block gives back what was encoded, and the server has stored the texts of the
  -- Secret of the CA as its data, then a certificate is signed with the key and the certificate that
  -- the manager has put there, for no longer than what is left of the certificate's validity; after
  -- that the signing fails.
  pub ca_signs :
      (name : NamespacedName) (der key_der priv : String) (cert : Certificate) (ca : Secret)
      (usages : List String) (seconds : ℕ) (request : String) (now : ℕ)
      → ca.contents ≡ some (signed_secret crypto name der key_der).string_data
      → crypto.parse_key key_der ≡ ok priv
      → crypto.parse_certificate der ≡ ok cert
      → sign_certificate crypto usages seconds request ca now ≡ (
          if ltb now cert.not_after
          then crypto.sign priv cert usages
              (limited_expiry (cert.not_after - now) (second * seconds))
              request
          else err (message ("the signer has expired: " <> crypto.show_time cert.not_after)))
  unfolding sign_certificate sign_within signed_secret lookup contents
  ca_signs name der key_der priv cert ca usages seconds request now stored key parsed =
      rw
        (
          stored,
          block_of (contents der key_der) "tls.key" "EC PRIVATE KEY" key_der refl,
          key,
          block_of (contents der key_der) "tls.crt" "CERTIFICATE" der refl,
          parsed,
        )
        (elim (Bool-cases (ltb now cert.not_after)) [
          | inl live ↦ rw live refl
          | inr over ↦ rw over refl
        ])
