-- ===== src/Signing/Lifetime.antt =====
-- The lifetime of what signCertificate signs.
use gateway_operator.Prelude.{ℕ, ◌+◌, ◌*◌, ◌-◌, ◌≤◌, ◌<◌, String, ◌≡◌, List, arith, some}
use gateway_operator.Errors.{ok, bind_ok, Result, ◌>>=◌}
use gateway_operator.Api.Workloads.{Secret}
use gateway_operator.Metadata.{entries}
use gateway_operator.Signing.{
  Crypto, Certificate, second, limited_expiry, sign_within, sign_certificate, decoded_block,
  value_at,
}

limited_expiry_bounds :
    (left wanted : ℕ) → (limited_expiry left wanted ≤ left) × (limited_expiry left wanted ≤ wanted)
unfolding limited_expiry
limited_expiry_bounds left wanted = ground arith

limited_expiry_positive : (left wanted : ℕ) → 0 < left → 0 < wanted → 0 < limited_expiry left wanted
unfolding limited_expiry
limited_expiry_positive left wanted h k = ground arith

module _ (crypto : Crypto) where
  -- The text was signed with the CA of the Secret, for a time that ends no later than the CA's
  -- validity, is no longer than asked for, and is not empty.
  pub record IsSigned (usages : List String) (seconds : ℕ) (request : String) (ca : Secret)
      (now : ℕ) (text : String) : Type 0 where
    pub block : String
    pub cert : Certificate
    pub priv : String
    pub expiry : ℕ
    pub decoded : crypto.pem_decode (value_at "tls.crt" (entries ca.contents)) ≡ some block
    pub parsed : crypto.parse_certificate block ≡ ok cert
    pub signed : crypto.sign priv cert usages expiry request ≡ ok text
    pub within : now + expiry ≤ cert.not_after
    pub wanted : expiry ≤ second * seconds
    pub positive : 0 < expiry

  sign_within_live :
      (priv : String) (cert : Certificate) (usages : List String) (seconds : ℕ) (request : String)
      (now : ℕ) (text : String)
      → sign_within crypto priv cert usages seconds request now ≡ ok text
      → (now < cert.not_after)
        × (crypto.sign priv cert usages
              (limited_expiry (cert.not_after - now) (second * seconds))
              request
            ≡ ok text)
  unfolding sign_within
  sign_within_live priv cert usages seconds request now text run = ground arith

  sign_within_lem :
      (priv block : String) (cert : Certificate) (usages : List String) (seconds : ℕ)
      (request : String) (ca : Secret) (now : ℕ) (text : String)
      → crypto.pem_decode (value_at "tls.crt" (entries ca.contents)) ≡ some block
      → crypto.parse_certificate block ≡ ok cert
      → 0 < seconds
      → sign_within crypto priv cert usages seconds request now ≡ ok text
      → IsSigned usages seconds request ca now text
  sign_within_lem priv block cert usages seconds request ca now text decoded parsed some_time run =
      let live = sign_within_live priv cert usages seconds request now text run in
      let bounds = limited_expiry_bounds (cert.not_after - now) (second * seconds) in
      record {
        block = block;
        cert = cert;
        priv = priv;
        expiry = limited_expiry (cert.not_after - now) (second * seconds);
        decoded = decoded;
        parsed = parsed;
        signed = live.1;
        within = ground (arith, bounds.0, live.0);
        wanted = bounds.1;
        positive =
            limited_expiry_positive (cert.not_after - now) (second * seconds)
              (ground (arith, live.0)) (ground (arith, some_time));
      }

  decoded_block_ok :
      (text block : String)
      → decoded_block crypto text ≡ ok block
      → crypto.pem_decode text ≡ some block
  unfolding decoded_block
  decoded_block_ok text block h = ground arith

  -- If signCertificate returns a certificate for a wanted time that is not zero, then it was
  -- signed with the CA of the Secret, and for a time that is not zero, is no longer than the wanted
  -- one and ends no later than the validity of the CA.
  pub sign_certificate-IsSigned :
      (usages : List String) (seconds : ℕ) (request : String) (ca : Secret) (now : ℕ)
      (text : String)
      → 0 < seconds
      → sign_certificate crypto usages seconds request ca now ≡ ok text
      → IsSigned usages seconds request ca now text
  unfolding sign_certificate decoded_block
  sign_certificate-IsSigned usages seconds request ca now text some_time run =
      let key_block =
        bind_ok (decoded_block crypto (value_at "tls.key" (entries ca.contents))) with_key run in
      let priv = bind_ok (crypto.parse_key key_block.0) with_priv key_block.2 in
      let block =
        bind_ok (decoded_block crypto (value_at "tls.crt" (entries ca.contents)))
          (with_block priv.0) priv.2 in
      let cert = bind_ok (crypto.parse_certificate block.0) (with_cert priv.0) block.2 in
      sign_within_lem priv.0 block.0 cert.0 usages seconds request ca now text
        (decoded_block_ok _ block.0 block.1) cert.1 some_time cert.2
    where
      with_cert : String → Certificate → Result String
      with_cert priv cert = sign_within crypto priv cert usages seconds request now

      with_block : String → String → Result String
      with_block priv block = crypto.parse_certificate block >>= with_cert priv

      with_priv : String → Result String
      with_priv priv =
          decoded_block crypto (value_at "tls.crt" (entries ca.contents)) >>= with_block priv

      with_key : String → Result String
      with_key block = crypto.parse_key block >>= with_priv
