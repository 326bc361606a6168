-- ===== src/Signing.antt =====
-- controllers/utils.go, signCertificate: a certificate signed by the key of the cluster's CA. Keys,
-- requests and signatures are the work of Go's crypto packages and of cfssl, the parameter `Crypto`.
pub mod Lifetime
mod Tests
use gateway_operator.Prelude.{
  ℕ, ◌*◌, ◌-◌, String, ◌<>◌, Option, none, some, List, if◌then◌else◌, ltb, not,
}
use gateway_operator.Prelude.Labels.{lookup}
use gateway_operator.Errors.{Result, ok, err, message, panic, ◌>>=◌}
use gateway_operator.Api.Workloads.{Secret}
use gateway_operator.Metadata.{entries}
use gateway_operator.Client.{Trace}

-- What the code uses of an x509.Certificate: the end of its validity, in nanoseconds.
pub record Certificate : Type 0 where
  pub der : String
  pub not_after : ℕ

-- Keys, blocks and requests are texts. Randomness is in the operations that draw it: they may
-- depend on the calls so far.
pub record Crypto : Type 0 where
  pub generate_key : Trace → Result String
  pub create_certificate_request : Trace → String → String → Result String
  pub marshal_key : String → Result String
  pub pem_encode : String → String → String
  pub pem_decode : String → Option String
  pub parse_key : String → Result String
  pub parse_certificate : String → Result Certificate
  -- local.NewSigner with the usages and the expiry of the profile, then Sign of the request
  pub sign : String → Certificate → List String → ℕ → String → Result String
  pub show_time : ℕ → String

-- time.Second
abbrev pub second : ℕ
second = 1000000000

abbrev pub expiration_seconds : ℕ
expiration_seconds = 315400000

-- `m[key]`, with "" for a key that is missing
abbrev pub value_at : String → List (String × String) → String
value_at key m = elim (lookup key m) [ none ↦ "" | some v ↦ v ]

-- A duration, cut off at what is left of the CA's.
unfoldable pub limited_expiry : ℕ → ℕ → ℕ
limited_expiry left wanted = if ltb left wanted then left else wanted

module _ (crypto : Crypto) where
  -- `block, _ := pem.Decode(…)`, and the use of the block's bytes: a nil block faults.
  unfoldable pub decoded_block : String → Result String
  decoded_block text = elim (crypto.pem_decode text) [
    | none ↦ err (panic "invalid memory address or nil pointer dereference")
    | some bytes ↦ ok bytes
  ]

  -- The part of signCertificate after the CA has been parsed.
  unfoldable pub sign_within : String → Certificate → List String → ℕ → String → ℕ → Result String
  unfolding limited_expiry
  sign_within priv ca usages seconds request now =
      if not (ltb now ca.not_after)
      then err (message ("the signer has expired: " <> crypto.show_time ca.not_after))
      else crypto.sign priv ca usages (limited_expiry (ca.not_after - now) (second * seconds))
          request

  unfoldable pub sign_certificate : List String → ℕ → String → Secret → ℕ → Result String
  unfolding decoded_block sign_within
  sign_certificate usages seconds request ca now = do
    key_block ← decoded_block (value_at "tls.key" (entries ca.contents))
    priv ← crypto.parse_key key_block
    cert_block ← decoded_block (value_at "tls.crt" (entries ca.contents))
    cert ← crypto.parse_certificate cert_block
    sign_within priv cert usages seconds request now
