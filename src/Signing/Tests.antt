-- ===== src/Signing/Tests.antt =====
-- A signature at concrete values.
use gateway_operator.Prelude.{refl, arith, some, [], ◌∷◌}
use gateway_operator.Prelude.Labels.{lookup}
use gateway_operator.Api.Meta.{empty_meta}
use gateway_operator.Api.Workloads.{Secret}
use gateway_operator.Signing.{sign_certificate, decoded_block, sign_within}
use gateway_operator.Signing.Lifetime.{IsSigned, sign_certificate-IsSigned}
use gateway_operator.Samples.{plain_crypto}

abbrev ca : Secret
ca = record {
  metadata = empty_meta;
  type = "kubernetes.io/tls";
  contents = some (("tls.crt", "cert") ∷ ("tls.key", "key") ∷ []);
  string_data = [];
}

sign_certificate-IsSigned_example : IsSigned plain_crypto [] 10 "request" ca 500 "request"
unfolding sign_certificate decoded_block sign_within lookup
sign_certificate-IsSigned_example =
    sign_certificate-IsSigned plain_crypto [] 10 "request" ca 500 "request" (ground arith) refl
