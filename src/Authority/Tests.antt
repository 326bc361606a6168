-- ===== src/Authority/Tests.antt =====
-- A cluster without a CA, and a CA that signs.
use gateway_operator.Prelude.{◌≡◌, ◌*◌, ◌-◌, ◌<>◌, refl, some, [], if◌then◌else◌, ltb}
use gateway_operator.Errors.{Err, ok, err, message}
use gateway_operator.Api.Meta.{NamespacedName}
use gateway_operator.Api.Workloads.{Secret}
use gateway_operator.Signing.{Certificate, second, limited_expiry, sign_certificate}
use gateway_operator.Authority.{SelfSigning, signed_secret, start}
use gateway_operator.Authority.Created.{OnlyIfMissing, start-OnlyIfMissing}
use gateway_operator.Authority.Signs.{ca_signs}
use gateway_operator.Client.{Client}
use gateway_operator.Client.Keeps.{History}
use gateway_operator.Samples.{offline, plain_crypto}

abbrev ca_name : NamespacedName
ca_name = record { namespace = "kong-system"; name = "kong-operator-ca" }

abbrev cluster : Client
cluster = record offline { secret_at = λ t n. err (Err.not_found "no such Secret") }

abbrev self_signing : SelfSigning
self_signing = record {
  random_serial = λ t. ok 7;
  create_certificate = λ t template key. ok "cert";
}

start-OnlyIfMissing_example :
    History
      (OnlyIfMissing cluster plain_crypto self_signing ca_name)
      (start cluster plain_crypto self_signing ca_name []).1
start-OnlyIfMissing_example = start-OnlyIfMissing cluster plain_crypto self_signing ca_name

abbrev ca : Secret
ca =
    let created = signed_secret plain_crypto ca_name "cert" "key" in
    record created { contents = some created.string_data }

abbrev certificate : Certificate
certificate = record { der = "cert"; not_after = 2000000000 }

ca_signs_example : sign_certificate plain_crypto [] 60 "request" ca 1000000000 ≡ (
    if ltb 1000000000 certificate.not_after
    then plain_crypto.sign "key" certificate []
        (limited_expiry (certificate.not_after - 1000000000) (second * 60))
        "request"
    else err (message ("the signer has expired: " <> plain_crypto.show_time certificate.not_after)))
unfolding signed_secret
ca_signs_example =
    ca_signs plain_crypto (λ type bytes. refl) ca_name "cert" "key" "key" certificate ca [] 60
      "request" 1000000000 refl refl refl
