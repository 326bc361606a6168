-- ===== src/Admission/Verdicts.antt =====
-- When an admission request is allowed.
use gateway_operator.Prelude.{String, ◌≡◌, ◌↔◌, refl, true, some, arith, string_eq}
use gateway_operator.Errors.{Result, ok, err}
use gateway_operator.Api.Resources.{DataPlane}
use gateway_operator.Validation.{validate}
use gateway_operator.Client.{Client, Trace, pure, lift, attempt, ◌>>=◌, continue}
use gateway_operator.Admission.{
  Request, Response, Decoder, data_plane_gv_resource, handle_validation, handle_request,
  response_of, verdict_response, is_write, validate_data_plane,
}

verdict_allowed :
    (uid : String) (r : Result (Unit {0})) → ((verdict_response uid r).allowed ≡ true) ↔ (r ≡ ok tt)
unfolding response_of
verdict_allowed uid (ok tt) = (λ _. refl, λ _. refl)
verdict_allowed uid (err e) = ground arith

verdict_uid : (uid : String) (r : Result (Unit {0})) → (verdict_response uid r).uid ≡ uid
unfolding response_of
verdict_uid uid (ok _) = refl
verdict_uid uid (err e) = refl

module _ (c : Client) (decoder : Decoder) where
  data_plane_run :
      (req : Request) (d : DataPlane) (t : Trace)
      → req.resource ≡ data_plane_gv_resource
      → is_write req.operation ≡ true
      → decoder.decode_data_plane req.raw ≡ ok d
      → handle_request c decoder req t
        ≡ (ok (verdict_response req.uid (validate c d t).0), (validate c d t).1)
  unfolding handle_request validate_data_plane ◌>>=◌ continue lift attempt pure
  data_plane_run req d t resource write decoded = rw (resource, write, decoded) refl

  -- A request to create or to update a data plane that can be decoded is answered, after the calls
  -- of the validation and no others: under its own UID, and with "allowed" exactly if the
  -- validation accepts the data plane.
  pub data_plane_reviewed :
      (req : Request) (d : DataPlane) (t : Trace)
      → req.resource ≡ data_plane_gv_resource
      → is_write req.operation ≡ true
      → decoder.decode_data_plane req.raw ≡ ok d
      → (response : Response) × (handle_validation c decoder (some req) t
          ≡ (ok response, (validate c d t).1))
        × (response.uid ≡ req.uid)
        × ((response.allowed ≡ true) ↔ ((validate c d t).0 ≡ ok tt))
  unfolding handle_validation
  data_plane_reviewed req d t resource write decoded = (
    verdict_response req.uid (validate c d t).0,
    data_plane_run req d t resource write decoded,
    verdict_uid req.uid (validate c d t).0,
    verdict_allowed req.uid (validate c d t).0,
  )
