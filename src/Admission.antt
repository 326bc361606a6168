-- ===== src/Admission.antt =====
-- internal/admission/{server.go,validator.go}: the answer to an admission request.
pub mod Verdicts
pub mod Serving
pub mod Served
mod Tests
use gateway_operator.Prelude.{
  ℕ, String, Bool, true, false, ◌&&◌, ◌||◌, Option, none, some, ◌==◌, string_eq, if◌then◌else◌,
}
use gateway_operator.Errors.{Result, ok, err, error_text}
use gateway_operator.Api.Resources.{DataPlane, ControlPlane, scheme_group, scheme_version}
use gateway_operator.Validation.{validate}
use gateway_operator.Client.{Client, M, pure, lift, attempt, ◌>>=◌}

-- metav1.GroupVersionResource
pub record GroupVersionResource : Type 0 where
  pub group : String
  pub version : String
  pub resource : String

abbrev same_resource : GroupVersionResource → GroupVersionResource → Bool
same_resource a b = a.group == b.group && a.version == b.version && a.resource == b.resource

abbrev pub control_plane_gv_resource : GroupVersionResource
control_plane_gv_resource = record {
  group = scheme_group;
  version = scheme_version;
  resource = "controlplanes";
}

abbrev pub data_plane_gv_resource : GroupVersionResource
data_plane_gv_resource = record {
  group = scheme_group;
  version = scheme_version;
  resource = "dataplanes";
}

-- admissionv1.AdmissionRequest, and the response with the metav1.Status in it.
pub record Request : Type 0 where
  pub uid : String
  pub resource : GroupVersionResource
  pub operation : String
  pub raw : String

pub record Response : Type 0 where
  pub uid : String
  pub allowed : Bool
  pub code : ℕ
  pub reason : String
  pub message : String
  pub status : String

-- The deserializer of apimachinery.
pub record Decoder : Type 0 where
  pub decode_control_plane : String → Result ControlPlane
  pub decode_data_plane : String → Result DataPlane

unfoldable pub validate_control_plane : Client → ControlPlane → M (Unit {0})
validate_control_plane c p = pure tt

unfoldable pub validate_data_plane : Client → DataPlane → M (Unit {0})
unfolding validate
validate_data_plane c d = validate c d

abbrev pub empty_request_response : Response
empty_request_response = record {
  uid = "";
  allowed = false;
  code = 400;
  reason = "BadRequest";
  message = "empty request";
  status = "Failure";
}

-- The response for `ok` and `msg`.
unfoldable pub response_of : String → Bool → String → Response
response_of uid allowed message = record {
  uid = uid;
  allowed = allowed;
  code = if allowed then 200 else 400;
  reason = if allowed then "" else "BadRequest";
  message = message;
  status = if allowed then "Success" else "Failure";
}

-- `if err != nil { ok = false; msg = err.Error() }`
abbrev pub verdict_response : String → Result (Unit {0}) → Response
verdict_response uid (ok _) = response_of uid true ""
verdict_response uid (err e) = response_of uid false (error_text e)

abbrev pub is_write : String → Bool
is_write operation = operation == "CREATE" || operation == "UPDATE"

module _ (c : Client) (decoder : Decoder) where
  -- The resources are told apart by the switch, and only writes are validated.
  unfoldable pub handle_request : Request → M Response
  unfolding response_of validate_control_plane validate_data_plane
  handle_request req =
      if same_resource req.resource control_plane_gv_resource
      then (if is_write req.operation
          then (do
            p ← lift (decoder.decode_control_plane req.raw)
            r ← attempt (validate_control_plane c p)
            pure (verdict_response req.uid r))
          else pure (response_of req.uid true ""))
      else if same_resource req.resource data_plane_gv_resource
      then (if is_write req.operation
          then (do
            d ← lift (decoder.decode_data_plane req.raw)
            r ← attempt (validate_data_plane c d)
            pure (verdict_response req.uid r))
          else pure (response_of req.uid true ""))
      else pure (response_of req.uid true "")

  unfoldable pub handle_validation : Option Request → M Response
  unfolding handle_request
  handle_validation none = pure empty_request_response
  handle_validation (some req) = handle_request req
