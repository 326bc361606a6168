-- ===== src/Admission/Tests.antt =====
-- Admission requests for a data plane.
use gateway_operator.Prelude.{String, ◌≡◌, ◌↔◌, refl, true, some, none, []}
use gateway_operator.Errors.{Err, ok, err}
use gateway_operator.Validation.{validate}
use gateway_operator.Admission.{
  Request, Response, Decoder, data_plane_gv_resource, handle_validation,
}
use gateway_operator.Admission.Verdicts.{data_plane_reviewed}
use gateway_operator.Admission.Serving.{Transport, serve_http}
use gateway_operator.Admission.Served.{Served, serve_http-Served}
use gateway_operator.Client.Answers.{Answers}
use gateway_operator.Samples.{offline, data_plane, off_options}

abbrev decoder : Decoder
decoder = record {
  decode_control_plane = λ raw. err (Err.message "no control plane");
  decode_data_plane = λ raw. ok (data_plane off_options);
}

abbrev request_of : String → Request
request_of operation = record {
  uid = "r1";
  resource = data_plane_gv_resource;
  operation = operation;
  raw = "{}";
}

data_plane_reviewed_example :
    (response : Response) × (handle_validation offline decoder (some (request_of "CREATE")) []
      ≡ (ok response, (validate offline (data_plane off_options) []).1))
    × (response.uid ≡ "r1")
    × ((response.allowed ≡ true) ↔ ((validate offline (data_plane off_options) []).0 ≡ ok tt))
data_plane_reviewed_example =
    data_plane_reviewed offline decoder (request_of "CREATE") (data_plane off_options) [] refl refl
      refl

-- Every body holds the same review.
abbrev transport : Transport
transport = record {
  read_all = λ body. ok body;
  unmarshal = λ text. ok (record {
    type_meta = "AdmissionReview";
    request = some (request_of "CREATE");
    response = none;
  });
  marshal = λ review. ok "{}";
  write = λ text. ok tt;
}

serve_http-Served_example :
    Answers
      (Served offline decoder transport (some "{}"))
      (serve_http offline decoder transport (some "{}"))
serve_http-Served_example = serve_http-Served offline decoder transport (some "{}")
