-- ===== src/Admission/Serving.antt =====
-- ServeHTTP of internal/admission/server.go. Logs are left out.
use gateway_operator.Prelude.{ℕ, String, Option, none, some, List, [], ◌∷◌}
use gateway_operator.Errors.{Result, ok, err, error_text}
use gateway_operator.Admission.{Request, Response, Decoder, handle_validation}
use gateway_operator.Client.{Client, M, pure, attempt, ◌>>=◌}

-- admissionv1.AdmissionReview; `type_meta` stands for its kind and version.
pub record Review : Type 0 where
  pub type_meta : String
  pub request : Option Request
  pub response : Option Response

-- What the handler sends: an error with its status and text, or data with the status 200.
pub data Reply : Type 0 where
  http_error : ℕ → String → Reply
  content : String → Reply

-- Bodies and connections of net/http, and the codec of encoding/json.
pub record Transport : Type 0 where
  pub read_all : String → Result String
  pub unmarshal : String → Result Review
  pub marshal : Review → Result String
  pub write : String → Result (Unit {0})

module _ (c : Client) (decoder : Decoder) (t : Transport) where
  -- The outcome of the write.
  abbrev pub written : String → Result (Unit {0}) → List Reply
  written bytes (ok _) = content bytes ∷ []
  written bytes (err e) = content bytes ∷ http_error 500 (error_text e) ∷ []

  abbrev pub with_answer : Result String → List Reply
  with_answer (ok bytes) = written bytes (t.write bytes)
  with_answer (err e) = http_error 500 (error_text e) ∷ []

  abbrev pub with_response : Review → Result Response → List Reply
  with_response review (ok response) =
      with_answer (t.marshal (record review { response = some response }))
  with_response review (err e) = http_error 500 (error_text e) ∷ []

  abbrev pub with_review : Result Review → M (List Reply)
  with_review (ok review) = do
    r ← attempt (handle_validation c decoder review.request)
    pure (with_response review r)
  with_review (err e) = pure (http_error 400 (error_text e) ∷ [])

  abbrev pub with_data : Result String → M (List Reply)
  with_data (ok bytes) = with_review (t.unmarshal bytes)
  with_data (err e) = pure (http_error 500 (error_text e) ∷ [])

  -- The replies to a request with the body, if it has one.
  unfoldable pub serve_http : Option String → M (List Reply)
  unfolding handle_validation
  serve_http none = pure (http_error 400 "admission review object is missing" ∷ [])
  serve_http (some body) = with_data (t.read_all body)
