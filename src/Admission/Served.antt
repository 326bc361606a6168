-- ===== src/Admission/Served.antt =====
-- The replies of the webhook.
use gateway_operator.Prelude.{
  ℕ, ◌≤◌, String, ◌≡◌, ◌⊎◌, inl, inr, refl, Option, none, some, List, [], ◌∷◌, arith,
}
use gateway_operator.Errors.{Result, ok, err, error_text}
use gateway_operator.Admission.{Response, Decoder, handle_validation}
use gateway_operator.Admission.Serving.{
  Review, Reply, http_error, content, Transport, written, with_answer, with_response, with_review,
  with_data, serve_http,
}
use gateway_operator.Client.{Client, Trace, attempt}
use gateway_operator.Client.Answers.{Answers, Answers-pure, Answers-bind, Answers-attempt_run}

-- One reply, which is an error.
pub record Refused (replies : List Reply) : Type 0 where
  pub code : ℕ
  pub text : String
  pub sent : replies ≡ http_error code text ∷ []
  pub is_error : 400 ≤ code

module _ (c : Client) (decoder : Decoder) (t : Transport) where
  -- The first reply is the review in the body, with the response of the validation to its request.
  pub record Reviewed (body : Option String) (replies : List Reply) : Type 0 where
    pub text : String
    pub bytes : String
    pub review : Review
    pub response : Response
    pub calls : Trace
    pub answer : String
    pub others : List Reply
    pub found : body ≡ some text
    pub read : t.read_all text ≡ ok bytes
    pub parsed : t.unmarshal bytes ≡ ok review
    pub validated : (handle_validation c decoder review.request calls).0 ≡ ok response
    pub printed : t.marshal (record review { response = some response }) ≡ ok answer
    pub sent : replies ≡ content answer ∷ others

  abbrev pub Served : Option String → List Reply → Type 0
  Served body replies = Refused replies ⊎ Reviewed body replies

  refused :
      (code : ℕ) (text : String) (body : Option String)
      → 400 ≤ code
      → Served body (http_error code text ∷ [])
  refused code text body h = inl (record { code = code; text = text; sent = refl; is_error = h })

  others_of : Result (Unit {0}) → List Reply
  others_of (ok _) = []
  others_of (err e) = http_error 500 (error_text e) ∷ []

  written_first :
      (bytes : String) (r : Result (Unit {0}))
      → written c decoder t bytes r ≡ content bytes ∷ others_of r
  unfolding others_of
  written_first bytes (ok _) = refl
  written_first bytes (err e) = refl

  answered :
      (text bytes : String) (review : Review) (response : Response) (calls : Trace)
      (r : Result String)
      → t.read_all text ≡ ok bytes
      → t.unmarshal bytes ≡ ok review
      → (handle_validation c decoder review.request calls).0 ≡ ok response
      → t.marshal (record review { response = some response }) ≡ r
      → Served (some text) (with_answer c decoder t r)
  answered text bytes review response calls (ok answer) read parsed validated printed =
      inr (record {
        text = text;
        bytes = bytes;
        review = review;
        response = response;
        calls = calls;
        answer = answer;
        others = others_of (t.write answer);
        found = refl;
        read = read;
        parsed = parsed;
        validated = validated;
        printed = printed;
        sent = written_first answer (t.write answer);
      })
  answered text bytes review response calls (err e) read parsed validated printed =
      refused 500 (error_text e) (some text) (omega arith)

  responded :
      (text bytes : String) (review : Review) (r : Result Response) (calls : Trace)
      → t.read_all text ≡ ok bytes
      → t.unmarshal bytes ≡ ok review
      → (handle_validation c decoder review.request calls).0 ≡ r
      → Served (some text) (with_response c decoder t review r)
  responded text bytes review (ok response) calls read parsed validated =
      answered text bytes review response calls _ read parsed validated refl
  responded text bytes review (err e) calls read parsed validated =
      refused 500 (error_text e) (some text) (omega arith)

  with_review-Served :
      (text bytes : String) (r : Result Review)
      → t.read_all text ≡ ok bytes
      → t.unmarshal bytes ≡ r
      → Answers (Served (some text)) (with_review c decoder t r)
  with_review-Served text bytes (ok review) read parsed =
      Answers-bind (attempt (handle_validation c decoder review.request)) _
        (Answers-attempt_run (handle_validation c decoder review.request))
        (λ r run. Answers-pure _ (responded text bytes review r run.0 read parsed run.1))
  with_review-Served text bytes (err e) read parsed =
      Answers-pure _ (refused 400 (error_text e) (some text) (omega arith))

  with_data-Served :
      (text : String) (r : Result String)
      → t.read_all text ≡ r
      → Answers (Served (some text)) (with_data c decoder t r)
  with_data-Served text (ok bytes) read =
      with_review-Served text bytes (t.unmarshal bytes) read refl
  with_data-Served text (err e) read =
      Answers-pure _ (refused 500 (error_text e) (some text) (omega arith))

  -- The webhook answers every HTTP request, whatever the API server answers to its calls: either
  -- with one error of a status from 400 on, or first with the review that the body holds, in which
  -- the response is the one of the validation of its request.
  pub serve_http-Served :
      (body : Option String) → Answers (Served body) (serve_http c decoder t body)
  unfolding serve_http
  serve_http-Served none =
      Answers-pure _ (refused 400 "admission review object is missing" none (omega arith))
  serve_http-Served (some text) = with_data-Served text (t.read_all text) refl
