-- ===== src/Errors.antt =====
-- The errors that the operator tells apart: those of internal/errors/errors.go, those of the API
-- server that the code asks about, and texts. A call that may fail returns a `Result`.
use gateway_operator.Prelude.{String, ◌<>◌, Bool, true, false, ◌≡◌, arith, refl}

pub data Err : Type 0 where
  -- the reasons NotFound and Conflict, and any other failure of a call of the API server
  not_found : String → Err
  conflict : String → Err
  api : String → Err
  -- the sentinels of internal/errors, with the text that wraps them
  unsupported_gateway : Err
  too_many_network_policies : String → Err
  missing_parameters_ref : String → Err
  data_plane_not_set : String → Err
  -- errors.New, fmt.Errorf without %w
  message : String → Err
  -- fmt.Errorf with %w in front of it
  wrapped : String → Err → Err
  -- a run-time panic
  panic : String → Err

-- err.Error()
unfoldable pub error_text : Err → String
error_text (not_found s) = s
error_text (conflict s) = s
error_text (api s) = s
error_text unsupported_gateway = "gateway not supported"
error_text (too_many_network_policies s) = "too many data plane network policies" <> s
error_text (missing_parameters_ref s) = "no reference to related objects" <> s
error_text (data_plane_not_set s) = "no dataplane name set" <> s
error_text (message s) = s
error_text (wrapped s e) = s <> error_text e
error_text (panic s) = s

-- k8serrors.IsNotFound, k8serrors.IsConflict, which look through wrapped errors
unfoldable pub is_not_found : Err → Bool
is_not_found (not_found s) = true
is_not_found (wrapped s e) = is_not_found e
is_not_found _ = false

unfoldable pub is_conflict : Err → Bool
is_conflict (conflict s) = true
is_conflict (wrapped s e) = is_conflict e
is_conflict _ = false

-- errors.Is with the sentinel of each name
unfoldable pub is_unsupported_gateway : Err → Bool
is_unsupported_gateway unsupported_gateway = true
is_unsupported_gateway (wrapped s e) = is_unsupported_gateway e
is_unsupported_gateway _ = false

unfoldable pub is_missing_parameters_ref : Err → Bool
is_missing_parameters_ref (missing_parameters_ref s) = true
is_missing_parameters_ref (wrapped s e) = is_missing_parameters_ref e
is_missing_parameters_ref _ = false

unfoldable pub is_data_plane_not_set : Err → Bool
is_data_plane_not_set (data_plane_not_set s) = true
is_data_plane_not_set (wrapped s e) = is_data_plane_not_set e
is_data_plane_not_set _ = false

pub data Result {ℓ} (A : Type ℓ) : Type ℓ where
  ok : A → Result A
  err : Err → Result A

infixl 5 ◌>>=◌
abbrev pub ◌>>=◌ {ℓ κ} : {A : Type ℓ} {B : Type κ} → Result A → (A → Result B) → Result B
ok a >>= f = f a
err e >>= f = err e

-- What a chain that succeeds says of its first part.
pub bind_ok {ℓ κ} :
    {A : Type ℓ} {B : Type κ} (r : Result A) (f : A → Result B) {b : B}
    → (r >>= f) ≡ ok b
    → (a : A) × (r ≡ ok a) × (f a ≡ ok b)
bind_ok (ok a) f h = (a, refl, h)
bind_ok (err e) f h = ground arith
