-- ===== src/ControlPlanes/Cleanup/Steps.antt =====
-- The steps of a cleanup, for any property of its calls.
use gateway_operator.Prelude.{List, [], ◌∷◌, ◌++◌}
use gateway_operator.Errors.{Err}
use gateway_operator.Client.{Client, Call, Trace, M, attempt}
use gateway_operator.Client.Keeps.{Keeps, Keeps-bind, Keeps-attempt, Keeps-pure, keeps_rules}
use gateway_operator.ControlPlanes.Cleanup.{delete_each, error_or_nil, deletion_errors}

module _ {P : Trace → Call → Type 0} (u : Trace) where
  pub delete_each-Keeps :
      {A : Type 0} (delete : A → M (Unit {0})) (xs : List A)
      → ((x : A) → Keeps u P (delete x))
      → Keeps u P (delete_each delete xs)
  unfolding delete_each
  delete_each-Keeps delete [] h = Keeps-pure []
  delete_each-Keeps delete (x ∷ xs) h =
      Keeps-bind (attempt (delete x)) _ (Keeps-attempt (delete x) (h x)) (λ r.
        Keeps-bind (delete_each delete xs) _ (delete_each-Keeps delete xs h)
          (λ errors. Keeps-pure (deletion_errors r ++ errors)))

  pub error_or_nil-Keeps :
      (c : Client) (combine : List Err → Err) (errors : List Err)
      → Keeps u P (error_or_nil c combine errors)
  unfolding error_or_nil
  error_or_nil-Keeps c combine [] = search keeps_rules
  error_or_nil-Keeps c combine (e ∷ es) = search keeps_rules
