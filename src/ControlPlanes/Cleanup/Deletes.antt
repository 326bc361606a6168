-- ===== src/ControlPlanes/Cleanup/Deletes.antt =====
-- What the deletion loop does, whatever fails.
use gateway_operator.Prelude.{
  Among, ◌≡◌, ◌↔◌, inl, inr, refl, ap, ◌∙◌, Bool-cases, false, List, [], ◌∷◌, ◌++◌, arith,
}
use gateway_operator.Errors.{Err, Result, ok, err, is_not_found}
use gateway_operator.Client.{Call, Trace, pure, request, attempt, continue, ◌>>=◌}
use gateway_operator.ControlPlanes.Cleanup.{deletion_errors, delete_each}

error_of : Err → Result (Unit {0}) → Err
error_of e (ok _) = e
error_of e (err d) = d

-- one more answer
with_answer :
    (r : Result (Unit {0})) (answers : List (Result (Unit {0}))) (errors : List Err) (e : Err)
    → Among e errors ↔ (Among (err e) answers × (is_not_found e ≡ false))
    → Among e (deletion_errors r ++ errors)
      ↔ (Among (err e) (r ∷ answers) × (is_not_found e ≡ false))
unfolding error_of
with_answer (ok _) answers errors e (to, from) = (
  λ h. (inr (to h).0, (to h).1),
  λ h. elim h.0 [ inl same ↦ ground (arith, same) | inr later ↦ from (later, h.1) ],
)
with_answer (err d) answers errors e (to, from) = elim (Bool-cases (is_not_found d)) [
  | inl gone ↦ rw gone (
    (λ h. (inr (to h).0, (to h).1)),
    (λ h. elim h.0 [
      | inl same ↦ ground (arith, gone, h.1, ap (λ r. is_not_found (error_of e r)) same)
      | inr later ↦ from (later, h.1)
    ]),
  )
  | inr failed ↦ rw failed (
    (λ h. elim h [
      | inl same ↦ (inl (ap err same), ap is_not_found same ∙ failed)
      | inr later ↦ (inr (to later).0, (to later).1)
    ]),
    (λ h. elim h.0 [ inl same ↦ inl (ap (error_of e) same) | inr later ↦ inr (from (later, h.1)) ]),
  )
]

module _ {A : Type 0} (call : A → Call) (answer : A → Trace → Result (Unit {0})) where
  -- One call for each object, in order.
  abbrev pub calls_for : List A → Trace → Trace
  calls_for [] t = t
  calls_for (x ∷ xs) t = calls_for xs (call x ∷ t)

  -- What the server answers to each of these calls.
  abbrev pub answers_of : List A → Trace → List (Result (Unit {0}))
  answers_of [] t = []
  answers_of (x ∷ xs) t = answer x (call x ∷ t) ∷ answers_of xs (call x ∷ t)

  errors_of : List A → Trace → List Err
  errors_of [] t = []
  errors_of (x ∷ xs) t = deletion_errors (answer x (call x ∷ t)) ++ errors_of xs (call x ∷ t)

  delete_each_run :
      (xs : List A) (t : Trace)
      → delete_each (λ x. request (call x) (answer x)) xs t ≡ (ok (errors_of xs t), calls_for xs t)
  unfolding delete_each ◌>>=◌ continue attempt request pure errors_of
  delete_each_run [] t = refl
  delete_each_run (x ∷ xs) t = rw (delete_each_run xs (call x ∷ t)) refl

  errors_iff :
      (xs : List A) (t : Trace) (e : Err)
      → Among e (errors_of xs t) ↔ (Among (err e) (answers_of xs t) × (is_not_found e ≡ false))
  unfolding errors_of
  errors_iff [] t e = ((λ h. absurd h), (λ h. absurd h.0))
  errors_iff (x ∷ xs) t e =
      with_answer (answer x (call x ∷ t)) (answers_of xs (call x ∷ t)) (errors_of xs (call x ∷ t)) e
        (errors_iff xs (call x ∷ t) e)

  -- The loop makes one delete call for each object, in order, whether or not earlier calls have
  -- failed, and answers with a list of errors; an error is in it exactly if the server has answered
  -- one of these calls with it, and it is none that says "not found".
  pub delete_each_lem :
      (xs : List A) (t : Trace)
      → (errors : List Err) × (delete_each (λ x. request (call x) (answer x)) xs t
          ≡ (ok errors, calls_for xs t))
        × ((e : Err)
            → Among e errors ↔ (Among (err e) (answers_of xs t) × (is_not_found e ≡ false)))
  delete_each_lem xs t = (errors_of xs t, delete_each_run xs t, errors_iff xs t)
