-- ===== src/Outcomes.antt =====
-- What a reconciliation asks of the framework, ctrl.Result.
use gateway_operator.Prelude.{Bool-cases, inl, inr, refl, ◌≡◌, ℕ, if◌then◌else◌}
use gateway_operator.Errors.{Result, ok, err, is_conflict}
use gateway_operator.Client.{Trace, M, pure, raise}

-- The zero value, or a request to run again after requeueWithoutBackoff or after a time.
pub data Outcome : Type 0 where
  done requeue_without_backoff : Outcome
  requeue_after : ℕ → Outcome

-- A write whose conflicts only ask for another run.
unfoldable pub or_requeue : {A : Type 0} → Result A → M Outcome
or_requeue (ok _) = pure done
or_requeue (err e) = if is_conflict e then pure requeue_without_backoff else raise e

-- It makes no call.
pub or_requeue-trace : {A : Type 0} (r : Result A) (t : Trace) → (or_requeue r t).1 ≡ t
unfolding or_requeue pure raise
or_requeue-trace (ok a) t = refl
or_requeue-trace (err e) t = elim (Bool-cases (is_conflict e)) [
  | inl conflict ↦ rw conflict refl
  | inr other ↦ rw other refl
]
