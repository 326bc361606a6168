-- ===== src/Client/Monad.antt =====
-- The laws of the monad, and what a successful run says of its parts.
use mathlib.Core.Path.{fun_ext}
use gateway_operator.Prelude.{◌≡◌, refl, ap, ◌∙◌, arith}
use gateway_operator.Errors.{Err, Result, ok, err}
use gateway_operator.Client.{Trace, M, pure, attempt, continue, ◌>>=◌, lift, draw, read}

module _ {A B : Type 0} where
  pub pure-bind : (a : A) (f : A → M B) → (pure a >>= f) ≡ f a
  unfolding ◌>>=◌ pure continue
  pure-bind a f = refl

  -- A step whose run is known can be taken.
  pub bind_step :
      (m : M A) (f : A → M B) {t u : Trace} {a : A} → m t ≡ (ok a, u) → (m >>= f) t ≡ f a u
  unfolding ◌>>=◌ continue
  bind_step m f {t} {u} {a} e = rw e

  pub bind_run :
      (m : M A) (f : A → M B) {t u : Trace} {a : A} {r : Result B × Trace}
      → m t ≡ (ok a, u)
      → f a u ≡ r
      → (m >>= f) t ≡ r
  bind_run m f e h = bind_step m f e ∙ h

  pub bind_fail :
      (m : M A) (f : A → M B) {t u : Trace} {e : Err} → m t ≡ (err e, u) → (m >>= f) t ≡ (err e, u)
  unfolding ◌>>=◌ continue
  bind_fail m f {t} {u} h = rw h

module _ {A : Type 0} where
  settle : Result (Result A) → Result A
  settle (ok r) = r
  settle (err e) = err e

  -- What `attempt` answers is the outcome of the attempted code.
  pub attempt_answer :
      (m : M A) {t u : Trace} {r : Result A} → attempt m t ≡ (ok r, u) → m t ≡ (r, u)
  unfolding attempt settle
  attempt_answer m h = ap (λ (x : Result (Result A) × Trace). (settle x.0, x.1)) h

  continue-pure : (r : Result A) (t : Trace) → continue r pure t ≡ (r, t)
  unfolding continue pure
  continue-pure (ok a) t = refl
  continue-pure (err e) t = refl

  pub bind-pure : (m : M A) → (m >>= pure) ≡ m
  unfolding ◌>>=◌
  bind-pure m = fun_ext λ t. continue-pure (m t).0 (m t).1

module _ {A B C : Type 0} where
  continue_assoc :
      (r : Result A) (f : A → M B) (g : B → M C) (t : Trace)
      → (continue r f >>= g) t ≡ continue r (λ a. f a >>= g) t
  unfolding ◌>>=◌ continue
  continue_assoc (ok a) f g t = refl
  continue_assoc (err e) f g t = refl

  pub bind_assoc : (m : M A) (f : A → M B) (g : B → M C) → (m >>= f >>= g) ≡ (m >>= λ a. f a >>= g)
  unfolding ◌>>=◌
  bind_assoc m f g = fun_ext λ t. continue_assoc (m t).0 f g (m t).1

pub lift_answer :
    {A : Type 0} (r : Result A) {a : A} (t u : Trace) → lift r t ≡ (ok a, u) → r ≡ ok a
unfolding lift
lift_answer r t u h = ap (λ (x : Result _ × Trace). x.0) h

pub draw_answer :
    {A : Type 0} (f : Trace → Result A) {a : A} (t u : Trace) → draw f t ≡ (ok a, u) → f t ≡ ok a
unfolding draw
draw_answer f t u h = ap (λ (x : Result _ × Trace). x.0) h

pub attempt_run :
    {A : Type 0} (m : M A) {t u : Trace} {r : Result A} → m t ≡ (r, u) → attempt m t ≡ (ok r, u)
unfolding attempt
attempt_run m e = rw e refl

pub read_run : {A : Type 0} (f : Trace → A) (t : Trace) → read f t ≡ (ok (f t), t)
unfolding read
read_run f t = refl

module _ {A B : Type 0} where
  -- A block that has answered is made of two parts that have.
  pub bind_parts :
      (m : M A) (f : A → M B) {t u : Trace} {b : B}
      → (m >>= f) t ≡ (ok b, u)
      → (a : A) × (v : Trace) × (m t ≡ (ok a, v)) × (f a v ≡ (ok b, u))
  unfolding ◌>>=◌ continue
  bind_parts m f {t} {u} {b} h = parts (m t).0 (m t).1 refl h
    where
      parts :
          (r : Result A) (v : Trace)
          → m t ≡ (r, v)
          → continue r f v ≡ (ok b, u)
          → (a : A) × (v : Trace) × (m t ≡ (ok a, v)) × (f a v ≡ (ok b, u))
      parts (ok a) v e k = (a, v, e, k)
      parts (err e) v e' k = ground (arith, ap (λ (x : Result B × Trace). x.0) k)
