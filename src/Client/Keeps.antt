-- ===== src/Client/Keeps.antt =====
-- What holds of all calls that a piece of code makes, each with the calls before it: one rule for
-- each way to build the code.
use gateway_operator.Prelude.{
  String, ◌≡◌, refl, sym, ap, ◌∙◌, Bool, true, false, if◌then◌else◌, at_most_one, [], ◌∷◌, ◌++◌,
}
use mathlib.Core.List.{append_assoc}
use mathlib.Core.Path.{subst}
use gateway_operator.Errors.{Err, Result, ok, err}
use gateway_operator.Client.{
  Call, Trace, M, pure, raise, lift, request, read, draw, attempt, wrapping, continue, ◌>>=◌, List,
}

-- The calls `t` are those of `u` and calls after them.
pub record Extends (t u : Trace) : Type 0 where
  pub new : Trace
  pub split : t ≡ new ++ u

pub Extends-refl : (t : Trace) → Extends t t
Extends-refl t = record { new = []; split = refl }

pub Extends-call : (call : Call) (t : Trace) → Extends (call ∷ t) t
Extends-call call t = record { new = call ∷ []; split = refl }

pub Extends-trans : (t u v : Trace) → Extends t u → Extends u v → Extends t v
Extends-trans t u v a b = record {
  new = a.new ++ b.new;
  split = a.split ∙ ap (λ (x : Trace). a.new ++ x) b.split ∙ sym (append_assoc a.new b.new v);
}

-- Each call satisfies `P`, which may look at the calls before it.
abbrev pub History : (Trace → Call → Type 0) → Trace → Type 0
History P [] = Unit
History P (call ∷ t) = P t call × History P t

-- Run after `u`, the code `m` adds calls to the trace, and each satisfies `P`, whatever it answers.
pub record Keeps {A : Type 0} (u : Trace) (P : Trace → Call → Type 0) (m : M A) : Type 0 where
  pub at : (t : Trace) → Extends t u → History P t → History P (m t).1
  pub grows : (t : Trace) → Extends t u → Extends (m t).1 t

-- After the calls `t`, and no earlier than `u`, the code `m` has answered with `a`.
pub record Answered {A : Type 0} (u : Trace) (m : M A) (a : A) (t : Trace) : Type 0 where
  pub before : Trace
  pub since : Extends before u
  pub answer : m before ≡ (ok a, t)

module _ {A : Type 0} {P : Trace → Call → Type 0} {u : Trace} where
  pub Keeps-pure : (a : A) → Keeps u P (pure a)
  unfolding pure
  Keeps-pure a = record { at = λ t e h. h; grows = λ t e. Extends-refl t }

  pub Keeps-raise : (e : Err) → Keeps u P (raise {A = A} e)
  unfolding raise
  Keeps-raise e = record { at = λ t e h. h; grows = λ t e. Extends-refl t }

  pub Keeps-lift : (r : Result A) → Keeps u P (lift r)
  unfolding lift
  Keeps-lift r = record { at = λ t e h. h; grows = λ t e. Extends-refl t }

  pub Keeps-read : (f : Trace → A) → Keeps u P (read f)
  unfolding read
  Keeps-read f = record { at = λ t e h. h; grows = λ t e. Extends-refl t }

  pub Keeps-draw : (f : Trace → Result A) → Keeps u P (draw f)
  unfolding draw
  Keeps-draw f = record { at = λ t e h. h; grows = λ t e. Extends-refl t }

  pub Keeps-request :
      (call : Call) (answer : Trace → Result A)
      → ((t : Trace) → Extends t u → P t call)
      → Keeps u P (request call answer)
  unfolding request
  Keeps-request call answer p = record {
    at = λ t e h. (p t e, h);
    grows = λ t e. Extends-call call t;
  }

  pub Keeps-attempt : (m : M A) → Keeps u P m → Keeps u P (attempt m)
  unfolding attempt
  Keeps-attempt m k = record { at = λ t e h. k.at t e h; grows = k.grows }

  pub Keeps-wrapping : (s : String) (m : M A) → Keeps u P m → Keeps u P (wrapping s m)
  unfolding wrapping
  Keeps-wrapping s m k = record { at = λ t e h. k.at t e h; grows = k.grows }

  pub Keeps-if :
      (b : Bool) (m n : M A)
      → (b ≡ true → Keeps u P m)
      → (b ≡ false → Keeps u P n)
      → Keeps u P (if b then m else n)
  Keeps-if true m n km kn = km refl
  Keeps-if false m n km kn = kn refl

  -- The calls at which `m` has answered are later than `u`.
  pub Answered-Extends :
      (m : M A) (a : A) (t : Trace) → Keeps u P m → Answered u m a t → Extends t u
  Answered-Extends m a t k answered =
      Extends-trans t answered.before u
        (subst (λ (r : Result A × Trace). Extends r.1 answered.before) answered.answer
          (k.grows answered.before answered.since))
        answered.since

  pub Keeps-later : (v : Trace) (m : M A) → Extends v u → Keeps u P m → Keeps v P m
  Keeps-later v m e k = record {
    at = λ t since h. k.at t (Extends-trans t v u since e) h;
    grows = λ t since. k.grows t (Extends-trans t v u since e);
  }

module _ {A B : Type 0} {P : Trace → Call → Type 0} where
  pub continue-grows :
      (r : Result A) (f : A → M B) (t : Trace)
      → ((a : A) → r ≡ ok a → Keeps t P (f a))
      → Extends (continue r f t).1 t
  unfolding continue
  continue-grows (ok a) f t k = (k a refl).grows t (Extends-refl t)
  continue-grows (err e) f t k = Extends-refl t

  continue-Keeps :
      (r : Result A) (f : A → M B) (t : Trace)
      → ((a : A) → r ≡ ok a → Keeps t P (f a))
      → History P t
      → History P (continue r f t).1
  unfolding continue
  continue-Keeps (ok a) f t k h = (k a refl).at t (Extends-refl t) h
  continue-Keeps (err e) f t k h = h

module _ {A B : Type 0} {P : Trace → Call → Type 0} {u : Trace} where
  -- the rest of the block may use that `m` has answered with its argument
  pub Keeps-bind_answer :
      (m : M A) (f : A → M B)
      → Keeps u P m
      → ((a : A) (t : Trace) → Answered u m a t → Keeps t P (f a))
      → Keeps u P (m >>= f)
  unfolding ◌>>=◌
  Keeps-bind_answer m f km kf = record {
    at = λ t since h.
        continue-Keeps (m t).0 f (m t).1
          (λ a e. kf a (m t).1 (record { before = t; since = since; answer = run t e }))
          (km.at t since h);
    grows = λ t since.
        Extends-trans (continue (m t).0 f (m t).1).1 (m t).1 t
          (continue-grows (m t).0 f (m t).1
            (λ a e. kf a (m t).1 (record { before = t; since = since; answer = run t e })))
          (km.grows t since);
  }
    where
      run : {a : A} (t : Trace) → (m t).0 ≡ ok a → m t ≡ (ok a, (m t).1)
      run t e = ap (λ (r : Result A). (r, (m t).1)) e

  pub Keeps-bind-raise : (e : Err) (f : A → M B) → Keeps u P (raise e >>= f)
  unfolding ◌>>=◌ raise continue
  Keeps-bind-raise e f = record { at = λ t since h. h; grows = λ t since. Extends-refl t }

  pub Keeps-bind-pure : (a : A) (f : A → M B) → Keeps u P (f a) → Keeps u P (pure a >>= f)
  unfolding ◌>>=◌ pure continue
  Keeps-bind-pure a f k = record {
    at = λ t since h. k.at t since h;
    grows = λ t since. k.grows t since;
  }

  pub Keeps-bind :
      (m : M A) (f : A → M B) → Keeps u P m → ((a : A) → Keeps u P (f a)) → Keeps u P (m >>= f)
  Keeps-bind m f km kf =
      Keeps-bind_answer m f km
        (λ a t answered. Keeps-later t (f a) (Answered-Extends m a t km answered) (kf a))

  pub Keeps-at_most_one :
      (absent several : M A) (one : B → M A) (xs : List B)
      → Keeps u P absent
      → Keeps u P several
      → ((x : B) → Keeps u P (one x))
      → Keeps u P (at_most_one absent one several xs)
  Keeps-at_most_one absent several one [] ka ks ko = ka
  Keeps-at_most_one absent several one (x ∷ []) ka ks ko = ko x
  Keeps-at_most_one absent several one (x ∷ y ∷ xs) ka ks ko = ks

pub ruleset keeps_rules = (
  Keeps-pure, Keeps-raise, Keeps-lift, Keeps-read, Keeps-draw, Keeps-request, Keeps-attempt,
  Keeps-wrapping, Keeps-if, Keeps-bind, Keeps-at_most_one,
)
