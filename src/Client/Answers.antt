-- ===== src/Client/Answers.antt =====
-- What a piece of code answers, whatever the server does: it does not fail, and its answer satisfies
-- `Q`. One rule for each way to build the code.
use gateway_operator.Prelude.{
  ◌≡◌, refl, sym, ap, ◌∙◌, Bool, true, false, List, [], ◌∷◌, if◌then◌else◌, at_most_one,
}
use mathlib.Core.Path.{subst}
use gateway_operator.Errors.{Result, ok, err}
use gateway_operator.Client.{Trace, M, pure, read, attempt, continue, ◌>>=◌}
use gateway_operator.Client.Keeps.{Answered}

pub record Answers {A : Type 0} (Q : A → Type 0) (m : M A) : Type 0 where
  pub at : (t : Trace) → (a : A) × ((m t).0 ≡ ok a) × Q a

module _ {A : Type 0} where
  result : A → Result A → A
  result a (ok b) = b
  result a (err e) = a

  -- nothing is said of the outcome of the attempted code
  pub Answers-attempt : (m : M A) → Answers (λ (r : Result A). Unit {0}) (attempt m)
  unfolding attempt
  Answers-attempt m = record { at = λ t. ((m t).0, refl, tt) }

  -- the outcome is that of some run
  pub Answers-attempt_run :
      (m : M A) → Answers (λ (r : Result A). (t : Trace) × ((m t).0 ≡ r)) (attempt m)
  unfolding attempt
  Answers-attempt_run m = record { at = λ t. ((m t).0, refl, (t, refl)) }

module _ {A : Type 0} {Q : A → Type 0} where
  pub Answers-pure : (a : A) → Q a → Answers Q (pure a)
  unfolding pure
  Answers-pure a q = record { at = λ t. (a, refl, q) }

  pub Answers-read : (f : Trace → A) → ((a : A) → Q a) → Answers Q (read f)
  unfolding read
  Answers-read f q = record { at = λ t. (f t, refl, q (f t)) }

  pub Answers-if :
      (b : Bool) (m n : M A)
      → (b ≡ true → Answers Q m)
      → (b ≡ false → Answers Q n)
      → Answers Q (if b then m else n)
  Answers-if true m n km kn = km refl
  Answers-if false m n km kn = kn refl

  pub Answers-at_most_one :
      {B : Type 0} (absent several : M A) (one : B → M A) (xs : List B)
      → Answers Q absent
      → Answers Q several
      → ((x : B) → Answers Q (one x))
      → Answers Q (at_most_one absent one several xs)
  Answers-at_most_one absent several one [] ka ks ko = ka
  Answers-at_most_one absent several one (x ∷ []) ka ks ko = ko x
  Answers-at_most_one absent several one (x ∷ y ∷ xs) ka ks ko = ks

  -- The answer that was given at some calls is one of these.
  pub Answers-Answered : {u t : Trace} (m : M A) (a : A) → Answers Q m → Answered u m a t → Q a
  unfolding result
  Answers-Answered m a k answered =
      let (b, e, q) = k.at answered.before in
      subst Q (ap (result a) (sym e ∙ ap (λ (p : Result A × Trace). p.0) answered.answer)) q

module _ {A : Type 0} {R Q : A → Type 0} where
  pub Answers-weaken : (m : M A) → ((a : A) → R a → Q a) → Answers R m → Answers Q m
  Answers-weaken m f k = record { at = λ t. let (a, e, r) = k.at t in (a, e, f a r) }

module _ {A B : Type 0} {R : A → Type 0} {Q : B → Type 0} where
  pub Answers-bind :
      (m : M A) (f : A → M B)
      → Answers R m
      → ((a : A) → R a → Answers Q (f a))
      → Answers Q (m >>= f)
  unfolding ◌>>=◌ continue
  Answers-bind m f km kf = record {
    at = λ t. let (a, e, r) = km.at t in rw (e, continue) ((kf a r).at (m t).1);
  }

pub ruleset answers_rules =
    (Answers-pure, Answers-read, Answers-if, Answers-attempt, Answers-at_most_one, Answers-bind)
