-- ===== src/Prelude/Lists.antt =====
-- Lists under Boolean tests and native lengths, and predicates that hold of every element.
use Prim.Native.Nat.{ℕ, suc, ◌+◌, ◌≤◌}
use mathlib.Core.Path.{◌≡◌, refl, sym, ap, ◌∙◌, subst}
use mathlib.Core.Logic.{◌⊎◌, inl, inr}
use mathlib.Core.Bool.{Bool, true, false, ◌&&◌, ◌||◌}
use mathlib.Core.Option.{Option, none, some}
use mathlib.Core.List.{List, [], ◌∷◌, ◌++◌}
use native.Mathlib.Omega.{arith}
use gateway_operator.Prelude.Tests.{if◌then◌else◌}

module _ {ℓ} {A : Type ℓ} where
  abbrev pub length : List A → ℕ
  length [] = 0
  length (x ∷ xs) = suc (length xs)

  -- `for x in xs { if p(x) { out = append(out, x) } }`
  abbrev pub filter_if : (A → Bool) → List A → List A
  filter_if p [] = []
  filter_if p (x ∷ xs) = let rest = filter_if p xs in if p x then x ∷ rest else rest

  -- `for x in xs { if p(x) { return x } }`
  abbrev pub find_if : (A → Bool) → List A → Option A
  find_if p [] = none
  find_if p (x ∷ xs) = let rest = find_if p xs in if p x then some x else rest

  abbrev pub any_of : (A → Bool) → List A → Bool
  any_of p [] = false
  any_of p (x ∷ xs) = p x || any_of p xs

  abbrev pub all_of : (A → Bool) → List A → Bool
  all_of p [] = true
  all_of p (x ∷ xs) = p x && all_of p xs

  pub filter_if-append :
      (p : A → Bool) (xs ys : List A) → filter_if p (xs ++ ys) ≡ filter_if p xs ++ filter_if p ys
  filter_if-append p [] ys = refl
  filter_if-append p (x ∷ xs) ys = ground (arith, filter_if-append p xs ys)

  pub filter_if_idem : (p : A → Bool) (xs : List A) → filter_if p (filter_if p xs) ≡ filter_if p xs
  filter_if_idem p [] = refl
  filter_if_idem p (x ∷ xs) = ground (arith, filter_if_idem p xs)

  pub length-filter_if-le : (p : A → Bool) (xs : List A) → length (filter_if p xs) ≤ length xs
  length-filter_if-le p [] = omega arith
  length-filter_if-le p (x ∷ xs) = ground (arith, length-filter_if-le p xs)

  -- a filter under which every element passes changes nothing
  pub filter_if_all : (p : A → Bool) (xs : List A) → all_of p xs ≡ true → filter_if p xs ≡ xs
  filter_if_all p [] h = refl
  filter_if_all p (x ∷ xs) h = ground (arith, filter_if_all p xs)

  pub all_of-filter_if : (p : A → Bool) (xs : List A) → all_of p (filter_if p xs) ≡ true
  all_of-filter_if p [] = refl
  all_of-filter_if p (x ∷ xs) = ground (arith, all_of-filter_if p xs)

  pub length-append : (xs ys : List A) → length (xs ++ ys) ≡ length xs + length ys
  length-append [] ys = omega arith
  length-append (x ∷ xs) ys = omega (arith, length-append xs ys)

  pub any_of-append :
      (p : A → Bool) (xs ys : List A) → any_of p (xs ++ ys) ≡ any_of p xs || any_of p ys
  any_of-append p [] ys = refl
  any_of-append p (x ∷ xs) ys = ground (arith, any_of-append p xs ys)

  pub find_if-append_none :
      (p : A → Bool) (xs ys : List A) → find_if p xs ≡ none → find_if p (xs ++ ys) ≡ find_if p ys
  find_if-append_none p [] ys h = refl
  find_if-append_none p (x ∷ xs) ys h = ground (arith, find_if-append_none p xs ys)

  -- what a filter drops is not found in its result
  pub find_if-filter_if-none :
      (p q : A → Bool) (xs : List A)
      → ((a : A) → q a ≡ true → p a ≡ false)
      → find_if p (filter_if q xs) ≡ none
  find_if-filter_if-none p q [] h = refl
  find_if-filter_if-none p q (x ∷ xs) h = ground (arith, h x, find_if-filter_if-none p q xs h)

  -- a filter that keeps all that is looked for does not disturb the search
  pub find_if-filter_if :
      (p q : A → Bool) (xs : List A)
      → ((a : A) → p a ≡ true → q a ≡ true)
      → find_if p (filter_if q xs) ≡ find_if p xs
  find_if-filter_if p q [] h = refl
  find_if-filter_if p q (x ∷ xs) h = ground (arith, h x, find_if-filter_if p q xs h)

  pub find_if-append :
      (p : A → Bool) (xs ys : List A)
      → find_if p (xs ++ ys) ≡ elim (find_if p xs) [ none ↦ find_if p ys | some a ↦ some a ]
  find_if-append p [] ys = refl
  find_if-append p (x ∷ xs) ys = ground (arith, find_if-append p xs ys)

module _ {ℓ κ} {A : Type ℓ} (P : A → Type κ) where
  abbrev pub All : List A → Type κ
  All [] = Unit
  All (x ∷ xs) = P x × All xs

  pub All-append : (xs ys : List A) → All xs → All ys → All (xs ++ ys)
  All-append [] ys h k = k
  All-append (x ∷ xs) ys h k = (h.0, All-append xs ys h.1 k)

module _ {ℓ κ} {A : Type ℓ} {R : Type κ} where
  -- What to do with a list that should have one element or none.
  abbrev pub at_most_one : R → (A → R) → R → List A → R
  at_most_one absent one several [] = absent
  at_most_one absent one several (x ∷ []) = one x
  at_most_one absent one several (x ∷ _ ∷ _) = several

-- The list has the element.
abbrev pub Among : {A : Type 0} → A → List A → Type 0
Among a [] = ⊥
Among a (x ∷ xs) = (a ≡ x) ⊎ Among a xs

module _ {A : Type 0} where
  pub all_of-Among :
      (p : A → Bool) (a : A) (xs : List A) → all_of p xs ≡ true → Among a xs → p a ≡ true
  all_of-Among p a [] h m = absurd m
  all_of-Among p a (x ∷ xs) h (inl e) = ap p e ∙ ground (arith, h)
  all_of-Among p a (x ∷ xs) h (inr m) = all_of-Among p a xs (ground (arith, h)) m

  pub All-Among : (P : A → Type 0) (a : A) (xs : List A) → All P xs → Among a xs → P a
  All-Among P a [] h m = absurd m
  All-Among P a (x ∷ xs) h (inl e) = subst P (sym e) h.0
  All-Among P a (x ∷ xs) h (inr m) = All-Among P a xs h.1 m

  pub Among-All : (P : A → Type 0) (xs : List A) → ((a : A) → Among a xs → P a) → All P xs
  Among-All P [] h = tt
  Among-All P (x ∷ xs) h = (h x (inl refl), Among-All P xs (λ a m. h a (inr m)))
