-- ===== src/Status/Completed.antt =====
-- InitReady, then a condition that is True, then SetReady: what a reconciliation that finds everything
-- in place does to the conditions.
use gateway_operator.Prelude.{
  sym, ℕ, String, ◌≡◌, ◌⊎◌, ◌↔◌, Bool, true, false, ◌||◌, some, List, [], ◌∷◌, ◌==◌, string_eq,
  all_of, All, arith, eq_iff, ◌∙◌,
}
use gateway_operator.Api.Meta.{Condition}
use gateway_operator.Status.{
  ConditionsAware, ready_type, condition_true, set_condition_in, are_all_conditions_ready_in,
  ready_condition, set_condition, get_condition, init_ready, set_ready, is_ready, new_condition,
}
use gateway_operator.Status.Conditions.{get-set_condition, ready_condition-valid}

-- Every condition is True, but for Ready and those of the type `t`.
abbrev pub OthersTrueBut : String → List Condition → Type 0
OthersTrueBut t = All (λ c. (c.type ≡ ready_type) ⊎ (c.type ≡ t) ⊎ (c.status ≡ condition_true))

others_but : String → List Condition → Bool
others_but t = all_of (λ c. c.type == ready_type || c.type == t || c.status == condition_true)

others_but_iff : (t : String) (cs : List Condition) → (others_but t cs ≡ true) ↔ OthersTrueBut t cs
unfolding others_but
others_but_iff t [] = ground arith
others_but_iff t (c ∷ cs) = ground (
  arith,
  eq_iff c.type ready_type,
  eq_iff c.type t,
  eq_iff c.status condition_true,
  others_but_iff t cs,
)

all_ready-true :
    (new : Condition) (cs : List Condition)
    → new.status ≡ condition_true
    → are_all_conditions_ready_in (set_condition_in new cs) ≡ others_but new.type cs
unfolding others_but are_all_conditions_ready_in set_condition_in
all_ready-true new [] h = ground (arith, eq_iff new.status condition_true, h)
all_ready-true new (c ∷ cs) h = ground (
  arith,
  eq_iff c.type new.type,
  eq_iff c.type ready_type,
  eq_iff new.status condition_true,
  h,
  all_ready-true new cs h,
)

others_but-ready :
    (t : String) (new : Condition) (cs : List Condition)
    → new.type ≡ ready_type
    → others_but t (set_condition_in new cs) ≡ others_but t cs
unfolding others_but set_condition_in
others_but-ready t new [] h = ground (arith, eq_iff new.type ready_type, h)
others_but-ready t new (c ∷ cs) h = ground (
  arith,
  eq_iff c.type new.type,
  eq_iff c.type ready_type,
  eq_iff new.type ready_type,
  h,
  others_but-ready t new cs h,
)

others_but-set :
    (new : Condition) (cs : List Condition)
    → others_but new.type (set_condition_in new cs) ≡ others_but new.type cs
unfolding others_but set_condition_in
others_but-set new [] = ground (arith, eq_iff new.type new.type)
others_but-set new (c ∷ cs) =
    ground (arith, eq_iff c.type new.type, eq_iff new.type new.type, others_but-set new cs)

-- What SetCondition sets at the type that is left out does not count.
pub OthersTrueBut-set :
    (new : Condition) (cs : List Condition)
    → OthersTrueBut new.type (set_condition_in new cs) ↔ OthersTrueBut new.type cs
OthersTrueBut-set new cs = (
  λ h.
      (others_but_iff new.type cs).0
        (sym (others_but-set new cs) ∙ (others_but_iff new.type (set_condition_in new cs)).1 h),
  λ h.
      (others_but_iff new.type (set_condition_in new cs)).0
        (others_but-set new cs ∙ (others_but_iff new.type cs).1 h),
)

-- Nor does InitReady.
pub OthersTrueBut-ready :
    (t : String) (new : Condition) (cs : List Condition)
    → new.type ≡ ready_type
    → OthersTrueBut t (set_condition_in new cs) ↔ OthersTrueBut t cs
OthersTrueBut-ready t new cs h = (
  λ k.
      (others_but_iff t cs).0
        (sym (others_but-ready t new cs h) ∙ (others_but_iff t (set_condition_in new cs)).1 k),
  λ k.
      (others_but_iff t (set_condition_in new cs)).0
        (others_but-ready t new cs h ∙ (others_but_iff t cs).1 k),
)

module _ {A : Type 0} ⦃r : ConditionsAware A⦄ where
  -- Ready after SetReady, where a condition that is True was set just before.
  pub is_ready-set_true :
      (now : ℕ) (new : Condition) (a : A)
      → new.status ≡ condition_true
      → (is_ready (set_ready now (set_condition new a)) ≡ true)
        ↔ OthersTrueBut new.type (r.get_conditions a)
  unfolding is_ready set_ready set_condition
  is_ready-set_true now new a h =
      rw (r.get-set_conditions, ready_condition-valid, r.get-set_conditions, all_ready-true new _ h)
        (others_but_iff new.type (r.get_conditions a))

  pub is_ready-completed :
      (start now : ℕ) (new : Condition) (a : A)
      → new.status ≡ condition_true
      → (is_ready (set_ready now (set_condition new (init_ready start a))) ≡ true)
        ↔ OthersTrueBut new.type (r.get_conditions a)
  unfolding is_ready set_ready set_condition init_ready new_condition
  is_ready-completed start now new a h =
      rw
        (
          r.get-set_conditions,
          ready_condition-valid,
          r.get-set_conditions,
          all_ready-true new _ h,
          r.get-set_conditions,
          others_but-ready,
        )
        (others_but_iff new.type (r.get_conditions a))

  pub get-completed :
      (now : ℕ) (new : Condition) (a : A)
      → (ready_type == new.type) ≡ false
      → get_condition new.type (set_ready now (set_condition new a)) ≡ some new
  unfolding set_ready ready_condition
  get-completed now new a other =
      rw (get-set_condition, other, get-set_condition) (ground (arith, eq_iff new.type new.type))
