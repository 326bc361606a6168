-- ===== src/Status/Conditions.antt =====
-- What the setters of internal/utils/kubernetes/status.go leave in the conditions of a resource.
use gateway_operator.Prelude.{
  ℕ, suc, ◌≤◌, String, ◌≡◌, refl, some, List, [], ◌∷◌, ◌==◌, string_eq, eq_iff, arith, All,
  if◌then◌else◌, true, ◌≢◌, ◌↔◌, ◌⊎◌, false, Bool, ◌∙◌,
}
use gateway_operator.Api.Meta.{Condition}
use gateway_operator.Status.{
  ConditionsAware, set_condition_in, get_condition_in, set_condition, get_condition,
  are_all_conditions_ready_in, is_valid_condition_in, is_status_true, ready_type, condition_true,
  is_ready, ready_condition, init_ready, set_ready, new_condition, condition_false,
  dependencies_not_ready_reason, dependencies_not_ready_message,
}

pub get-set_condition_in :
    (t : String) (c : Condition) (cs : List Condition)
    → get_condition_in t (set_condition_in c cs)
      ≡ (if c.type == t then some c else get_condition_in t cs)
unfolding get_condition_in set_condition_in
get-set_condition_in t c [] = refl
get-set_condition_in t c (d ∷ cs) =
    ground
      (arith, eq_iff d.type c.type, eq_iff d.type t, eq_iff c.type t, get-set_condition_in t c cs)

-- How many conditions of a type there are.
abbrev pub count_type : String → List Condition → ℕ
count_type t [] = 0
count_type t (c ∷ cs) = let rest = count_type t cs in if c.type == t then suc rest else rest

-- The conditions are a map keyed by type, as the CRD's `listMapKey` demands.
abbrev pub IsKeyed : List Condition → Type 0
IsKeyed cs = (t : String) → count_type t cs ≤ 1

count_type-set_condition_in :
    (t : String) (c : Condition) (cs : List Condition)
    → count_type t (set_condition_in c cs) ≡ (if c.type == t then 1 else count_type t cs)
unfolding set_condition_in
count_type-set_condition_in t c [] = refl
count_type-set_condition_in t c (d ∷ cs) = ground (
  arith,
  eq_iff d.type c.type,
  eq_iff d.type t,
  eq_iff c.type t,
  count_type-set_condition_in t c cs,
)

pub set_condition_in-IsKeyed :
    (c : Condition) (cs : List Condition) → IsKeyed cs → IsKeyed (set_condition_in c cs)
set_condition_in-IsKeyed c cs h t = ground (arith, count_type-set_condition_in t c cs, h t)

module _ {A : Type 0} ⦃r : ConditionsAware A⦄ where
  -- Reading a condition back after SetCondition gives the new condition at its own type, and at
  -- every other type what was there before.
  pub get-set_condition :
      (t : String) (c : Condition) (a : A)
      → get_condition t (set_condition c a) ≡ (if c.type == t then some c else get_condition t a)
  unfolding get_condition set_condition
  get-set_condition t c a = ground (
    arith,
    r.get-set_conditions (set_condition_in c (r.get_conditions a)) a,
    get-set_condition_in t c (r.get_conditions a),
  )

  -- If no two conditions of a resource share a type, this still holds after SetCondition.
  pub set_condition-IsKeyed :
      (c : Condition) (a : A)
      → IsKeyed (r.get_conditions a)
      → IsKeyed (r.get_conditions (set_condition c a))
  unfolding set_condition
  set_condition-IsKeyed c a h t = ground (
    arith,
    r.get-set_conditions (set_condition_in c (r.get_conditions a)) a,
    set_condition_in-IsKeyed c (r.get_conditions a) h t,
  )

is_valid-get_condition_in :
    (t : String) (cs : List Condition)
    → is_valid_condition_in t cs ≡ is_status_true (get_condition_in t cs)
unfolding is_valid_condition_in get_condition_in
is_valid-get_condition_in t cs = refl

-- The verdict over all other conditions does not see the Ready condition.
all_ready-set_condition_in :
    (c : Condition) (cs : List Condition)
    → c.type ≡ ready_type
    → are_all_conditions_ready_in (set_condition_in c cs) ≡ are_all_conditions_ready_in cs
unfolding are_all_conditions_ready_in set_condition_in
all_ready-set_condition_in c [] h = ground (arith, eq_iff c.type ready_type)
all_ready-set_condition_in c (d ∷ cs) h = ground (
  arith,
  eq_iff c.type ready_type,
  eq_iff d.type c.type,
  eq_iff d.type ready_type,
  all_ready-set_condition_in c cs h,
)

-- Every condition but Ready itself is True.
abbrev pub OthersTrue : List Condition → Type 0
OthersTrue = All (λ c. (c.type ≡ ready_type) ⊎ (c.status ≡ condition_true))

are_all_conditions_ready_iff :
    (cs : List Condition) → (are_all_conditions_ready_in cs ≡ true) ↔ OthersTrue cs
unfolding are_all_conditions_ready_in
are_all_conditions_ready_iff [] = ground arith
are_all_conditions_ready_iff (d ∷ cs) = ground (
  arith,
  eq_iff d.type ready_type,
  eq_iff d.status condition_true,
  are_all_conditions_ready_iff cs,
)

pub is_valid-set_condition_in :
    (t : String) (c : Condition) (cs : List Condition)
    → is_valid_condition_in t (set_condition_in c cs)
      ≡ (if c.type == t then c.status == condition_true else is_valid_condition_in t cs)
is_valid-set_condition_in t c cs =
    rw (is_valid-get_condition_in, is_valid-get_condition_in, get-set_condition_in)
      (ground (arith, eq_iff c.type t))

status_test : (b : Bool) → ((if b then condition_true else condition_false) == condition_true) ≡ b
status_test true = refl
status_test false = refl

pub ready_condition-valid :
    (now : ℕ) (cs : List Condition)
    → is_valid_condition_in ready_type (set_condition_in (ready_condition now cs) cs)
      ≡ are_all_conditions_ready_in cs
unfolding ready_condition
ready_condition-valid now cs =
    is_valid-set_condition_in ready_type (ready_condition now cs) cs
    ∙ status_test (are_all_conditions_ready_in cs)

abbrev pub not_ready : ℕ → Condition
not_ready now =
    new_condition now ready_type condition_false dependencies_not_ready_reason
      dependencies_not_ready_message

module _ {A : Type 0} ⦃r : ConditionsAware A⦄ where
  -- After SetReady a resource is Ready exactly when each of its conditions, other than Ready
  -- itself, is True.
  pub is_ready-set_ready :
      (now : ℕ) (a : A) → (is_ready (set_ready now a) ≡ true) ↔ OthersTrue (r.get_conditions a)
  unfolding is_ready set_ready
  is_ready-set_ready now a =
      rw (r.get-set_conditions, ready_condition-valid)
        (are_all_conditions_ready_iff (r.get_conditions a))

  -- InitReady leaves the resource not ready, and every condition but Ready as it was.
  pub init_ready_lem :
      (now : ℕ) (t : String) (a : A)
      → (is_ready (init_ready now a) ≡ false)
        × (t ≢ ready_type → get_condition t (init_ready now a) ≡ get_condition t a)
  unfolding is_ready init_ready set_condition new_condition
  init_ready_lem now t a =
      let c = not_ready now in
      (
        rw (r.get-set_conditions) (is_valid-set_condition_in ready_type c (r.get_conditions a)),
        λ ne. ground (arith, get-set_condition t c a, eq_iff ready_type t),
      )
