-- ===== src/DataPlanes/Conditions/NotProvisioned.antt =====
-- What marking a data plane as not provisioned does to its conditions.
use gateway_operator.Prelude.{
  ◌++◌, All-append, find_if-append, if◌then◌else◌, String, ◌≡◌, ◌≢◌, refl, true, false, List, [],
  ◌∷◌, ◌==◌, string_eq, arith, eq_iff, any_of, All, any_of-append, find_if-append,
}
use gateway_operator.Api.Meta.{Condition}
use gateway_operator.Status.{get_condition_in}
use gateway_operator.DataPlanes.Conditions.{
  provisioned_type, is_same_data_plane_condition, replace_condition, replace_conditions,
  not_provisioned_conditions, Bool,
}

same_refl : (c : Condition) → is_same_data_plane_condition c c ≡ true
unfolding is_same_data_plane_condition
same_refl c = ground (
  arith,
  eq_iff c.type c.type,
  eq_iff c.status c.status,
  eq_iff c.reason c.reason,
  eq_iff c.message c.message,
)

-- A condition of another type, or one that says the same as `new`.
abbrev pub Agrees : Condition → Condition → Type 0
Agrees new c = c.type ≡ provisioned_type → is_same_data_plane_condition new c ≡ true

replace_condition-Agrees : (new c : Condition) → Agrees new (replace_condition new c)
unfolding replace_condition
replace_condition-Agrees new c h = ground (arith, same_refl new, eq_iff c.type provisioned_type)

replace_condition-type :
    (new c : Condition) → new.type ≡ provisioned_type → (replace_condition new c).type ≡ c.type
unfolding replace_condition
replace_condition-type new c named = ground (arith, eq_iff c.type provisioned_type)

replace_condition_other :
    (new c : Condition) → c.type ≢ provisioned_type → replace_condition new c ≡ c
unfolding replace_condition
replace_condition_other new c h = ground (arith, eq_iff c.type provisioned_type)

replace_conditions-Agrees :
    (new : Condition) (cs : List Condition) → All (Agrees new) (replace_conditions new cs).0
unfolding replace_conditions
replace_conditions-Agrees new [] = tt
replace_conditions-Agrees new (c ∷ cs) =
    (replace_condition-Agrees new c, replace_conditions-Agrees new cs)

replace_conditions-unchanged :
    (new : Condition) (cs : List Condition)
    → (replace_conditions new cs).2 ≡ false
    → (replace_conditions new cs).0 ≡ cs
unfolding replace_conditions replace_condition
replace_conditions-unchanged new [] h = refl
replace_conditions-unchanged new (c ∷ cs) h = ground (arith, replace_conditions-unchanged new cs)

replace_conditions-found :
    (new : Condition) (cs : List Condition)
    → (replace_conditions new cs).1 ≡ any_of (λ c. c.type == provisioned_type) cs
unfolding replace_conditions
replace_conditions-found new [] = refl
replace_conditions-found new (c ∷ cs) = ground (arith, replace_conditions-found new cs)

replace_conditions-get :
    (new : Condition) (cs : List Condition) (t : String)
    → new.type ≡ provisioned_type
    → t ≢ provisioned_type
    → get_condition_in t (replace_conditions new cs).0 ≡ get_condition_in t cs
unfolding replace_conditions get_condition_in
replace_conditions-get new [] t named other = refl
replace_conditions-get new (c ∷ cs) t named other = ground (
  arith,
  replace_conditions-get new cs t named other,
  eq_iff c.type t,
  replace_condition-type new c named,
  replace_condition_other new c,
)

replaced_present :
    (new : Condition) (cs : List Condition)
    → new.type ≡ provisioned_type
    → any_of (λ c. c.type == provisioned_type) (replace_conditions new cs).0
      ≡ any_of (λ c. c.type == provisioned_type) cs
unfolding replace_conditions
replaced_present new [] named = refl
replaced_present new (c ∷ cs) named =
    ground (arith, replaced_present new cs named, replace_condition-type new c named)

module _ (new : Condition) (cs : List Condition) (named : new.type ≡ provisioned_type) where
  abbrev marked : List Condition
  marked = (not_provisioned_conditions new cs).0

  marked_present : any_of (λ c. c.type == provisioned_type) marked ≡ true
  unfolding not_provisioned_conditions
  marked_present = ground (
    arith,
    replace_conditions-found new cs,
    replaced_present new cs named,
    any_of-append (λ c. c.type == provisioned_type) (replace_conditions new cs).0 (new ∷ []),
    eq_iff new.type provisioned_type,
  )

  -- If the new condition is of the type Provisioned, then after the marking there is a condition of
  -- that type, and each of them has the status, the reason and the message of the new one.
  pub marked-Agrees :
      All (Agrees new) marked × (any_of (λ c. c.type == provisioned_type) marked ≡ true)
  unfolding not_provisioned_conditions
  marked-Agrees = (agree (replace_conditions new cs).1, marked_present)
    where
      agree :
          (found : Bool)
          → All (Agrees new) (
              if found
              then (replace_conditions new cs).0
              else (replace_conditions new cs).0 ++ new ∷ [])
      agree true = replace_conditions-Agrees new cs
      agree false =
          All-append (Agrees new) (replace_conditions new cs).0 (new ∷ [])
            (replace_conditions-Agrees new cs) ((λ _. same_refl new), tt)

  -- If the new condition is of the type Provisioned, the marking leaves what is found at every other
  -- type, and where it reports that nothing has to be written it leaves all conditions.
  pub marked_keeps :
      ((t : String) → t ≢ provisioned_type → get_condition_in t marked ≡ get_condition_in t cs)
      × ((not_provisioned_conditions new cs).1 ≡ false → marked ≡ cs)
  unfolding not_provisioned_conditions get_condition_in
  marked_keeps = (
    λ t other. ground (
      arith,
      replace_conditions-get new cs t named other,
      find_if-append (λ c. c.type == t) (replace_conditions new cs).0 (new ∷ []),
      eq_iff new.type t,
    ),
    λ h. ground (arith, replace_conditions-unchanged new cs),
  )

settled :
    (new : Condition) (cs : List Condition)
    → All (Agrees new) cs
    → replace_conditions new cs ≡ (cs, any_of (λ c. c.type == provisioned_type) cs, false)
unfolding replace_conditions replace_condition
settled new [] h = refl
settled new (c ∷ cs) h = ground (arith, settled new cs h.1, h.0, eq_iff c.type provisioned_type)

-- If all conditions of the type Provisioned agree with the new one, and there is one, then the
-- marking changes nothing and reports that nothing has to be written.
marked_settled :
    (new : Condition) (cs : List Condition)
    → All (Agrees new) cs
    → any_of (λ c. c.type == provisioned_type) cs ≡ true
    → not_provisioned_conditions new cs ≡ (cs, false)
unfolding not_provisioned_conditions
marked_settled new cs agree present = rw (settled new cs agree, present) refl
