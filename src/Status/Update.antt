-- ===== src/Status/Update.antt =====
-- NeedsUpdate of internal/utils/kubernetes/status.go against what it is to decide.
use gateway_operator.Prelude.{
  ◌≤◌, String, ◌≡◌, ◌↔◌, refl, false, Option, none, some, List, [], ◌∷◌, ◌==◌, string_eq, nat_eq,
  eq_iff, length, any_of, arith, Bool-cases, inl, inr, nat_beq_iff, All, eq_refl,
}
use gateway_operator.Api.Meta.{Condition}
use gateway_operator.Status.{
  ConditionsAware, get_condition_in, condition_outdated, needs_update_in, needs_update,
}
use gateway_operator.Status.Conditions.{count_type, IsKeyed}

-- The updated resource shows this condition with the same status, reason and message.
abbrev pub Shows : Option Condition → Condition → Type 0
Shows none c = ⊥
Shows (some u) c = (u.status ≡ c.status) × (u.reason ≡ c.reason) × (u.message ≡ c.message)

-- Whatever the current resource shows at a type, the updated one shows too.
abbrev pub Covers : List Condition → List Condition → Type 0
Covers current updated =
    (t : String) (c : Condition)
    → get_condition_in t current ≡ some c
    → Shows (get_condition_in t updated) c

Shows-of_current :
    (o : Option Condition) (c : Condition) → (condition_outdated o c ≡ false) ↔ Shows o c
unfolding condition_outdated
Shows-of_current none c = ground arith
Shows-of_current (some u) c =
    ground (arith, eq_iff u.reason c.reason, eq_iff u.message c.message, eq_iff u.status c.status)

-- No condition of `cs` is outdated in `updated`.
abbrev NoneOutdated : List Condition → List Condition → Type 0
NoneOutdated updated cs =
    any_of (λ c. condition_outdated (get_condition_in c.type updated) c) cs ≡ false

count_type-pos :
    (t : String) (c : Condition) (cs : List Condition)
    → get_condition_in t cs ≡ some c
    → 1 ≤ count_type t cs
unfolding get_condition_in
count_type-pos t c [] h = cc
count_type-pos t c (d ∷ cs) h = ground (arith, count_type-pos t c cs)

module _ (updated : List Condition) where
  Covers-of_NoneOutdated :
      (cs : List Condition) (t : String) (c : Condition)
      → NoneOutdated updated cs
      → get_condition_in t cs ≡ some c
      → Shows (get_condition_in t updated) c
  unfolding get_condition_in
  Covers-of_NoneOutdated [] t c h found = cc
  Covers-of_NoneOutdated (d ∷ cs) t c h found = elim (Bool-cases (d.type == t)) [
    | inl here ↦
        let same : d ≡ c = ground arith in
        let named : d.type ≡ t = (eq_iff d.type t).0 here in
        rw (← named, ← same)
          ((Shows-of_current (get_condition_in d.type updated) d).0 (ground arith))
    | inr there ↦ Covers-of_NoneOutdated cs t c (ground arith) (ground arith)
  ]

  NoneOutdated-of_Shown :
      (cs : List Condition)
      → All (λ c. Shows (get_condition_in c.type updated) c) cs
      → NoneOutdated updated cs
  NoneOutdated-of_Shown [] h = refl
  NoneOutdated-of_Shown (d ∷ cs) h = ground (
    arith,
    (Shows-of_current (get_condition_in d.type updated) d).1 h.0,
    NoneOutdated-of_Shown cs h.1,
  )

  -- In a keyed list each condition is the one that is found at its type.
  Shown_of_Covers :
      (cs : List Condition)
      → IsKeyed cs
      → Covers cs updated
      → All (λ c. Shows (get_condition_in c.type updated) c) cs
  unfolding get_condition_in
  Shown_of_Covers [] k h = tt
  Shown_of_Covers (d ∷ cs) k h = (
    h d.type d (rw (eq_refl d.type)),
    Shown_of_Covers cs (λ t. ground (arith, k t))
        (λ t c found. h t c (ground (arith, k t, count_type-pos t c cs found))),
  )

needs_update_in_iff :
    (current updated : List Condition)
    → IsKeyed current
    → (needs_update_in current updated ≡ false)
      ↔ ((length current ≡ length updated) × Covers current updated)
unfolding needs_update_in
needs_update_in_iff current updated k = (
  λ h. (
    ground (arith, nat_beq_iff (length current) (length updated)),
    λ t c found. Covers-of_NoneOutdated updated current t c (ground arith) found,
  ),
  λ h. ground (
    arith,
    nat_beq_iff (length current) (length updated),
    NoneOutdated-of_Shown updated current (Shown_of_Covers updated current k h.1),
  ),
)

module _ {A : Type 0} ⦃r : ConditionsAware A⦄ where
  -- If no two conditions of the current resource share a type, NeedsUpdate is false exactly when
  -- the updated resource has as many conditions and shows, at each type that the current one has,
  -- the same status, reason and message.
  pub needs_update_iff :
      (current updated : A)
      → IsKeyed (r.get_conditions current)
      → (needs_update current updated ≡ false) ↔ (
          (length (r.get_conditions current) ≡ length (r.get_conditions updated))
          × Covers (r.get_conditions current) (r.get_conditions updated))
  unfolding needs_update
  needs_update_iff current updated =
      needs_update_in_iff (r.get_conditions current) (r.get_conditions updated)
