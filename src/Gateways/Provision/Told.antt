-- ===== src/Gateways/Provision/Told.antt =====
-- What the status of a gateway says of its planes after they were provisioned.
use gateway_operator.Prelude.{
  String, ◌≡◌, ◌↔◌, refl, sym, ◌∙◌, Bool, true, false, Option, none, some, ◌==◌, string_eq, arith,
  eq_iff,
}
use gateway_operator.Errors.{Err, Result, ok, err, error_text}
use gateway_operator.Api.Meta.{Condition}
use gateway_operator.Api.Resources.{Gateway}
use gateway_operator.Status.{
  data_plane_conditions, control_plane_conditions, gateway_conditions, condition_true,
  condition_false, new_condition, set_condition, is_valid_condition, is_ready, ready_type,
  resource_created_or_updated_reason, unable_to_provision_reason, resource_created_message,
}
use gateway_operator.Status.Conditions.{is_valid-set_condition_in}
use gateway_operator.Gateways.Provision.{mark, unable, created}
use gateway_operator.Client.{Client, read}
use gateway_operator.Client.Answers.{Answers, Answers-pure, Answers-read, Answers-bind}

-- A condition of a type other than Ready has been set on the gateway.
pub record Marked (type : String) (valid : Bool) (g g' : Gateway) : Type 0 where
  pub validity : is_valid_condition type g' ≡ valid
  pub readiness : is_ready g' ≡ is_ready g
  pub metadata : g'.metadata ≡ g.metadata

-- The condition is True exactly if there is a plane, and that is ready; whether the gateway is ready
-- has not changed, nor has its metadata.
pub record Told {A : Type 0} (type : String) (ready : A → Bool) (g : Gateway)
    (r : Gateway × Option A) : Type 0 where
  pub told : (is_valid_condition type r.0 ≡ true) ↔ ((a : A) × (r.1 ≡ some a) × (ready a ≡ true))
  pub readiness : is_ready r.0 ≡ is_ready g
  pub metadata : r.0.metadata ≡ g.metadata

set-Marked :
    (c : Condition) (g : Gateway)
    → (c.type == ready_type) ≡ false
    → Marked c.type (c.status == condition_true) g (set_condition c g)
unfolding set_condition is_valid_condition is_ready
set-Marked c g other = record {
  validity = ground (arith, is_valid-set_condition_in c.type c g.conditions, eq_iff c.type c.type);
  readiness = ground (arith, is_valid-set_condition_in ready_type c g.conditions, other);
  metadata = refl;
}

module _ (c : Client) where
  pub mark-Marked :
      (type status reason text : String) (g : Gateway)
      → (type == ready_type) ≡ false
      → Answers (Marked type (status == condition_true) g) (mark c type status reason text g)
  unfolding mark new_condition
  mark-Marked type status reason text g other =
      Answers-bind {R = λ now. Unit {0}} (read c.now) _ (Answers-read c.now (λ now. tt))
        (λ now _. Answers-pure _ (set-Marked (new_condition now type status reason text) g other))

  module _ {A : Type 0} (type : String) (other : (type == ready_type) ≡ false)
      (ready : A → Bool) where
    pub absent-Told : (g g' : Gateway) → Marked type false g g' → Told type ready g (g', none)
    absent-Told g g' m = record {
      told = (λ h. ground (arith, m.validity, h), λ h. ground (arith, h.1));
      readiness = m.readiness;
      metadata = m.metadata;
    }

    pub present-Told :
        (g g' : Gateway) (a : A) → Marked type (ready a) g g' → Told type ready g (g', some a)
    present-Told g g' a m = record {
      told = (λ h. (a, refl, sym m.validity ∙ h), λ h. ground (arith, m.validity, h.1, h.2));
      readiness = m.readiness;
      metadata = m.metadata;
    }

    -- after another condition of the type
    pub Told-later :
        (valid : Bool) (g g' : Gateway) (r : Gateway × Option A)
        → Marked type valid g g'
        → Told type ready g' r
        → Told type ready g r
    Told-later valid g g' r m t = record {
      told = t.told;
      readiness = t.readiness ∙ m.readiness;
      metadata = t.metadata ∙ m.metadata;
    }

    pub unable-Told :
        (g : Gateway) (e : Err) → Answers (Told type ready g) (unable c {A = A} type g e)
    unfolding unable
    unable-Told g e =
        Answers-bind _ _
          (mark-Marked type condition_false unable_to_provision_reason (error_text e) g other)
          (λ g' m. Answers-pure (g', none) (absent-Told g g' m))

    pub created-Told :
        (g : Gateway) (r : Result (Unit {0}))
        → Answers (Told type ready g) (created c {A = A} type g r)
    unfolding created
    created-Told g (ok _) =
        Answers-bind _ _
          (mark-Marked type condition_false resource_created_or_updated_reason
            resource_created_message g other)
          (λ g' m. Answers-pure (g', none) (absent-Told g g' m))
    created-Told g (err e) = unable-Told g e
