-- ===== src/Gateways/Watch/Filters.antt =====
-- The filter on gateways drops nothing that a reconciliation would act on.
use gateway_operator.Prelude.{ℕ, String, ◌≡◌, refl, ap, Bool, true, false, arith}
use gateway_operator.Errors.{Result, ok, err}
use gateway_operator.Api.Resources.{Gateway, GatewayClass}
use gateway_operator.Status.{init_ready, gateway_conditions, set_condition}
use gateway_operator.Gateways.Classes.{verify_gateway_class_support}
use gateway_operator.Gateways.Reconciler.{reconcile_found, supported}
use gateway_operator.Gateways.Watch.{gateway_has_matching_gateway_class, passes, List}
use gateway_operator.Client.{Client, Trace, pure, read, attempt, continue, ◌>>=◌}

module _ (c : Client) (controller_name : String) (order : List (String × String)) where
  ignored :
      (g : Gateway) (r : Result GatewayClass)
      → passes r ≡ false
      → supported c controller_name order g r ≡ pure tt
  unfolding supported
  ignored g (ok k) h = ground (arith, h)
  ignored g (err e) h = ground (arith, h)

  -- the class of a gateway does not depend on its status
  class_of_initialised :
      (now : ℕ) (g : Gateway)
      → verify_gateway_class_support c controller_name (init_ready now g)
        ≡ verify_gateway_class_support c controller_name g
  unfolding verify_gateway_class_support init_ready set_condition
  class_of_initialised now g = refl

  answer : Result Bool → Bool
  answer (ok b) = b
  answer (err e) = true

  -- If the filter drops a gateway, then its reconciliation, after the same calls, makes the calls of
  -- the filter and no other, and ends without an error.
  pub dropped_is_ignored :
      (g : Gateway) (t u : Trace)
      → gateway_has_matching_gateway_class c controller_name g t ≡ (ok false, u)
      → reconcile_found c controller_name order g t ≡ (ok tt, u)
  unfolding gateway_has_matching_gateway_class reconcile_found ◌>>=◌ continue read attempt pure
      answer
  dropped_is_ignored g t u h =
      let dropped = ap (λ (x : Result Bool × Trace). answer x.0) h in
      rw
        (
          class_of_initialised (c.now t) g,
          ignored (init_ready (c.now t) g) (verify_gateway_class_support c controller_name g t).0
              dropped,
        )
        (ap (λ (x : Result Bool × Trace). (ok tt, x.1)) h)
