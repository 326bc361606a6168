-- ===== src/Gateways/Watch/Requests.antt =====
-- Which gateways are reconciled after a change of a configuration.
use gateway_operator.Prelude.{
  ◌==◌, ◌&&◌, Option, none, some, String, ◌≡◌, ◌↔◌, inl, inr, refl, ap, ◌∙◌, Bool, true, List, [],
  ◌∷◌, arith, any_of, filter_if, map, eq_iff, string_eq, Bool-cases, ◌&&◌,
}
use gateway_operator.Errors.{ok}
use gateway_operator.Api.Meta.{NamespacedName}
use gateway_operator.Api.Resources.{
  Gateway, GatewayClass, GatewayConfiguration, ParametersReference, scheme_group,
}
use gateway_operator.Lists.Laws.{Has, filter_if-Has}
use gateway_operator.Gateways.Watch.{
  request_for, names_configuration, has_class, has_class_of, list_gateways_for_gateway_config,
  list_gateways_of_classes, refers_to_configuration,
}
use gateway_operator.Client.{Client, Call, Trace, pure, attempt, request, continue, ◌>>=◌}

map-Has :
    {A B : Type 0} (f : A → B) (b : B) (xs : List A)
    → Has b (map f xs) ↔ ((x : A) × Has x xs × (b ≡ f x))
map-Has f b [] = (λ h. absurd h, λ h. absurd h.1)
map-Has f b (x ∷ xs) = (
  λ h. elim h [
    | inl e ↦ (x, inl refl, e)
    | inr rest ↦ let (y, m, e) = (map-Has f b xs).0 rest in (y, inr m, e)
  ],
  λ (y, m, e). elim m [
    | inl same ↦ inl (e ∙ ap f same)
    | inr rest ↦ inr ((map-Has f b xs).1 (y, rest, e))
  ],
)

any_of-Has :
    {A : Type 0} (p : A → Bool) (xs : List A)
    → (any_of p xs ≡ true) ↔ ((x : A) × Has x xs × (p x ≡ true))
any_of-Has p [] = (λ h. ground (arith, h), λ h. absurd h.1)
any_of-Has p (x ∷ xs) = (
  λ h. elim (Bool-cases (p x)) [
    | inl here ↦ (x, inl refl, here)
    | inr there ↦ let (y, m, e) = (any_of-Has p xs).0 (ground (arith, h, there)) in (y, inr m, e)
  ],
  λ (y, m, e). elim m [
    | inl same ↦ ground (arith, ap p same, e)
    | inr rest ↦ ground (arith, (any_of-Has p xs).1 (y, rest, e))
  ],
)

-- The class refers to a GatewayConfiguration of the name.
pub record RefersTo (name : String) (k : GatewayClass) : Type 0 where
  pub reference : ParametersReference
  pub found : k.parameters_ref ≡ some reference
  pub group : reference.group ≡ scheme_group
  pub kind : reference.kind ≡ "GatewayConfiguration"
  pub named : reference.name ≡ name

decided :
    (name : String) (ref : ParametersReference)
    → (ref.group ≡ scheme_group) × (ref.kind ≡ "GatewayConfiguration") × (ref.name ≡ name)
    → (refers_to_configuration ref && ref.name == name) ≡ true
decided name ref (group, kind, named) = ground (
  arith,
  group,
  kind,
  named,
  eq_iff ref.group scheme_group,
  eq_iff ref.kind "GatewayConfiguration",
  eq_iff ref.name name,
)

names_configuration_iff :
    (name : String) (k : GatewayClass) → (names_configuration name k ≡ true) ↔ RefersTo name k
names_configuration_iff name k = by_reference k.parameters_ref refl
  where
    by_reference :
        (ref : Option ParametersReference)
        → k.parameters_ref ≡ ref
        → (names_configuration name k ≡ true) ↔ RefersTo name k
    by_reference none e = rw e ((λ h. ground (arith, h)), (λ r. ground (arith, r.found, e)))
    by_reference (some ref) e = rw e (
      (λ h. record {
        reference = ref;
        found = refl;
        group = ground (arith, h, eq_iff ref.group scheme_group);
        kind = ground (arith, h, eq_iff ref.kind "GatewayConfiguration");
        named = ground (arith, h, eq_iff ref.name name);
      }),
      (λ r. cc (decided name r.reference (r.group, r.kind, r.named), r.found)),
    )

-- The gateways whose class is among those that refer to a configuration.
chosen_iff :
    (name : String) (ks : List GatewayClass) (gs : List Gateway) (r : NamespacedName)
    → Has r
        (map request_for (filter_if (has_class_of (filter_if (names_configuration name) ks)) gs))
      ↔ ((g : Gateway) × (k : GatewayClass) × Has g gs
          × Has k ks
          × (r ≡ request_for g)
          × (g.gateway_class_name ≡ k.metadata.name)
          × RefersTo name k)
chosen_iff name ks gs r = (
  λ h.
      let (g, m, e) = (map-Has request_for r (filter_if (has_class_of classes) gs)).0 h in
      let found = (filter_if-Has (has_class_of classes) g gs).0 m in
      let (k, listed, same) = (any_of-Has (λ k. has_class k.metadata.name g) classes).0 found.1 in
      let referring = (filter_if-Has (names_configuration name) k ks).0 listed in
      (
        g,
        k,
        found.0,
        referring.0,
        e,
        (eq_iff g.gateway_class_name k.metadata.name).0 same,
        (names_configuration_iff name k).0 referring.1,
      ),
  λ (g, k, in_gs, in_ks, e, same, refers).
      (map-Has request_for r (filter_if (has_class_of classes) gs)).1 (
        g,
        (filter_if-Has (has_class_of classes) g gs).1 (
          in_gs,
          (any_of-Has (λ k. has_class k.metadata.name g) classes).1 (
            k,
            (filter_if-Has (names_configuration name) k ks).1
                (in_ks, (names_configuration_iff name k).1 refers),
            (eq_iff g.gateway_class_name k.metadata.name).1 same,
          ),
        ),
        e,
      ),
)
  where
    classes : List GatewayClass
    classes = filter_if (names_configuration name) ks

module _ (c : Client) (controller_name : String) where
  -- If the server lists the classes and then the gateways, the requests after a change of a
  -- configuration are exactly those for the gateways in the list whose class is in the list and
  -- refers to a configuration of that name, in whatever namespace.
  pub requests_iff :
      (config : GatewayConfiguration) (ks : List GatewayClass) (gs : List Gateway) (t : Trace)
      (r : NamespacedName)
      → c.all_gateway_classes (Call.list_all_gateway_classes ∷ t) ≡ ok ks
      → c.all_gateways (Call.list_all_gateways ∷ Call.list_all_gateway_classes ∷ t) ≡ ok gs
      → (requests : List NamespacedName) × ((list_gateways_for_gateway_config c controller_name
            config t).0
          ≡ ok requests)
        × (Has r requests ↔ (
            (g : Gateway) × (k : GatewayClass) × Has g gs
            × Has k ks
            × (r ≡ request_for g)
            × (g.gateway_class_name ≡ k.metadata.name)
            × RefersTo config.metadata.name k))
  unfolding list_gateways_for_gateway_config ◌>>=◌ continue attempt request pure
  requests_iff config ks gs t r classes gateways = (
    map request_for
        (filter_if (has_class_of (filter_if (names_configuration config.metadata.name) ks)) gs),
    rw (classes, list_gateways_of_classes) (rw gateways refl),
    chosen_iff config.metadata.name ks gs r,
  )
