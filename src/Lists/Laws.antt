-- ===== src/Lists/Laws.antt =====
-- Which objects the list operations return.
use gateway_operator.Prelude.{
  String, ◌≡◌, ◌↔◌, ◌⊎◌, true, Bool, List, [], ◌∷◌, arith, filter_if, string_eq,
}
use gateway_operator.Api.Meta.{ObjectMeta}
use gateway_operator.Metadata.{is_owned_by_ref_uid}
use gateway_operator.Lists.{owned_items}

module _ {A : Type 0} where
  -- The list has the element.
  abbrev pub Has : A → List A → Type 0
  Has a [] = ⊥
  Has a (x ∷ xs) = (a ≡ x) ⊎ Has a xs

  pub filter_if-Has :
      (p : A → Bool) (a : A) (xs : List A) → Has a (filter_if p xs) ↔ (Has a xs × (p a ≡ true))
  filter_if-Has p a [] = ground arith
  filter_if-Has p a (x ∷ xs) = ground (arith, filter_if-Has p a xs)

  -- The objects returned for an owner are those of the server's answer that have an owner reference
  -- with its UID.
  owned_items_iff :
      (metadata : A → ObjectMeta) (uid : String) (a : A) (items : List A)
      → Has a (owned_items metadata uid items)
        ↔ (Has a items × (is_owned_by_ref_uid (metadata a) uid ≡ true))
  unfolding owned_items
  owned_items_iff metadata uid a items =
      filter_if-Has (λ b. is_owned_by_ref_uid (metadata b) uid) a items
