-- ===== src/Metadata/Owners.antt =====
-- Owner references: internal/utils/kubernetes/ownerrefs.go.
use gateway_operator.Prelude.{
  String, ◌≡◌, refl, ◌||◌, [], ◌∷◌, ◌++◌, ◌==◌, string_eq, eq_iff, any_of-append, arith,
  if◌then◌else◌,
}
use gateway_operator.Api.Meta.{ObjectMeta, OwnerReference, Object}
use gateway_operator.Metadata.{
  is_owned_by_ref_uid, set_owner_for_object, generate_owner_reference_for_object,
}

abbrev with_owner : ObjectMeta → OwnerReference → ObjectMeta
with_owner m ref = record m { owner_references = m.owner_references ++ ref ∷ [] }

owned-with_owner :
    (m : ObjectMeta) (ref : OwnerReference) (uid : String)
    → is_owned_by_ref_uid (with_owner m ref) uid ≡ is_owned_by_ref_uid m uid || ref.uid == uid
unfolding is_owned_by_ref_uid
owned-with_owner m ref uid =
    ground
      (arith, any_of-append (λ (r : OwnerReference). r.uid == uid) m.owner_references (ref ∷ []))

module _ {A : Type 0} ⦃o : Object A⦄ where
  set_owner_cases :
      (m : ObjectMeta) (owner : A)
      → set_owner_for_object m owner ≡ (
          if is_owned_by_ref_uid m (o.get_meta owner).uid
          then m
          else with_owner m (generate_owner_reference_for_object owner))
  unfolding is_owned_by_ref_uid set_owner_for_object
  set_owner_cases m owner = refl

  uid-generate :
      (owner : A) → (generate_owner_reference_for_object owner).uid ≡ (o.get_meta owner).uid
  unfolding generate_owner_reference_for_object
  uid-generate owner = refl

  -- After SetOwnerForObject the object is owned by the owner, and by exactly the others that owned
  -- it before.
  pub owned-set_owner :
      (m : ObjectMeta) (owner : A) (uid : String)
      → is_owned_by_ref_uid (set_owner_for_object m owner) uid
        ≡ ((o.get_meta owner).uid == uid || is_owned_by_ref_uid m uid)
  owned-set_owner m owner uid = ground (
    arith,
    set_owner_cases m owner,
    uid-generate owner,
    owned-with_owner m (generate_owner_reference_for_object owner) uid,
    eq_iff (o.get_meta owner).uid uid,
  )
