-- ===== src/Metadata/Updates.antt =====
-- EnsureObjectMetaIsUpdated of internal/utils/kubernetes/metadata.go, and the managed labels.
use mathlib.Core.Path.{subst}
use gateway_operator.Prelude.{
  nat_beq_iff, length, String, ◌≡◌, refl, Bool, true, false, Option, none, some, List, [], ◌∷◌,
  string_eq, list_eq, list_beq_iff, arith,
}
use gateway_operator.Prelude.Labels.{
  lookup, insert_all, IsMap, Within, insert_all-IsMap, insert_all-Within, Within-insert_all,
  same_entries, same_entries_refl, same_entries-Within, Within-of_same,
}
use gateway_operator.Api.Meta.{ObjectMeta, owner_reference_eq}
use gateway_operator.Errors.{ok}
use gateway_operator.Metadata.{entries, write_labels, same_labels, ensure_object_meta_is_updated}

-- The existing metadata has the owners and all labels of the generated one.
abbrev pub IsUpToDate : ObjectMeta → ObjectMeta → Type 0
IsUpToDate existing generated =
    (existing.owner_references ≡ generated.owner_references)
    × Within (entries generated.labels) (entries existing.labels)

same_labels_refl :
    (labels : Option (List (String × String)))
    → IsMap (entries labels)
    → same_labels labels labels ≡ true
unfolding same_labels
same_labels_refl none h = refl
same_labels_refl (some m) h = same_entries_refl m h

-- Nothing is written where all is there.
write_labels-Within :
    (new : List (String × String)) (labels : Option (List (String × String)))
    → Within new (entries labels)
    → write_labels new labels ≡ ok labels
unfolding write_labels lookup
write_labels-Within [] labels h = refl
write_labels-Within ((k, v) ∷ new) none h = cc (h.0)
write_labels-Within ((k, v) ∷ new) (some m) h = rw (insert_all-Within ((k, v) ∷ new) m h)

-- If the existing labels are a map, metadata that has the owners and the labels of the generated
-- one is reported as unchanged and left as it is.
updated_of_current :
    (existing generated : ObjectMeta)
    → IsMap (entries existing.labels)
    → IsUpToDate existing generated
    → ensure_object_meta_is_updated existing generated ≡ ok (false, existing)
unfolding ensure_object_meta_is_updated
updated_of_current existing generated h u =
    rw (write_labels-Within (entries generated.labels) existing.labels u.1) (
      ground (
        arith,
        same_labels_refl existing.labels h,
        list_beq_iff existing.owner_references generated.owner_references,
      ))

written_IsMap :
    (new : List (String × String)) (have : Option (List (String × String)))
    {labels : Option (List (String × String))}
    → IsMap (entries have)
    → write_labels new have ≡ ok labels
    → IsMap (entries labels)
unfolding write_labels
written_IsMap [] have {labels} h e = let same : have ≡ labels = ground arith in rw (← same) h
written_IsMap ((k, v) ∷ new) none h e = cc
written_IsMap ((k, v) ∷ new) (some m) {labels} h e =
    let same : some (insert_all ((k, v) ∷ new) m) ≡ labels = ground arith in
    rw (← same) (insert_all-IsMap ((k, v) ∷ new) m h)

written_Within :
    (new : List (String × String)) (have : Option (List (String × String)))
    {labels : Option (List (String × String))}
    → IsMap new
    → write_labels new have ≡ ok labels
    → Within new (entries labels)
unfolding write_labels
written_Within [] have n e = tt
written_Within ((k, v) ∷ new) none n e = cc
written_Within ((k, v) ∷ new) (some m) {labels} n e =
    let same : some (insert_all ((k, v) ∷ new) m) ≡ labels = ground arith in
    subst (λ (l : Option (List (String × String))). Within ((k, v) ∷ new) (entries l)) same
      (Within-insert_all ((k, v) ∷ new) m n)

-- Writes that leave the map as it was have written what was there.
written_same :
    (new : List (String × String)) (have : Option (List (String × String)))
    {labels : Option (List (String × String))}
    → IsMap new
    → write_labels new have ≡ ok labels
    → same_labels have labels ≡ true
    → Within new (entries have)
unfolding write_labels same_labels same_entries
written_same [] have n e s = tt
written_same ((k, v) ∷ new) none n e s = cc
written_same ((k, v) ∷ new) (some m) {labels = none} n e s = cc
written_same ((k, v) ∷ new) (some m) {labels = some l} n e s =
    let same : insert_all ((k, v) ∷ new) m ≡ l = ground arith in
    Within-of_same ((k, v) ∷ new) m n (rw same (ground (arith, nat_beq_iff (length m) (length l))))
      (rw same (same_entries-Within m l s))

module _ (existing generated : ObjectMeta) (labels_map : IsMap (entries existing.labels))
    (generated_map : IsMap (entries generated.labels)) {updated : Bool} {m : ObjectMeta}
    (done : ensure_object_meta_is_updated existing generated ≡ ok (updated, m)) where
  written : write_labels (entries generated.labels) existing.labels ≡ ok m.labels
  unfolding ensure_object_meta_is_updated
  written = ground arith

  -- If both label maps are maps and EnsureObjectMetaIsUpdated succeeds, the result has the owners
  -- and all labels of the generated metadata.
  pub updated-IsUpToDate : IsUpToDate m generated
  unfolding ensure_object_meta_is_updated
  updated-IsUpToDate = (
    ground arith,
    written_Within (entries generated.labels) existing.labels generated_map written,
  )

  -- If both label maps are maps and EnsureObjectMetaIsUpdated succeeds, then a second call on the
  -- result reports no change and makes none.
  updated_idem : ensure_object_meta_is_updated m generated ≡ ok (false, m)
  updated_idem =
      updated_of_current m generated
        (written_IsMap (entries generated.labels) existing.labels labels_map written)
        updated-IsUpToDate

  -- If both label maps are maps and EnsureObjectMetaIsUpdated reports no change, then the existing
  -- metadata is up to date and is the result.
  unchanged_of_reported : updated ≡ false → IsUpToDate existing generated × (m ≡ existing)
  unfolding ensure_object_meta_is_updated
  unchanged_of_reported quiet =
      let owners : existing.owner_references ≡ generated.owner_references =
        ground (arith, list_beq_iff existing.owner_references generated.owner_references, quiet) in
      let same : same_labels existing.labels m.labels ≡ true = ground arith in
      let within =
        written_same (entries generated.labels) existing.labels {labels = m.labels} generated_map
          written same in
      (
        (owners, within),
        ground (arith, updated_of_current existing generated labels_map (owners, within)),
      )
