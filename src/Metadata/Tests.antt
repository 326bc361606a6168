-- ===== src/Metadata/Tests.antt =====
-- Metadata of a control plane and of what it owns, at concrete values.
use gateway_operator.Prelude.{String, ◌≡◌, refl, true, false, some, List, [], ◌∷◌, string_eq}
use gateway_operator.Api.Meta.{ObjectMeta, empty_meta}
use gateway_operator.Api.Resources.{control_plane_object}
use gateway_operator.Errors.{ok}
use gateway_operator.Metadata.{ensure_finalizers_in_metadata, ensure_object_meta_is_updated}
use gateway_operator.Metadata.Updates.{IsUpToDate, updated-IsUpToDate}
use gateway_operator.Prelude.Labels.{contained, insert, insert_all, lookup, same_entries}

abbrev cleanup : List String
cleanup = "cleanup-clusterrole" ∷ "cleanup-clusterrolebinding" ∷ []

abbrev bare : ObjectMeta
bare = record empty_meta { name = "cp"; uid = "u1"; finalizers = "keep" ∷ [] }

abbrev finalized : ObjectMeta
finalized = record bare { finalizers = "keep" ∷ cleanup }

ensured : ensure_finalizers_in_metadata bare cleanup ≡ (finalized, true)
unfolding ensure_finalizers_in_metadata
ensured = refl

abbrev existing : ObjectMeta
existing = record empty_meta { name = "secret"; labels = some (("a", "1") ∷ []) }

abbrev generated : ObjectMeta
generated = record empty_meta {
  labels = some (("konghq.com/gateway-operator", "controlplane") ∷ []);
}

abbrev updated : ObjectMeta
updated = record existing {
  labels = some (("a", "1") ∷ ("konghq.com/gateway-operator", "controlplane") ∷ []);
}

update_runs : ensure_object_meta_is_updated existing generated ≡ ok (true, updated)
unfolding ensure_object_meta_is_updated same_entries insert_all insert
update_runs = refl

update_rests : ensure_object_meta_is_updated updated generated ≡ ok (false, updated)
unfolding ensure_object_meta_is_updated same_entries insert_all insert contained lookup
update_rests = refl

updated-IsUpToDate_example : IsUpToDate updated generated
unfolding lookup
updated-IsUpToDate_example = updated-IsUpToDate existing generated (refl, tt) (refl, tt) update_runs
