-- ===== src/Metadata.antt =====
-- internal/utils/kubernetes/{metadata.go,ownerrefs.go} and internal/utils/gateway/labels.go:
-- finalizers, owner references and labels in the metadata of an object.
pub mod Finalizers
pub mod Owners
pub mod Updates
mod Tests
use gateway_operator.Prelude.{
  String, ◌<>◌, Bool, true, false, not, ◌||◌, Option, none, some, List, [], ◌∷◌, ◌++◌, ◌==◌,
  string_eq, list_eq, any_of, filter_if, if◌then◌else◌,
}
use gateway_operator.Prelude.Labels.{insert, insert_all, same_entries}
use gateway_operator.Api.Meta.{ObjectMeta, OwnerReference, owner_reference_eq, Object}
use gateway_operator.Errors.{Result, ok, err, panic, ◌>>=◌}

-- The loop of EnsureFinalizersInMetadata: the finalizers, and whether one was added.
unfoldable pub add_finalizers : List String → List String → Bool → List String × Bool
add_finalizers [] have added = (have, added)
add_finalizers (f ∷ wanted) have added =
    let exists = any_of (λ g. g == f) have in
    add_finalizers wanted (if exists then have else have ++ f ∷ []) (added || not exists)

unfoldable pub ensure_finalizers_in_metadata : ObjectMeta → List String → ObjectMeta × Bool
unfolding add_finalizers
ensure_finalizers_in_metadata m wanted =
    let (fs, added) = add_finalizers wanted m.finalizers false in
    (record m { finalizers = fs }, added)

unfoldable pub remove_finalizer_in_metadata : ObjectMeta → String → ObjectMeta × Bool
remove_finalizer_in_metadata m f =
    let changed = any_of (λ g. g == f) m.finalizers in
    (
      if changed then record m { finalizers = filter_if (λ g. not (g == f)) m.finalizers } else m,
      changed,
    )

-- `for k, v := range generated { labels[k] = v }`, which faults on a nil map.
unfoldable pub write_labels :
    List (String × String)
    → Option (List (String × String))
    → Result (Option (List (String × String)))
write_labels [] have = ok have
write_labels ((k, v) ∷ new) none = err (panic "assignment to entry in nil map")
write_labels ((k, v) ∷ new) (some m) = ok (some (insert_all ((k, v) ∷ new) m))

-- reflect.DeepEqual of two label maps
unfoldable pub same_labels :
    Option (List (String × String)) → Option (List (String × String)) → Bool
same_labels none none = true
same_labels none (some b) = false
same_labels (some a) none = false
same_labels (some a) (some b) = same_entries a b

-- Ranging over a nil map is ranging over an empty one.
abbrev pub entries : Option (List (String × String)) → List (String × String)
entries none = []
entries (some m) = m

unfoldable pub ensure_object_meta_is_updated : ObjectMeta → ObjectMeta → Result (Bool × ObjectMeta)
unfolding write_labels same_labels
ensure_object_meta_is_updated existing generated = do
  labels ← write_labels (entries generated.labels) existing.labels
  let updated = record existing { owner_references = generated.owner_references; labels = labels }
  ok (
    not (existing.owner_references == generated.owner_references)
        || not (same_labels existing.labels labels),
    updated,
  )

unfoldable pub is_owned_by_ref_uid : ObjectMeta → String → Bool
is_owned_by_ref_uid m uid = any_of (λ ref. ref.uid == uid) m.owner_references

module _ {A : Type 0} ⦃o : Object A⦄ where
  unfoldable pub get_api_version_for_object : A → String
  get_api_version_for_object a = (o.get_kind a).group <> "/" <> (o.get_kind a).version

  unfoldable pub generate_owner_reference_for_object : A → OwnerReference
  unfolding get_api_version_for_object
  generate_owner_reference_for_object a = record {
    api_version = get_api_version_for_object a;
    kind = (o.get_kind a).kind;
    name = (o.get_meta a).name;
    uid = (o.get_meta a).uid;
    controller = some true;
    block_owner_deletion = none;
  }

  -- SetOwnerForObject, on the metadata of the owned object.
  unfoldable pub set_owner_for_object : ObjectMeta → A → ObjectMeta
  unfolding generate_owner_reference_for_object
  set_owner_for_object m owner =
      if any_of (λ ref. ref.uid == (o.get_meta owner).uid) m.owner_references then m else record m {
        owner_references = m.owner_references ++ generate_owner_reference_for_object owner ∷ [];
      }

-- The labels with which each controller marks what it manages.
abbrev pub gateway_operator_controlled_label : String
gateway_operator_controlled_label = "konghq.com/gateway-operator"

abbrev pub data_plane_managed_label_value : String
data_plane_managed_label_value = "dataplane"

abbrev pub control_plane_managed_label_value : String
control_plane_managed_label_value = "controlplane"

abbrev pub gateway_managed_label_value : String
gateway_managed_label_value = "gateway"

add_managed_label : String → ObjectMeta → ObjectMeta
add_managed_label value m = record m {
  labels = some (insert gateway_operator_controlled_label value (entries m.labels));
}

unfoldable pub label_object_as_gateway_managed : ObjectMeta → ObjectMeta
unfolding add_managed_label
label_object_as_gateway_managed = add_managed_label gateway_managed_label_value

unfoldable pub add_label_for_data_plane : ObjectMeta → ObjectMeta
unfolding add_managed_label
add_label_for_data_plane = add_managed_label data_plane_managed_label_value

unfoldable pub add_label_for_control_plane : ObjectMeta → ObjectMeta
unfolding add_managed_label
add_label_for_control_plane = add_managed_label control_plane_managed_label_value
