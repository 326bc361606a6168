-- ===== src/Owners.antt =====
-- controllers/utils.go: what the kind of an owner decides about the objects it owns.
use gateway_operator.Prelude.{String, ◌≡◌, refl}
use gateway_operator.Api.Meta.{ObjectMeta, GroupVersionKind, Object}
use gateway_operator.Api.Resources.{
  DataPlane, ControlPlane, Gateway, data_plane_object, control_plane_object, gateway_object,
}
use gateway_operator.Metadata.{
  gateway_operator_controlled_label, data_plane_managed_label_value,
  control_plane_managed_label_value, add_label_for_data_plane, add_label_for_control_plane,
}

abbrev pub data_plane_prefix : String
data_plane_prefix = "dataplane"

abbrev pub control_plane_prefix : String
control_plane_prefix = "controlplane"

-- A client.Object, by its Go type.
pub data Owner : Type 0 where
  of_control_plane : ControlPlane → Owner
  of_data_plane : DataPlane → Owner
  of_gateway : Gateway → Owner

abbrev owner_meta : Owner → ObjectMeta
owner_meta (of_control_plane c) = c.metadata
owner_meta (of_data_plane d) = d.metadata
owner_meta (of_gateway g) = g.metadata

abbrev with_owner_meta : ObjectMeta → Owner → Owner
with_owner_meta m (of_control_plane c) = of_control_plane (record c { metadata = m })
with_owner_meta m (of_data_plane d) = of_data_plane (record d { metadata = m })
with_owner_meta m (of_gateway g) = of_gateway (record g { metadata = m })

abbrev owner_kind : Owner → GroupVersionKind
owner_kind (of_control_plane c) = control_plane_object.get_kind c
owner_kind (of_data_plane d) = data_plane_object.get_kind d
owner_kind (of_gateway g) = gateway_object.get_kind g

pub owner_meta-with_owner_meta : (m : ObjectMeta) (o : Owner) → owner_meta (with_owner_meta m o) ≡ m
owner_meta-with_owner_meta m (of_control_plane c) = refl
owner_meta-with_owner_meta m (of_data_plane d) = refl
owner_meta-with_owner_meta m (of_gateway g) = refl

instance abbrev pub owner_object : Object Owner
owner_object = record {
  get_meta = owner_meta;
  set_meta = with_owner_meta;
  get_kind = owner_kind;
  get_meta-set_meta = owner_meta-with_owner_meta;
}

unfoldable pub get_prefix_for_owner : Owner → String
get_prefix_for_owner (of_control_plane c) = control_plane_prefix
get_prefix_for_owner (of_data_plane d) = data_plane_prefix
get_prefix_for_owner (of_gateway g) = ""

unfoldable pub get_managed_label_for_owner : Owner → String × String
get_managed_label_for_owner (of_control_plane c) =
    (gateway_operator_controlled_label, control_plane_managed_label_value)
get_managed_label_for_owner (of_data_plane d) =
    (gateway_operator_controlled_label, data_plane_managed_label_value)
get_managed_label_for_owner (of_gateway g) = ("", "")

unfoldable pub add_label_for_owner : ObjectMeta → Owner → ObjectMeta
unfolding add_label_for_control_plane add_label_for_data_plane
add_label_for_owner m (of_control_plane c) = add_label_for_control_plane m
add_label_for_owner m (of_data_plane d) = add_label_for_data_plane m
add_label_for_owner m (of_gateway g) = m
