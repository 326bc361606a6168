-- ===== src/Gateways/Owned/Ownership.antt =====
-- What is created for a gateway is owned by it.
use gateway_operator.Prelude.{String, ◌≡◌, ◌∙◌, true, arith, eq_iff, string_eq}
use gateway_operator.Api.Meta.{ObjectMeta}
use gateway_operator.Api.Resources.{
  DataPlane, ControlPlane, Gateway, GatewayClass, GatewayConfiguration, gateway_object,
}
use gateway_operator.Metadata.{
  is_owned_by_ref_uid, label_object_as_gateway_managed, set_owner_for_object,
}
use gateway_operator.Metadata.Owners.{owned-set_owner}
use gateway_operator.Gateways.Owned.{new_data_plane, new_control_plane, generated_network_policy}

-- An object with the gateway for its owner, and with the label.
owned-labelled :
    (m : ObjectMeta) (g : Gateway)
    → is_owned_by_ref_uid
        (label_object_as_gateway_managed (set_owner_for_object m g))
        g.metadata.uid
      ≡ true
unfolding label_object_as_gateway_managed is_owned_by_ref_uid
owned-labelled m g =
    owned-set_owner m g g.metadata.uid ∙ ground (arith, eq_iff g.metadata.uid g.metadata.uid)

pub new_data_plane-owned :
    (g : Gateway) (config : GatewayConfiguration)
    → is_owned_by_ref_uid (new_data_plane g config).metadata g.metadata.uid ≡ true
unfolding new_data_plane
new_data_plane-owned g config = search owned-labelled

pub new_control_plane-owned :
    (k : GatewayClass) (g : Gateway) (config : GatewayConfiguration) (name : String)
    → is_owned_by_ref_uid (new_control_plane k g config name).metadata g.metadata.uid ≡ true
unfolding new_control_plane
new_control_plane-owned k g config name = search owned-labelled

pub network_policy-owned :
    (g : Gateway) (d : DataPlane) (p : ControlPlane)
    → is_owned_by_ref_uid (generated_network_policy g d p).metadata g.metadata.uid ≡ true
unfolding generated_network_policy
network_policy-owned g d p = search owned-labelled
