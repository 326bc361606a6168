-- ===== src/Gateways/Owned/Accepted.antt =====
-- The data plane that the controller of gateways creates, as the other parts see it.
use gateway_operator.Prelude.{String, ◌≡◌, refl, true, List, All, any_of, ◌==◌, string_eq}
use gateway_operator.Prelude.Labels.{lookup, insert}
use gateway_operator.Errors.{ok}
use gateway_operator.Api.Resources.{Gateway, GatewayConfiguration, gateway_object}
use gateway_operator.Metadata.{
  entries, is_owned_by_ref_uid, set_owner_for_object, label_object_as_gateway_managed,
  gateway_operator_controlled_label, gateway_managed_label_value,
}
use gateway_operator.Validation.{validate, env_var_kong_database}
use gateway_operator.DataPlanes.Defaults.Valid.{
  defaults_validate, defaults_set_mode, order-DatabaseOff, IsOrderOfDefaults, DatabaseOff,
}
use gateway_operator.Validation.Laws.{OtherPrefixes}
use gateway_operator.Gateways.Classes.{set_dataplane_gateway_config_defaults, data_plane_options_of}
use gateway_operator.Gateways.Owned.{new_data_plane, some}
use gateway_operator.Gateways.Owned.Ownership.{new_data_plane-owned}
use gateway_operator.Client.{Client, Trace}

module _ (c : Client) where
  -- If no source of the configuration can hold the database mode, and every variable with the
  -- database's name in the configuration says "off", then the data plane that is created for a
  -- gateway, with the defaults of the operator in any order, sets the database mode, and only to
  -- "off"; and it is accepted by the validation, of the webhook and of the controller of data planes.
  -- The controller of gateways finds it again: it has the namespace and the label that are asked for,
  -- and is owned by the gateway.
  pub created_data_plane_lem :
      (order : List (String × String)) (g : Gateway) (config : GatewayConfiguration) (t : Trace)
      → IsOrderOfDefaults order
      → All DatabaseOff (data_plane_options_of config).env
      → OtherPrefixes c g.metadata.namespace (data_plane_options_of config).env_from
      → (validate c (new_data_plane g (set_dataplane_gateway_config_defaults order config)) t
          ≡ (ok tt, t))
        × (any_of
              (λ w. env_var_kong_database == w.name)
              (new_data_plane g (set_dataplane_gateway_config_defaults order config)).spec.env
            ≡ true)
        × All DatabaseOff
            (new_data_plane g (set_dataplane_gateway_config_defaults order config)).spec.env
        × ((new_data_plane g
              (set_dataplane_gateway_config_defaults order config)).metadata.namespace
            ≡ g.metadata.namespace)
        × (lookup gateway_operator_controlled_label (
              entries
                (new_data_plane g
                  (set_dataplane_gateway_config_defaults order config)).metadata.labels)
            ≡ some gateway_managed_label_value)
        × (is_owned_by_ref_uid
              (new_data_plane g (set_dataplane_gateway_config_defaults order config)).metadata
              g.metadata.uid
            ≡ true)
  unfolding new_data_plane set_dataplane_gateway_config_defaults validate set_owner_for_object
      label_object_as_gateway_managed insert lookup
  created_data_plane_lem order g config t is set others = (
    defaults_validate c g.metadata.namespace order (data_plane_options_of config) t
        (order-DatabaseOff order is) set others,
    (defaults_set_mode order (data_plane_options_of config) is set).0,
    (defaults_set_mode order (data_plane_options_of config) is set).1,
    refl,
    refl,
    new_data_plane-owned g (set_dataplane_gateway_config_defaults order config),
  )
