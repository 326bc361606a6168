-- ===== src/DataPlanes/Defaults/Tests.antt =====
-- The defaults at concrete options.
use gateway_operator.Prelude.{◌≡◌, refl, [], ◌∷◌}
use gateway_operator.Api.Resources.{DeploymentOptions, empty_options}
use gateway_operator.DataPlanes.Defaults.{
  is_env_var_present, set_data_plane_defaults, kong_defaults,
}
use gateway_operator.DataPlanes.Defaults.Kept.{count, set_defaults-count}
use gateway_operator.Samples.{literal}

abbrev own_plugins : DeploymentOptions
own_plugins = record empty_options { env = literal "KONG_PLUGINS" "mine" ∷ [] }

set_defaults-count_example :
    count (literal "KONG_PLUGINS" "mine") (set_data_plane_defaults kong_defaults own_plugins).env
    ≡ count (literal "KONG_PLUGINS" "mine") own_plugins.env
unfolding is_env_var_present
set_defaults-count_example =
    set_defaults-count kong_defaults own_plugins (literal "KONG_PLUGINS" "mine") refl
