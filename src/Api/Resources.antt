-- ===== src/Api/Resources.antt =====
-- apis/v1alpha1: the operator's own resources, and what a Gateway and a GatewayClass show of
-- themselves to the operator.
use gateway_operator.Prelude.{String, refl, Option, none, List, []}
use gateway_operator.Api.Meta.{ObjectMeta, Condition, Object}
use gateway_operator.Api.Env.{EnvVar, EnvFromSource}

-- DeploymentOptions; DataPlaneDeploymentOptions adds nothing to it.
pub record DeploymentOptions : Type 0 where
  pub container_image : Option String
  pub version : Option String
  pub env : List EnvVar
  pub env_from : List EnvFromSource

abbrev pub empty_options : DeploymentOptions
empty_options = record { container_image = none; version = none; env = []; env_from = [] }

pub record DataPlane : Type 0 where
  pub metadata : ObjectMeta
  pub spec : DeploymentOptions
  pub conditions : List Condition
  pub service : String

pub record ControlPlaneOptions : Type 0 where
  pub deployment : DeploymentOptions
  pub open deployment use *
  pub data_plane : Option String

pub record ControlPlane : Type 0 where
  pub metadata : ObjectMeta
  pub spec : ControlPlaneOptions
  pub gateway_class : Option String
  pub ingress_class : Option String
  pub conditions : List Condition

pub record GatewayConfiguration : Type 0 where
  pub metadata : ObjectMeta
  pub data_plane_options : Option DeploymentOptions
  pub control_plane_options : Option ControlPlaneOptions
  pub conditions : List Condition

-- The Gateway of `gatewayDecorator`; of its addresses the values, all of type IPAddress.
pub record Gateway : Type 0 where
  pub metadata : ObjectMeta
  pub gateway_class_name : String
  pub conditions : List Condition
  pub addresses : List String

pub record ParametersReference : Type 0 where
  pub group : String
  pub kind : String
  pub name : String
  pub namespace : Option String

pub record GatewayClass : Type 0 where
  pub metadata : ObjectMeta
  pub controller_name : String
  pub parameters_ref : Option ParametersReference

abbrev pub scheme_group : String
scheme_group = "gateway-operator.konghq.com"

abbrev pub scheme_version : String
scheme_version = "v1alpha1"

instance abbrev pub data_plane_object : Object DataPlane
data_plane_object = record {
  get_meta = λ d. d.metadata;
  set_meta = λ m d. record d { metadata = m };
  get_kind = λ _. record { group = scheme_group; version = scheme_version; kind = "DataPlane" };
  get_meta-set_meta = λ m d. refl;
}

instance abbrev pub control_plane_object : Object ControlPlane
control_plane_object = record {
  get_meta = λ c. c.metadata;
  set_meta = λ m c. record c { metadata = m };
  get_kind = λ _. record { group = scheme_group; version = scheme_version; kind = "ControlPlane" };
  get_meta-set_meta = λ m c. refl;
}

instance abbrev pub gateway_object : Object Gateway
gateway_object = record {
  get_meta = λ g. g.metadata;
  set_meta = λ m g. record g { metadata = m };
  get_kind =
      λ _. record { group = "gateway.networking.k8s.io"; version = "v1alpha2"; kind = "Gateway" };
  get_meta-set_meta = λ m g. refl;
}
