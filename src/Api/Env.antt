-- ===== src/Api/Env.antt =====
-- corev1.EnvVar and corev1.EnvFromSource, with `reflect.DeepEqual` on them.
use gateway_operator.Prelude.{
  String, ◌≡◌, Bool, ◌&&◌, Option, arith, Eq, ◌==◌, ◌↔◌, string_eq, bool_eq, option_eq, eq_iff,
  option_beq_iff, true,
}

-- The reference to a field of the pod.
pub record ObjectFieldSelector : Type 0 where
  pub api_version : String
  pub field_path : String

abbrev pub object_field_selector_beq : ObjectFieldSelector → ObjectFieldSelector → Bool
object_field_selector_beq a b = a.api_version == b.api_version && a.field_path == b.field_path

pub object_field_selector_beq_iff :
    (a b : ObjectFieldSelector) → (object_field_selector_beq a b ≡ true) ↔ (a ≡ b)
object_field_selector_beq_iff a b =
    ground (arith, eq_iff a.api_version b.api_version, eq_iff a.field_path b.field_path)

instance abbrev pub object_field_selector_eq : Eq ObjectFieldSelector
object_field_selector_eq = record {
  beq = object_field_selector_beq;
  beq_iff = object_field_selector_beq_iff;
}

-- The reference to a resource of a container.
pub record ResourceFieldSelector : Type 0 where
  pub container_name : String
  pub resource : String
  pub divisor : String

abbrev pub resource_field_selector_beq : ResourceFieldSelector → ResourceFieldSelector → Bool
resource_field_selector_beq a b =
    a.container_name == b.container_name && a.resource == b.resource && a.divisor == b.divisor

pub resource_field_selector_beq_iff :
    (a b : ResourceFieldSelector) → (resource_field_selector_beq a b ≡ true) ↔ (a ≡ b)
resource_field_selector_beq_iff a b = ground (
  arith,
  eq_iff a.container_name b.container_name,
  eq_iff a.resource b.resource,
  eq_iff a.divisor b.divisor,
)

instance abbrev pub resource_field_selector_eq : Eq ResourceFieldSelector
resource_field_selector_eq = record {
  beq = resource_field_selector_beq;
  beq_iff = resource_field_selector_beq_iff;
}

-- The reference to a key of a ConfigMap or of a Secret.
pub record KeySelector : Type 0 where
  pub name : String
  pub key : String
  pub optional : Option Bool

abbrev pub key_selector_beq : KeySelector → KeySelector → Bool
key_selector_beq a b = a.name == b.name && a.key == b.key && a.optional == b.optional

pub key_selector_beq_iff : (a b : KeySelector) → (key_selector_beq a b ≡ true) ↔ (a ≡ b)
key_selector_beq_iff a b =
    ground (arith, eq_iff a.name b.name, eq_iff a.key b.key, option_beq_iff a.optional b.optional)

instance abbrev pub key_selector_eq : Eq KeySelector
key_selector_eq = record { beq = key_selector_beq; beq_iff = key_selector_beq_iff }

pub record EnvVarSource : Type 0 where
  pub field_ref : Option ObjectFieldSelector
  pub resource_field_ref : Option ResourceFieldSelector
  pub config_map_key_ref : Option KeySelector
  pub secret_key_ref : Option KeySelector

abbrev pub env_var_source_beq : EnvVarSource → EnvVarSource → Bool
env_var_source_beq a b =
    a.field_ref == b.field_ref
    && a.resource_field_ref == b.resource_field_ref
    && a.config_map_key_ref == b.config_map_key_ref
    && a.secret_key_ref == b.secret_key_ref

pub env_var_source_beq_iff : (a b : EnvVarSource) → (env_var_source_beq a b ≡ true) ↔ (a ≡ b)
env_var_source_beq_iff a b = ground (
  arith,
  option_beq_iff a.field_ref b.field_ref,
  option_beq_iff a.resource_field_ref b.resource_field_ref,
  option_beq_iff a.config_map_key_ref b.config_map_key_ref,
  option_beq_iff a.secret_key_ref b.secret_key_ref,
)

instance abbrev pub env_var_source_eq : Eq EnvVarSource
env_var_source_eq = record { beq = env_var_source_beq; beq_iff = env_var_source_beq_iff }

pub record EnvVar : Type 0 where
  pub name : String
  pub value : String
  pub value_from : Option EnvVarSource

abbrev pub env_var_beq : EnvVar → EnvVar → Bool
env_var_beq a b = a.name == b.name && a.value == b.value && a.value_from == b.value_from

pub env_var_beq_iff : (a b : EnvVar) → (env_var_beq a b ≡ true) ↔ (a ≡ b)
env_var_beq_iff a b =
    ground (
      arith,
      eq_iff a.name b.name,
      eq_iff a.value b.value,
      option_beq_iff a.value_from b.value_from,
    )

instance abbrev pub env_var_eq : Eq EnvVar
env_var_eq = record { beq = env_var_beq; beq_iff = env_var_beq_iff }

-- The reference to a whole ConfigMap or Secret.
pub record EnvSource : Type 0 where
  pub name : String
  pub optional : Option Bool

abbrev pub env_source_beq : EnvSource → EnvSource → Bool
env_source_beq a b = a.name == b.name && a.optional == b.optional

pub env_source_beq_iff : (a b : EnvSource) → (env_source_beq a b ≡ true) ↔ (a ≡ b)
env_source_beq_iff a b = ground (arith, eq_iff a.name b.name, option_beq_iff a.optional b.optional)

instance abbrev pub env_source_eq : Eq EnvSource
env_source_eq = record { beq = env_source_beq; beq_iff = env_source_beq_iff }

pub record EnvFromSource : Type 0 where
  pub prefix : String
  pub config_map_ref : Option EnvSource
  pub secret_ref : Option EnvSource

abbrev pub env_from_source_beq : EnvFromSource → EnvFromSource → Bool
env_from_source_beq a b =
    a.prefix == b.prefix && a.config_map_ref == b.config_map_ref && a.secret_ref == b.secret_ref

pub env_from_source_beq_iff : (a b : EnvFromSource) → (env_from_source_beq a b ≡ true) ↔ (a ≡ b)
env_from_source_beq_iff a b = ground (
  arith,
  eq_iff a.prefix b.prefix,
  option_beq_iff a.config_map_ref b.config_map_ref,
  option_beq_iff a.secret_ref b.secret_ref,
)

instance abbrev pub env_from_source_eq : Eq EnvFromSource
env_from_source_eq = record { beq = env_from_source_beq; beq_iff = env_from_source_beq_iff }
