-- ===== src/Api/Meta.antt =====
-- Object metadata, owner references, status conditions, and the interface `client.Object`.
use gateway_operator.Prelude.{
  ℕ, String, ◌≡◌, Bool, ◌&&◌, Option, List, arith, Eq, ◌==◌, ◌↔◌, string_eq, bool_eq, option_eq,
  eq_iff, option_beq_iff, none, true, [],
}

pub record NamespacedName : Type 0 where
  pub namespace : String
  pub name : String

pub record OwnerReference : Type 0 where
  pub api_version : String
  pub kind : String
  pub name : String
  pub uid : String
  pub controller : Option Bool
  pub block_owner_deletion : Option Bool

abbrev pub owner_reference_beq : OwnerReference → OwnerReference → Bool
owner_reference_beq a b =
    a.api_version == b.api_version
    && a.kind == b.kind
    && a.name == b.name
    && a.uid == b.uid
    && a.controller == b.controller
    && a.block_owner_deletion == b.block_owner_deletion

pub owner_reference_beq_iff : (a b : OwnerReference) → (owner_reference_beq a b ≡ true) ↔ (a ≡ b)
owner_reference_beq_iff a b = ground (
  arith,
  eq_iff a.api_version b.api_version,
  eq_iff a.kind b.kind,
  eq_iff a.name b.name,
  eq_iff a.uid b.uid,
  option_beq_iff a.controller b.controller,
  option_beq_iff a.block_owner_deletion b.block_owner_deletion,
)

instance abbrev pub owner_reference_eq : Eq OwnerReference
owner_reference_eq = record { beq = owner_reference_beq; beq_iff = owner_reference_beq_iff }

-- metav1.ObjectMeta. `deletion_timestamp` is in the unit of the clock.
pub record ObjectMeta : Type 0 where
  pub name : String
  pub generate_name : String
  pub namespace : String
  pub uid : String
  pub labels : Option (List (String × String))
  pub owner_references : List OwnerReference
  pub finalizers : List String
  pub generation : ℕ
  pub deletion_timestamp : Option ℕ

-- The zero value of metav1.ObjectMeta.
abbrev pub empty_meta : ObjectMeta
empty_meta = record {
  name = "";
  generate_name = "";
  namespace = "";
  uid = "";
  labels = none;
  owner_references = [];
  finalizers = [];
  generation = 0;
  deletion_timestamp = none;
}

pub record GroupVersionKind : Type 0 where
  pub group : String
  pub version : String
  pub kind : String

-- metav1.Condition. Status, type and reason are strings in Go too.
pub record Condition : Type 0 where
  pub type : String
  pub status : String
  pub reason : String
  pub message : String
  pub observed_generation : ℕ
  pub last_transition_time : ℕ

-- client.Object, as far as the operator uses it: the metadata, read and written, and the kind.
pub record Object (A : Type 0) : Type 0 where
  pub get_meta : A → ObjectMeta
  pub set_meta : ObjectMeta → A → A
  pub get_kind : A → GroupVersionKind
  pub get_meta-set_meta : (m : ObjectMeta) (a : A) → get_meta (set_meta m a) ≡ m
