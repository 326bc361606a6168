-- ===== src/Api/Workloads.antt =====
-- The Kubernetes objects that the operator creates and reads, with the fields that it uses.
use gateway_operator.Prelude.{ℕ, String, Bool, Option, List}
use gateway_operator.Api.Meta.{ObjectMeta}
use gateway_operator.Api.Env.{EnvVar, EnvFromSource}

pub record ContainerPort : Type 0 where
  pub name : String
  pub container_port : ℕ
  pub protocol : String

pub record VolumeMount : Type 0 where
  pub name : String
  pub read_only : Bool
  pub mount_path : String

pub record Probe : Type 0 where
  pub failure_threshold : ℕ
  pub initial_delay_seconds : ℕ
  pub period_seconds : ℕ
  pub success_threshold : ℕ
  pub timeout_seconds : ℕ
  pub path : String
  pub port : ℕ
  pub scheme : String

pub record Container : Type 0 where
  pub name : String
  pub env : List EnvVar
  pub env_from : List EnvFromSource
  pub image : String
  pub image_pull_policy : String
  pub volume_mounts : List VolumeMount
  pub pre_stop : List String
  pub ports : List ContainerPort
  pub liveness_probe : Option Probe
  pub readiness_probe : Option Probe

-- A volume that shows the keys of a Secret as files: pairs of key and path.
pub record SecretVolume : Type 0 where
  pub name : String
  pub secret_name : String
  pub items : List (String × String)

pub record PodSpec : Type 0 where
  pub service_account_name : String
  pub volumes : List SecretVolume
  pub containers : List Container

pub record Deployment : Type 0 where
  pub metadata : ObjectMeta
  pub replicas : Option ℕ
  pub selector : List (String × String)
  pub template_labels : List (String × String)
  pub template : PodSpec
  pub status_replicas : ℕ
  pub available_replicas : ℕ

-- A target port that is not given is `none`.
pub record ServicePort : Type 0 where
  pub name : String
  pub protocol : String
  pub port : ℕ
  pub target_port : Option ℕ

-- `ingress_ips` are those of the load balancer in the status.
pub record Service : Type 0 where
  pub metadata : ObjectMeta
  pub type : String
  pub selector : List (String × String)
  pub ports : List ServicePort
  pub cluster_ip : String
  pub ingress_ips : List String

-- A nil `data` is `none`. Bytes are texts.
pub record Secret : Type 0 where
  pub metadata : ObjectMeta
  pub type : String
  pub contents : Option (List (String × String))
  pub string_data : List (String × String)

pub record ConfigMap : Type 0 where
  pub metadata : ObjectMeta
  pub contents : Option (List (String × String))

pub record ServiceAccount : Type 0 where
  pub metadata : ObjectMeta

pub record PolicyRule : Type 0 where
  pub api_groups : List String
  pub resources : List String
  pub verbs : List String

pub record ClusterRole : Type 0 where
  pub metadata : ObjectMeta
  pub rules : List PolicyRule

pub record Subject : Type 0 where
  pub kind : String
  pub name : String
  pub namespace : String

pub record RoleRef : Type 0 where
  pub api_group : String
  pub kind : String
  pub name : String

pub record ClusterRoleBinding : Type 0 where
  pub metadata : ObjectMeta
  pub role_ref : RoleRef
  pub subjects : List Subject

-- A peer by the labels of its pod and of its namespace.
pub record NetworkPolicyPeer : Type 0 where
  pub pod_selector : List (String × String)
  pub namespace_selector : List (String × String)

-- The ports are pairs of a protocol and a number.
pub record NetworkPolicyIngressRule : Type 0 where
  pub ports : List (String × ℕ)
  pub from : List NetworkPolicyPeer

pub record NetworkPolicy : Type 0 where
  pub metadata : ObjectMeta
  pub pod_selector : List (String × String)
  pub policy_types : List String
  pub ingress : List NetworkPolicyIngressRule
