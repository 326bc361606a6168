-- ===== src/Client.antt =====
-- The API server, as controller-runtime's `client.Client` shows it, and the monad of the code that
-- calls it. The server is not part of the repository: it is the parameter `Client`, whose answers
-- may depend on all calls made before, and so on whatever else happens in the cluster. A read of
-- the clock is an answer too.
pub mod Calls
pub mod Keeps
pub mod Answers
pub mod Before
pub mod Monad
use gateway_operator.Prelude.{ℕ, String, Bool, Option, none, some, List, [], ◌∷◌}
use gateway_operator.Errors.{Err, Result, ok, err, wrapped}
use gateway_operator.Api.Meta.{NamespacedName}
use gateway_operator.Api.Env.{EnvSource}
use gateway_operator.Api.Resources.{
  DataPlane, ControlPlane, Gateway, GatewayClass, GatewayConfiguration,
}
use gateway_operator.Api.Workloads.{
  Deployment, Service, Secret, ConfigMap, ServiceAccount, ClusterRole, ClusterRoleBinding,
  NetworkPolicy,
}

-- client.InNamespace, if any, and client.MatchingLabels with one label.
pub record ListOptions : Type 0 where
  pub namespace : Option String
  pub label : String
  pub value : String

-- The calls that are recorded. `update_status_…` is `Status().Update`.
pub data Call : Type 0 where
  get_data_plane get_control_plane get_gateway get_gateway_config get_secret get_config_map :
      NamespacedName → Call
  get_gateway_class : String → Call
  list_deployments list_services list_secrets list_service_accounts : ListOptions → Call
  list_cluster_roles list_cluster_role_bindings list_network_policies : ListOptions → Call
  list_data_planes list_control_planes : ListOptions → Call
  list_all_control_planes list_all_gateways list_all_gateway_classes : Call
  create_deployment update_deployment : Deployment → Call
  create_service update_service : Service → Call
  create_secret update_secret : Secret → Call
  create_service_account update_service_account : ServiceAccount → Call
  create_cluster_role update_cluster_role delete_cluster_role : ClusterRole → Call
  create_cluster_role_binding update_cluster_role_binding delete_cluster_role_binding :
      ClusterRoleBinding → Call
  create_network_policy update_network_policy : NetworkPolicy → Call
  create_data_plane update_data_plane update_status_data_plane : DataPlane → Call
  create_control_plane update_control_plane update_status_control_plane : ControlPlane → Call
  update_status_gateway : Gateway → Call

-- The calls so far, the latest first.
abbrev pub Trace : Type 0
Trace = List Call

-- What the server and the clock answer after given calls, the call at hand included. A write
-- answers with an error, or with the object as the server has stored it, which Go writes into the
-- argument.
pub record Client : Type 0 where
  pub now : Trace → ℕ
  pub data_plane_at : Trace → NamespacedName → Result DataPlane
  pub control_plane_at : Trace → NamespacedName → Result ControlPlane
  pub gateway_at : Trace → NamespacedName → Result Gateway
  pub gateway_config_at : Trace → NamespacedName → Result GatewayConfiguration
  pub secret_at : Trace → NamespacedName → Result Secret
  pub config_map_at : Trace → NamespacedName → Result ConfigMap
  pub gateway_class_at : Trace → String → Result GatewayClass
  pub deployments : Trace → ListOptions → Result (List Deployment)
  pub services : Trace → ListOptions → Result (List Service)
  pub secrets : Trace → ListOptions → Result (List Secret)
  pub service_accounts : Trace → ListOptions → Result (List ServiceAccount)
  pub cluster_roles : Trace → ListOptions → Result (List ClusterRole)
  pub cluster_role_bindings : Trace → ListOptions → Result (List ClusterRoleBinding)
  pub network_policies : Trace → ListOptions → Result (List NetworkPolicy)
  pub data_planes : Trace → ListOptions → Result (List DataPlane)
  pub control_planes : Trace → ListOptions → Result (List ControlPlane)
  pub all_control_planes : Trace → Result (List ControlPlane)
  pub all_gateways : Trace → Result (List Gateway)
  pub all_gateway_classes : Trace → Result (List GatewayClass)
  pub wrote_deployment : Trace → Deployment → Result Deployment
  pub wrote_service : Trace → Service → Result Service
  pub wrote_secret : Trace → Secret → Result Secret
  pub wrote_service_account : Trace → ServiceAccount → Result ServiceAccount
  pub wrote_cluster_role : Trace → ClusterRole → Result ClusterRole
  pub wrote_cluster_role_binding : Trace → ClusterRoleBinding → Result ClusterRoleBinding
  pub wrote_data_plane : Trace → DataPlane → Result DataPlane
  pub wrote_control_plane : Trace → ControlPlane → Result ControlPlane
  pub wrote_gateway_status : Trace → Gateway → Result Gateway
  -- how the API type of a reference to a Secret prints itself
  pub secret_ref_text : EnvSource → String
  -- `none` is success, where the code does not look at the stored object
  pub failure : Trace → Call → Option Err

-- Code that calls the server: from the calls so far to an outcome and the calls after it.
abbrev pub M : Type 0 → Type 0
M A = Trace → Result A × Trace

module _ {A : Type 0} where
  unfoldable pub pure : A → M A
  pure a t = (ok a, t)

  unfoldable pub raise : Err → M A
  raise e t = (err e, t)

  unfoldable pub lift : Result A → M A
  lift r t = (r, t)

  -- Make a call, with the answer that it and the calls before it determine.
  unfoldable pub request : Call → (Trace → Result A) → M A
  request call answer t = (answer (call ∷ t), call ∷ t)

  -- Reading the clock leaves no call.
  unfoldable pub read : (Trace → A) → M A
  read f t = (ok (f t), t)

  -- What is drawn at random, or fails, outside of the server: it leaves no call either.
  unfoldable pub draw : (Trace → Result A) → M A
  draw f t = (f t, t)

  -- `x, err := m`: the error is a value.
  unfoldable pub attempt : M A → M (Result A)
  attempt m t = let (r, t') = m t in (ok r, t')

  -- `fmt.Errorf("…: %w", err)` around the error of a call
  unfoldable pub wrapping : String → M A → M A
  wrapping s m t = let (r, t') = m t in (wrap_error r, t')
    where
      wrap_error : Result A → Result A
      wrap_error (ok a) = ok a
      wrap_error (err e) = err (wrapped s e)

module _ {A B : Type 0} where
  unfoldable pub continue : Result A → (A → M B) → M B
  continue (ok a) f t = f a t
  continue (err e) f t = (err e, t)

  infixl 5 ◌>>=◌ ◌>>◌
  -- `if err != nil { return err }` after each step
  unfoldable pub ◌>>=◌ : M A → (A → M B) → M B
  unfolding continue
  ◌>>=◌ m f t = let (r, t') = m t in continue r f t'

  abbrev pub ◌>>◌ : M A → M B → M B
  m >> n = m >>= λ _. n

-- The error of a call whose answer is only whether it failed.
abbrev pub outcome : Option Err → Result (Unit {0})
outcome none = ok tt
outcome (some e) = err e
