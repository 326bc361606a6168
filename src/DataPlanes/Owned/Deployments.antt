-- ===== src/DataPlanes/Owned/Deployments.antt =====
-- What the controller makes of the containers of an existing Deployment.
use gateway_operator.Prelude.{
  String, ◌≡◌, refl, true, false, none, some, List, [], ◌∷◌, ◌==◌, string_eq, list_eq, arith,
  eq_iff, list_beq_iff, find_if, Option-cases, inl, inr,
}
use gateway_operator.Api.Env.{env_var_eq, env_from_source_eq}
use gateway_operator.Api.Resources.{DataPlane}
use gateway_operator.Api.Workloads.{Container, PodSpec}
use gateway_operator.DataPlanes.Generators.{
  data_plane_proxy_container_name, get_pod_container_by_name, with_container, proxy_container,
  generate_new_deployment_for_data_plane,
}
use gateway_operator.DataPlanes.Owned.{
  with_proxy, refreshed_containers, env_differs, generated_deployment,
}

-- The proxy among the containers has the environment of the data plane.
pub record RunsOptions (d : DataPlane) (cs : List Container) : Type 0 where
  pub proxy : Container
  pub found : find_if (λ c. c.name == data_plane_proxy_container_name) cs ≡ some proxy
  pub same_env : proxy.env ≡ d.spec.env
  pub same_env_from : proxy.env_from ≡ d.spec.env_from

pub find-with_container :
    (name : String) (f : Container → Container) (cs : List Container) (proxy : Container)
    → ((c : Container) → (f c).name ≡ c.name)
    → find_if (λ c. c.name == name) cs ≡ some proxy
    → find_if (λ c. c.name == name) (with_container name f cs) ≡ some (f proxy)
unfolding with_container
find-with_container name f [] proxy keeps h = ground (arith, h)
find-with_container name f (c ∷ cs) proxy keeps h =
    ground (arith, find-with_container name f cs proxy keeps, keeps c, eq_iff c.name name, h)

abbrev with_options : DataPlane → Container → Container
with_options d c = record c { env = d.spec.env; env_from = d.spec.env_from }

with_options-RunsOptions :
    (d : DataPlane) (cs : List Container) (proxy : Container)
    → find_if (λ c. c.name == data_plane_proxy_container_name) cs ≡ some proxy
    → RunsOptions d (with_container data_plane_proxy_container_name (with_options d) cs)
with_options-RunsOptions d cs proxy h = record {
  proxy = with_options d proxy;
  found =
      find-with_container data_plane_proxy_container_name (with_options d) cs proxy (λ c. refl) h;
  same_env = refl;
  same_env_from = refl;
}

with_proxy_absent :
    (generated : List Container) (pod : PodSpec)
    → find_if (λ c. c.name == data_plane_proxy_container_name) pod.containers ≡ none
    → with_proxy generated pod ≡ (generated, true)
unfolding with_proxy get_pod_container_by_name
with_proxy_absent generated pod h = ground (arith, h)

with_proxy_present :
    (generated : List Container) (pod : PodSpec) (proxy : Container)
    → find_if (λ c. c.name == data_plane_proxy_container_name) pod.containers ≡ some proxy
    → with_proxy generated pod ≡ (pod.containers, false)
unfolding with_proxy get_pod_container_by_name
with_proxy_present generated pod proxy h = ground (arith, h)

-- If the generated containers have a proxy, then the refreshed ones have one with the environment
-- of the data plane, whatever containers the existing pod has.
pub refreshed_containers-RunsOptions :
    (d : DataPlane) (generated : List Container) (pod : PodSpec) (proxy : Container)
    → find_if (λ c. c.name == data_plane_proxy_container_name) generated ≡ some proxy
    → RunsOptions d (refreshed_containers d generated pod).0
unfolding refreshed_containers
refreshed_containers-RunsOptions d generated pod proxy h =
    elim (Option-cases (find_if (λ c. c.name == data_plane_proxy_container_name) pod.containers)) [
      | inl absent ↦
          rw (with_proxy_absent generated pod absent) (with_options-RunsOptions d generated proxy h)
      | inr present ↦
          rw (with_proxy_present generated pod present.0 present.1)
            (with_options-RunsOptions d pod.containers present.0 present.1)
    ]

with_container_same :
    (d : DataPlane) (name : String) (cs : List Container)
    → env_differs d (find_if (λ c. c.name == name) cs) ≡ false
    → with_container name (with_options d) cs ≡ cs
unfolding with_container
with_container_same d name [] h = refl
with_container_same d name (c ∷ cs) h = ground (
  arith,
  with_container_same d name cs,
  list_beq_iff c.env d.spec.env,
  list_beq_iff c.env_from d.spec.env_from,
  h,
)

-- The generated containers are the proxy.
pub generated_proxy :
    (d : DataPlane) (secret_name : String)
    → find_if
        (λ c. c.name == data_plane_proxy_container_name)
        (generated_deployment d secret_name).template.containers
      ≡ some (proxy_container d)
unfolding generated_deployment generate_new_deployment_for_data_plane proxy_container
generated_proxy d secret_name = refl

-- If the refresh reports no change of the containers, they are those of the existing pod.
refreshed_containers_unchanged :
    (d : DataPlane) (generated : List Container) (pod : PodSpec)
    → (refreshed_containers d generated pod).1 ≡ false
    → (refreshed_containers d generated pod).0 ≡ pod.containers
unfolding refreshed_containers with_proxy get_pod_container_by_name
refreshed_containers_unchanged d generated pod h =
    ground (arith, with_container_same d data_plane_proxy_container_name pod.containers, h)
