-- ===== src/ControlPlanes/Owned/Scale.antt =====
-- The Deployments that are written for a control plane: their replicas and their environment.
use gateway_operator.Prelude.{
  ℕ, suc, zero, String, ◌≡◌, ◌↔◌, refl, Bool, true, false, Option, none, some, List, [], ◌==◌,
  if◌then◌else◌, string_eq, arith, find_if, Option-cases, inl, inr,
}
use gateway_operator.Api.Resources.{ControlPlane}
use gateway_operator.Api.Workloads.{Deployment, Container, PodSpec}
use gateway_operator.Lists.{list_deployments_for_owner}
use gateway_operator.DataPlanes.Generators.{get_pod_container_by_name}
use gateway_operator.DataPlanes.Owned.Deployments.{find-with_container}
use gateway_operator.ControlPlanes.Env.{data_plane_is_set}
use gateway_operator.ControlPlanes.Generators.{
  controller_container_name, controller_container, generate_new_deployment_for_control_plane,
}
use gateway_operator.Client.{Client, Call, Trace}
use gateway_operator.Client.Keeps.{Keeps, Extends-refl, History, keeps_rules}
use gateway_operator.ControlPlanes.Owned.{
  scaling, scaled_replicas, with_controller, with_spec, refreshed_deployment, controller_deployment,
  dormant_deployment, update_controller_deployment, ensure_deployment_for_control_plane,
}

-- The Deployment has no replicas exactly when no data plane is set, and its controller runs with the
-- environment of the control plane.
pub record Follows (p : ControlPlane) (d : Deployment) : Type 0 where
  pub dormant : (d.replicas ≡ some 0) ↔ (data_plane_is_set p.spec ≡ false)
  pub controller : Container
  pub found :
      find_if (λ c. c.name == controller_container_name) d.template.containers ≡ some controller
  pub same_env : controller.env ≡ p.spec.deployment.env
  pub same_env_from : controller.env_from ≡ p.spec.deployment.env_from

-- Each Deployment that is written is as the control plane wants it.
abbrev pub Written : ControlPlane → Trace → Call → Type 0
Written p t (Call.create_deployment d) = Follows p d
Written p t (Call.update_deployment d) = Follows p d
Written p t _ = Unit

scaled_dormant :
    (set : Bool) (replicas : Option ℕ)
    → (scaled_replicas (scaling set replicas) replicas ≡ some 0) ↔ (set ≡ false)
unfolding scaling
scaled_dormant true none = ground arith
scaled_dormant true (some zero) = ground arith
scaled_dormant true (some (suc n)) = ground arith
scaled_dormant false none = ground arith
scaled_dormant false (some zero) = ground arith
scaled_dormant false (some (suc n)) = ground arith

module _ (p : ControlPlane) where
  abbrev pub Found : List Container → Type 0
  Found cs = (c : Container) × (find_if (λ x. x.name == controller_container_name) cs ≡ some c)

  with_controller_absent :
      (generated : List Container) (pod : PodSpec)
      → find_if (λ c. c.name == controller_container_name) pod.containers ≡ none
      → with_controller generated pod ≡ (generated, true)
  unfolding with_controller get_pod_container_by_name
  with_controller_absent generated pod h = ground (arith, h)

  with_controller_present :
      (generated : List Container) (pod : PodSpec) (c : Container)
      → find_if (λ c. c.name == controller_container_name) pod.containers ≡ some c
      → with_controller generated pod ≡ (pod.containers, false)
  unfolding with_controller get_pod_container_by_name
  with_controller_present generated pod c h = ground (arith, h)

  with_controller-Found :
      (generated : List Container) (pod : PodSpec)
      → Found generated
      → Found (with_controller generated pod).0
  with_controller-Found generated pod h =
      elim (Option-cases (find_if (λ c. c.name == controller_container_name) pod.containers)) [
        | inl absent ↦ rw (with_controller_absent generated pod absent) h
        | inr present ↦ rw (with_controller_present generated pod present.0 present.1) present
      ]

  pub refreshed-Follows :
      (generated : List Container) (existing : Deployment)
      → Found generated
      → Follows p (refreshed_deployment p generated existing).0
  unfolding refreshed_deployment
  refreshed-Follows generated existing h =
      let found = with_controller-Found generated existing.template h in
      record {
        dormant = scaled_dormant (data_plane_is_set p.spec) existing.replicas;
        controller = with_spec p found.0;
        found =
            find-with_container controller_container_name (with_spec p)
              (with_controller generated existing.template).0 found.0 (λ c. refl) found.1;
        same_env = refl;
        same_env_from = refl;
      }

  pub generated-Found :
      (account secret : String) → Found (controller_deployment p account secret).template.containers
  unfolding controller_deployment generate_new_deployment_for_control_plane controller_container
  generated-Found account secret = (controller_container p, refl)

  -- what is created, for either answer to the question whether a data plane is set
  abbrev created : Bool → Deployment → Deployment
  created set g = if set then g else record g { replicas = some 0 }

  created-Follows :
      (account secret : String) (set : Bool)
      → data_plane_is_set p.spec ≡ set
      → Follows p (created set (controller_deployment p account secret))
  unfolding controller_deployment generate_new_deployment_for_control_plane controller_container
  created-Follows account secret true h = record {
    dormant = ground (arith, h);
    controller = controller_container p;
    found = refl;
    same_env = refl;
    same_env_from = refl;
  }
  created-Follows account secret false h = record {
    dormant = ground (arith, h);
    controller = controller_container p;
    found = refl;
    same_env = refl;
    same_env_from = refl;
  }

  pub dormant-Follows :
      (account secret : String)
      → Follows p (dormant_deployment p (controller_deployment p account secret))
  unfolding dormant_deployment
  dormant-Follows account secret = created-Follows account secret (data_plane_is_set p.spec) refl

  module _ (c : Client) where
    update-Keeps :
        (generated existing : Deployment) (u : Trace)
        → Found generated.template.containers
        → Keeps u (Written p) (update_controller_deployment c p generated existing)
    unfolding update_controller_deployment
    update-Keeps generated existing u h = search (keeps_rules, refreshed-Follows)

    -- Every Deployment that is created or updated for a control plane, on any server and whatever
    -- Deployment is there, has no replicas exactly when no data plane is set, and its controller
    -- runs with the environment of the control plane.
    ensure_deployment_for_control_plane-Written :
        (account secret : String)
        → History (Written p) (ensure_deployment_for_control_plane c p account secret []).1
    unfolding ensure_deployment_for_control_plane list_deployments_for_owner
    ensure_deployment_for_control_plane-Written account secret =
        (run account secret).at [] (Extends-refl []) tt
      where
        run :
            (account secret : String)
            → Keeps [] (Written p) (ensure_deployment_for_control_plane c p account secret)
        run account secret = search (keeps_rules, update-Keeps, dormant-Follows, generated-Found)
