-- ===== src/ControlPlanes/Watch/Agreement.antt =====
-- The predicate and the map function of the watches agree.
use gateway_operator.Prelude.{
  ◌≡◌, ◌↔◌, refl, ap, Bool, true, false, List, [], ◌∷◌, arith, any_of, Bool-cases, inl, inr, ◌∙◌,
}
use gateway_operator.Errors.{Result, ok}
use gateway_operator.Api.Meta.{ObjectMeta, NamespacedName}
use gateway_operator.Api.Resources.{ControlPlane}
use gateway_operator.Api.Workloads.{ClusterRole}
use gateway_operator.Lists.Laws.{Has}
use gateway_operator.ControlPlanes.Watch.{
  owns, first_owner, cluster_role_has_controlplane_owner, get_controlplane_for_cluster_role, err,
}
use gateway_operator.Client.{Client, Call, Trace, pure, attempt, request, continue, ◌>>=◌}

-- The one request is for an owner in the list.
abbrev pub IsRequest : ObjectMeta → List ControlPlane → List NamespacedName → Type 0
IsRequest m ps requests =
    (p : ControlPlane) × Has p ps
    × (owns m p ≡ true)
    × (requests ≡ record { namespace = p.metadata.namespace; name = p.metadata.name } ∷ [])

first_owner_lem :
    (m : ObjectMeta) (ps : List ControlPlane)
    → (any_of (owns m) ps ≡ true) ↔ IsRequest m ps (first_owner m ps)
unfolding first_owner
first_owner_lem m [] = (λ h. ground (arith, h), λ h. absurd h.1)
first_owner_lem m (p ∷ ps) = elim (Bool-cases (owns m p)) [
  | inl here ↦ rw here ((λ h. (p, inl refl, here, refl)), (λ h. refl))
  | inr there ↦ rw there (
    (λ h. let (q, found, owned, e) = (first_owner_lem m ps).0 h in (q, inr found, owned, e)),
    (λ (q, found, owned, e). elim found [
      | inl same ↦ ground (arith, ap (owns m) same, owned, there)
      | inr rest ↦ (first_owner_lem m ps).1 (q, rest, owned, e)
    ]),
  )
]

module _ (c : Client) where
  truth : Result Bool → Bool
  truth (ok b) = b
  truth (err e) = false

  requests_of : Result (List NamespacedName) → List NamespacedName
  requests_of (ok rs) = rs
  requests_of (err e) = []

  -- If the server lists control planes, then the predicate lets the event of a ClusterRole through
  -- exactly if the map function, after the same calls, returns one request, and that is for a
  -- control plane in the list that owns the ClusterRole.
  pub role_watch_agrees :
      (x : ClusterRole) (ps : List ControlPlane) (t : Trace)
      → c.all_control_planes (Call.list_all_control_planes ∷ t) ≡ ok ps
      → ((cluster_role_has_controlplane_owner c x t).0 ≡ ok true) ↔ (
          (requests : List NamespacedName) × ((get_controlplane_for_cluster_role c x t).0
            ≡ ok requests)
          × IsRequest x.metadata ps requests)
  unfolding cluster_role_has_controlplane_owner get_controlplane_for_cluster_role ◌>>=◌ continue
      attempt request pure truth requests_of
  role_watch_agrees x ps t listed = rw listed (
    (λ h. (first_owner x.metadata ps, refl, (first_owner_lem x.metadata ps).0 (ap truth h))),
    (λ (requests, e, is).
        ap ok ((first_owner_lem x.metadata ps).1 (is.0, is.1, is.2, ap requests_of e ∙ is.3))),
  )
