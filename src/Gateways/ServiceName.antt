-- ===== src/Gateways/ServiceName.antt =====
-- When the Service of a data plane has a name.
use gateway_operator.Prelude.{
  String, ◌≡◌, ◌↔◌, refl, ap, ◌∙◌, some, List, [], ◌∷◌, arith, at_most_one, length, show_count,
  ◌<>◌,
}
use gateway_operator.Errors.{Result, ok, err, message, Err}
use gateway_operator.Api.Resources.{DataPlane}
use gateway_operator.Api.Workloads.{Service}
use gateway_operator.Metadata.{gateway_operator_controlled_label, data_plane_managed_label_value}
use gateway_operator.Lists.{owned_items, list_services_for_owner}
use gateway_operator.Client.{
  Client, Call, ListOptions, Trace, pure, raise, request, continue, ◌>>=◌,
}
use gateway_operator.Gateways.{get_data_plane_service_name}

one_name :
    (services : List Service) (absent several : Err) (name : String) (t : Trace)
    → ((at_most_one
          (raise absent)
          (λ (s : Service). pure s.metadata.name)
          (raise several)
          services
          t).0
        ≡ ok name)
      ↔ ((s : Service) × (services ≡ s ∷ []) × (s.metadata.name ≡ name))
unfolding pure raise
one_name [] absent several name t = (λ h. ground (arith, h), λ k. ground (arith, k.1))
one_name (s ∷ []) absent several name t = (
  λ h. (s, refl, ap result h),
  λ k. ap (λ (x : Service). ok x.metadata.name) (ap first k.1) ∙ ap (λ (n : String). ok n) k.2,
)
  where
    result : Result String → String
    result (ok n) = n
    result (err e) = name

    first : List Service → Service
    first [] = s
    first (x ∷ xs) = x
one_name (s ∷ s' ∷ rest) absent several name t = (λ h. ground (arith, h), λ k. ground (arith, k.1))

module _ (c : Client) (d : DataPlane) where
  -- What the server is asked for.
  abbrev pub wanted : ListOptions
  wanted = record {
    namespace = some d.metadata.namespace;
    label = gateway_operator_controlled_label;
    value = data_plane_managed_label_value;
  }

  abbrev pub owned : List Service → List Service
  owned = owned_items (λ s. s.metadata) d.metadata.uid

  -- If the server lists Services for a data plane, its Service has a name exactly if one of them and
  -- no other is owned by it, and then the name is that one's.
  pub service_name_iff :
      (t : Trace) (items : List Service) (name : String)
      → c.services (Call.list_services wanted ∷ t) wanted ≡ ok items
      → ((get_data_plane_service_name c d t).0 ≡ ok name)
        ↔ ((s : Service) × (owned items ≡ s ∷ []) × (s.metadata.name ≡ name))
  unfolding get_data_plane_service_name list_services_for_owner ◌>>=◌ continue request pure raise
  service_name_iff t items name listed = rw listed (
      one_name (owned items) (message "found 0 services for DataPlane")
        (message (
          "found "
          <> show_count (length (owned items))
          <> " services for DataPlane currently unsupported: expected 1 or less"))
        name (Call.list_services wanted ∷ t))
