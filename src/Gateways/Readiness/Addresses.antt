-- ===== src/Gateways/Readiness/Addresses.antt =====
-- The addresses that a gateway is given when it becomes ready.
use gateway_operator.Prelude.{
  sym, ◌∙◌, if◌then◌else◌, ◌≡◌, ◌≢◌, String, refl, ap, false, List, [], ◌∷◌, ◌==◌, string_eq, arith,
  eq_iff, Bool-cases, inl, inr,
}
use gateway_operator.Errors.{message, Err, Result, ok, err}
use gateway_operator.Api.Workloads.{Service}
use gateway_operator.Status.{gateway_conditions}
use gateway_operator.Gateways.Readiness.{
  addresses_of, Gateway, announce, ensure_gateway_marked_ready, set_ready, DataPlane, is_ready,
  service_of,
}
use gateway_operator.Client.{Client, Trace, pure, ◌>>=◌, continue, attempt, read, request, Call}

-- The address of the load balancer, if there is one, and the address in the cluster.
abbrev pub Lists : List String → String → List String → Type 0
Lists [] cluster_ip addresses = addresses ≡ cluster_ip ∷ []
Lists (ip ∷ _) cluster_ip addresses = (ip ≢ "") × (addresses ≡ ip ∷ cluster_ip ∷ [])

abbrev pub HasAddresses : Service → List String → Type 0
HasAddresses s addresses = (s.cluster_ip ≢ "") × Lists s.ingress_ips s.cluster_ip addresses

-- The addresses are these, or there are none.
abbrev Decides : Service → Result (List String) → Type 0
Decides s r =
    ((addresses : List String) → HasAddresses s addresses → r ≡ ok addresses)
    × (((addresses : List String) → HasAddresses s addresses → ⊥) → (e : Err) × (r ≡ err e))

differs : (a : String) → (a == "") ≡ false → a ≢ ""
differs a h e = ground (arith, h, eq_iff a "", e)

-- The case analysis of a Service that has its address in the cluster.
listed : List String → String → Result (List String)
listed [] cluster_ip = ok (cluster_ip ∷ [])
listed (ip ∷ _) cluster_ip =
    if ip == ""
    then err (message "missing loadbalancer.ingress[0].ip")
    else ok (ip ∷ cluster_ip ∷ [])

with_cluster_ip :
    (ips : List String) (cluster_ip : String)
    → ((addresses : List String)
        → Lists ips cluster_ip addresses
        → listed ips cluster_ip ≡ ok addresses)
      × (((addresses : List String) → Lists ips cluster_ip addresses → ⊥)
          → (e : Err) × (listed ips cluster_ip ≡ err e))
unfolding listed
with_cluster_ip [] cluster_ip =
    ((λ addresses h. ap ok (sym h)), (λ none_listed. absurd (none_listed (cluster_ip ∷ []) refl)))
with_cluster_ip (ip ∷ ips) cluster_ip = elim (Bool-cases (ip == "")) [
  | inl unset ↦
      ((λ addresses h. absurd (h.0 ((eq_iff ip "").0 unset))), (λ none_listed. rw unset (_, refl)))
  | inr given ↦ (
    (λ addresses h. rw given (ap ok (sym h.1))),
    (λ none_listed. absurd (none_listed (ip ∷ cluster_ip ∷ []) (differs ip given, refl))),
  )
]

module _ (c : Client) where
  -- The gateway with the addresses, marked by SetReady after the calls `t`.
  abbrev pub made_ready : Gateway → List String → Trace → Gateway
  made_ready g addresses t = set_ready (c.now t) (record g { addresses = addresses })

  -- with an address in the cluster
  addresses_listed :
      (s : Service) (ips : List String)
      → s.ingress_ips ≡ ips
      → (s.cluster_ip == "") ≡ false
      → addresses_of c s ≡ listed ips s.cluster_ip
  unfolding addresses_of listed
  addresses_listed s [] e given = rw (given, e) refl
  addresses_listed s (ip ∷ ips) e given = rw (given, e) refl

  addresses_lem : (s : Service) → Decides s (addresses_of c s)
  unfolding addresses_of
  addresses_lem s = elim (Bool-cases (s.cluster_ip == "")) [
    | inl unset ↦ (
      (λ addresses h. absurd (h.0 ((eq_iff s.cluster_ip "").0 unset))),
      (λ none_listed. rw unset (_, refl)),
    )
    | inr given ↦
        let (found, missing) = with_cluster_ip s.ingress_ips s.cluster_ip in
        let same = addresses_listed s s.ingress_ips refl given in
        (
          (λ addresses h. same ∙ found addresses h.1),
          (λ none_listed.
              let (e, failed) =
                missing (λ addresses h. none_listed addresses (differs s.cluster_ip given, h)) in
              (e, same ∙ failed)),
        )
  ]

  announced :
      (g : Gateway) (t : Trace) (r : Result (List String)) (addresses : List String)
      → r ≡ ok addresses
      → (announce c g r t).1 ≡ Call.update_status_gateway (made_ready g addresses t) ∷ t
  unfolding announce ◌>>=◌ continue read attempt request pure
  announced g t r addresses h = rw h refl

  held_back :
      (g : Gateway) (t : Trace) (r : Result (List String)) (e : Err)
      → r ≡ err e
      → announce c g r t ≡ (ok (g, err e), t)
  unfolding announce pure
  held_back g t r e h = rw h refl

  -- A gateway that is not ready, and whose data plane has its one Service: if the Service has an
  -- address in the cluster, and that of its first load balancer is not empty if there is one, then
  -- the gateway gets these addresses and is marked by SetReady, and is written as such in the only
  -- call that follows; otherwise no call follows, and the gateway stays as it is, with an error.
  pub marked_ready_lem :
      (g : Gateway) (d : DataPlane) (s : Service) (t u : Trace)
      → is_ready g ≡ false
      → service_of c d t ≡ (ok s, u)
      → ((addresses : List String)
          → HasAddresses s addresses
          → (ensure_gateway_marked_ready c g d t).1
            ≡ Call.update_status_gateway (made_ready g addresses u) ∷ u)
        × (((addresses : List String) → HasAddresses s addresses → ⊥)
            → (e : Err) × (ensure_gateway_marked_ready c g d t ≡ (ok (g, err e), u)))
  unfolding ensure_gateway_marked_ready ◌>>=◌ continue attempt
  marked_ready_lem g d s t u unready found =
      rw (unready, found)
        (
          (λ addresses h.
              announced g u (addresses_of c s) addresses ((addresses_lem s).0 addresses h)),
          (λ none_listed.
              let (e, failed) = (addresses_lem s).1 none_listed in
              (e, held_back g u (addresses_of c s) e failed)),
        )
