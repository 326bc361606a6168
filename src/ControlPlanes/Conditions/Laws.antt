-- ===== src/ControlPlanes/Conditions/Laws.antt =====
-- What the status says of the data plane of a control plane.
use gateway_operator.Prelude.{
  ℕ, String, ◌≡◌, ◌≢◌, refl, Bool, true, false, Option, none, some, arith, eq_iff, string_eq,
  if◌then◌else◌,
}
use gateway_operator.Api.Meta.{Condition}
use gateway_operator.Api.Resources.{ControlPlane}
use gateway_operator.Status.{
  control_plane_conditions, condition_false, set_condition, get_condition, new_condition,
}
use gateway_operator.Status.Conditions.{get-set_condition}
use gateway_operator.DataPlanes.Conditions.{provisioned_type, pods_not_ready_reason}
use gateway_operator.ControlPlanes.Env.{data_plane_is_set}
use gateway_operator.ControlPlanes.Conditions.{
  data_plane_condition, is_news, ensure_data_plane_status, no_dataplane_reason,
}

-- The reason that goes with a data plane, or with none.
abbrev pub waiting_reason : Bool → String
waiting_reason set = if set then pods_not_ready_reason else no_dataplane_reason

-- A condition that says why the control plane is not provisioned.
abbrev pub Says : Bool → Option Condition → Type 0
Says set found =
    (c : Condition) × (found ≡ some c)
    × (c.status ≡ condition_false)
    × (c.reason ≡ waiting_reason set)

news_Says :
    (now : ℕ) (set : Bool) (found : Option Condition)
    → found ≡ some (data_plane_condition now set)
    → Says set found
unfolding data_plane_condition new_condition
news_Says now true found h = (data_plane_condition now true, h, refl, refl)
news_Says now false found h = (data_plane_condition now false, h, refl, refl)

new_condition_type : (now : ℕ) (set : Bool) → (data_plane_condition now set).type ≡ provisioned_type
unfolding data_plane_condition new_condition
new_condition_type now true = refl
new_condition_type now false = refl

not_news_Says :
    (now : ℕ) (set : Bool) (found : Option Condition)
    → is_news found (data_plane_condition now set) ≡ false
    → Says set found
unfolding is_news data_plane_condition new_condition
not_news_Says now set none h = ground (arith, h)
not_news_Says now true (some c) h = (
  c,
  refl,
  ground (arith, h, eq_iff c.status condition_false),
  ground (arith, h, eq_iff c.reason pods_not_ready_reason, eq_iff c.status condition_false),
)
not_news_Says now false (some c) h = (
  c,
  refl,
  ground (arith, h, eq_iff c.status condition_false),
  ground (arith, h, eq_iff c.reason no_dataplane_reason, eq_iff c.status condition_false),
)

-- The control plane as it is left, the news being known.
module _ (now : ℕ) (p : ControlPlane) where
  abbrev wanted : Condition
  wanted = data_plane_condition now (data_plane_is_set p.spec)

  abbrev left : Bool → ControlPlane
  left news = if news then set_condition wanted p else p

  left-Says :
      (news : Bool)
      → is_news (get_condition provisioned_type p) wanted ≡ news
      → Says (data_plane_is_set p.spec) (get_condition provisioned_type (left news))
  left-Says true h = news_Says now (data_plane_is_set p.spec) _ (
      ground (
        arith,
        get-set_condition provisioned_type wanted p,
        new_condition_type now (data_plane_is_set p.spec),
        eq_iff wanted.type provisioned_type,
      ))
  left-Says false h = not_news_Says now (data_plane_is_set p.spec) _ h

  left-others :
      (news : Bool) (t : String)
      → t ≢ provisioned_type
      → get_condition t (left news) ≡ get_condition t p
  left-others true t other = ground (
    arith,
    other,
    get-set_condition t wanted p,
    new_condition_type now (data_plane_is_set p.spec),
    eq_iff wanted.type t,
  )
  left-others false t other = refl

  left-kept : (news : Bool) → ((left news).metadata ≡ p.metadata) × ((left news).spec ≡ p.spec)
  unfolding set_condition
  left-kept true = (refl, refl)
  left-kept false = (refl, refl)

-- ensureDataPlaneStatus answers whether a data plane is set, and leaves a Provisioned condition that
-- is False with the reason for that answer, whatever the status was; every condition of another type
-- stays as it was, and so do the metadata and the spec.
pub data_plane_status_lem :
    (now : ℕ) (p : ControlPlane)
    → let (after, set) = ensure_data_plane_status now p in
      (set ≡ data_plane_is_set p.spec)
      × Says set (get_condition provisioned_type after)
      × ((t : String) → t ≢ provisioned_type → get_condition t after ≡ get_condition t p)
      × (after.metadata ≡ p.metadata)
      × (after.spec ≡ p.spec)
unfolding ensure_data_plane_status
data_plane_status_lem now p = (
  refl,
  left-Says now p (is_news (get_condition provisioned_type p) (wanted now p)) refl,
  left-others now p (is_news (get_condition provisioned_type p) (wanted now p)),
  (left-kept now p (is_news (get_condition provisioned_type p) (wanted now p))).0,
  (left-kept now p (is_news (get_condition provisioned_type p) (wanted now p))).1,
)

old_news :
    (later : ℕ) (set : Bool) (found : Option Condition)
    → Says set found
    → is_news found (data_plane_condition later set) ≡ false
unfolding is_news data_plane_condition new_condition
old_news later true found (c, at, status, reason) = rw at (
    ground (
      arith,
      status,
      reason,
      eq_iff c.status condition_false,
      eq_iff c.reason pods_not_ready_reason,
    ))
old_news later false found (c, at, status, reason) = rw at (
    ground
      (arith, status, reason, eq_iff c.status condition_false, eq_iff c.reason no_dataplane_reason))

settled :
    (later : ℕ) (p : ControlPlane)
    → Says (data_plane_is_set p.spec) (get_condition provisioned_type p)
    → ensure_data_plane_status later p ≡ (p, data_plane_is_set p.spec)
unfolding ensure_data_plane_status
settled later p says = rw (old_news later (data_plane_is_set p.spec) _ says) refl

left_settled :
    (now later : ℕ) (p : ControlPlane) (news : Bool)
    → is_news (get_condition provisioned_type p) (wanted now p) ≡ news
    → ensure_data_plane_status later (left now p news) ≡ (left now p news, data_plane_is_set p.spec)
unfolding set_condition
left_settled now later p true h = settled later (left now p true) (left-Says now p true h)
left_settled now later p false h = settled later (left now p false) (left-Says now p false h)

-- A second call of ensureDataPlaneStatus, at any later time, changes nothing.
data_plane_status_idem :
    (now later : ℕ) (p : ControlPlane)
    → ensure_data_plane_status later (ensure_data_plane_status now p).0
      ≡ ensure_data_plane_status now p
unfolding ensure_data_plane_status
data_plane_status_idem now later p =
    left_settled now later p (is_news (get_condition provisioned_type p) (wanted now p)) refl
