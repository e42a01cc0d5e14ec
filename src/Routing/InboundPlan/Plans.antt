-- ===== src/Routing/InboundPlan/Plans.antt =====
-- What becomes of an inbound call (inbound-plan.ts).
use iziphone.Prelude.{
  ℕ, Bool, true, false, ◌&&◌, ◌||◌, ◌≡◌, ◌≢◌, refl, ap, ◌∙◌, inl, inr, Option, none, some, List, [],
  ◌∷◌, arith, Option-cases, elem, if◌then◌else◌,
}
use mathlib.Core.List.{Perm, Permᴰ}
use mathlib.Core.Logic.{∥∥₁_elim}
use mathlib.Core.Bool.{Bool-set}
use iziphone.Domain.{Text, OpenHoursRoutingType, fixed_order, simultaneous}
use iziphone.Routing.BusinessHours.{
  Clock, CachedRoutingSettings, check_business_hours, BusinessHoursStatus, opened, outside_hours,
  on_holiday,
}
use iziphone.Routing.BusinessHours.Opening.{is_opened}
use iziphone.Routing.InboundPlan.{
  CachedRouting, InboundCallPlan, to_voicemail, forward, ring, is_user, plan_at, department_plan,
  plan_inbound_call, OrderedUser, Sort, by_order, user_ids_of,
}

-- Whom a plan rings.
abbrev pub rung_by : InboundCallPlan → List Text
rung_by (ring r) = r.user_ids
rung_by (to_voicemail reason) = []
rung_by (forward number duration) = []

-- The sort loses nobody and brings in nobody.
abbrev pub IsRearranging : Sort → Type 0
IsRearranging sort =
    (before : OrderedUser → OrderedUser → Bool) (us : List OrderedUser) → Perm (sort before us) us

abbrev pub rings_in_order : OpenHoursRoutingType → Bool
rings_in_order fixed_order = true
rings_in_order simultaneous = false

-- The department is open, or has no hours set.
abbrev pub is_open_now : Clock → Option CachedRoutingSettings → ℕ → Bool
is_open_now clock none now = true
is_open_now clock (some settings) now = is_opened (check_business_hours clock settings now)

abbrev pub of_settings :
    CachedRouting → Option CachedRoutingSettings → Option (List OrderedUser) → List Text
of_settings routing none users = routing.user_ids
of_settings routing (some settings) none = routing.user_ids
of_settings routing (some settings) (some users) =
    if rings_in_order settings.open_hours_routing_type then user_ids_of users else routing.user_ids

-- The people who answer a number: those of its own order where it has one, if it is a department's
-- that rings one after the other, and else all of its users.
abbrev pub answerers : CachedRouting → List Text
answerers routing =
    if is_user routing.type
    then routing.user_ids
    else of_settings routing routing.settings routing.ordered_users

elem-rearranged :
    (x : Text) {us vs : List OrderedUser}
    → Permᴰ us vs
    → elem x (user_ids_of us) ≡ elem x (user_ids_of vs)
elem-rearranged x Permᴰ.nil = refl
elem-rearranged x (Permᴰ.cons e d) = cc (elem-rearranged x d, e)
elem-rearranged x (Permᴰ.swap {a} {b} {a'} {b'} {l} e f) =
    swapped (ap (λ u. u.user_id) e) (ap (λ u. u.user_id) f)
  where
    swapped :
        a.user_id ≡ b'.user_id
        → b.user_id ≡ a'.user_id
        → elem x (user_ids_of (a ∷ b ∷ l)) ≡ elem x (user_ids_of (a' ∷ b' ∷ l))
    swapped g h = ground arith
elem-rearranged x (Permᴰ.trans d e) = elem-rearranged x d ∙ elem-rearranged x e

elem-user_ids_of :
    (x : Text) (us vs : List OrderedUser)
    → Perm us vs
    → elem x (user_ids_of us) ≡ elem x (user_ids_of vs)
elem-user_ids_of x us vs p = ∥∥₁_elim p (Bool-set _ _) (λ d. elem-rearranged x d)

elem-plan_at :
    (sort : Sort) (routing : CachedRouting) (settings : CachedRoutingSettings)
    (status : BusinessHoursStatus) (u : Text)
    → IsRearranging sort
    → elem u (rung_by (plan_at sort routing settings status))
      ≡ (is_opened status && elem u (of_settings routing (some settings) routing.ordered_users))
elem-plan_at sort routing settings opened u p = elim (Option-cases routing.ordered_users) [
  | inl e ↦ ground arith
  | inr (users, e) ↦
      ground (arith, elem-user_ids_of u (sort by_order users) users (p by_order users))
]
elem-plan_at sort routing settings outside_hours u p = ground arith
elem-plan_at sort routing settings (on_holiday h) u p = ground arith

elem-department_plan :
    (sort : Sort) (clock : Clock) (routing : CachedRouting)
    (settings : Option CachedRoutingSettings) (now : ℕ) (u : Text)
    → IsRearranging sort
    → elem u (rung_by (department_plan sort clock routing settings now)) ≡ (
        is_open_now clock settings now
        && elem u (of_settings routing settings routing.ordered_users))
elem-department_plan sort clock routing none now u p = ground arith
elem-department_plan sort clock routing (some settings) now u p =
    elem-plan_at sort routing settings (check_business_hours clock settings now) u p

-- Whom an inbound call rings: exactly those who answer its number, if the number is a user's own or its
-- department has no hours set or is open by them, and nobody otherwise; whatever the built-in sort does
-- with their order, as long as it loses nobody and brings in nobody.
pub plan_inbound_call-rings :
    (sort : Sort) (clock : Clock) (routing : CachedRouting) (now : ℕ) (u : Text)
    → IsRearranging sort
    → elem u (rung_by (plan_inbound_call sort clock routing now)) ≡ (
        (is_user routing.type || is_open_now clock routing.settings now)
        && elem u (answerers routing))
unfolding plan_inbound_call
plan_inbound_call-rings sort clock routing now u p =
    ground (arith, elem-department_plan sort clock routing routing.settings now u p)

-- A call is forwarded only to a number that is not blank, of a department that is closed.
plan_inbound_call-forward :
    (sort : Sort) (clock : Clock) (routing : CachedRouting) (now number duration : ℕ)
    → plan_inbound_call sort clock routing now ≡ forward number duration
    → (number ≢ 0)
      × (is_user routing.type ≡ false)
      × (is_open_now clock routing.settings now ≡ false)
unfolding plan_inbound_call
plan_inbound_call-forward sort clock routing now number duration h =
    elim (Option-cases routing.settings) [
      | inl e ↦ absurd (ground arith)
      | inr (settings, e) ↦ (λ b. ground arith, ground arith, ground arith)
    ]
