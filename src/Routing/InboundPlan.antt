-- ===== src/Routing/InboundPlan.antt =====
-- What to do with an inbound call (apps/call-controller/src/routing/inbound-plan.ts).
pub mod Order
pub mod Plans
use iziphone.Prelude.{
  ℕ, Bool, true, false, not, ◌&&◌, ◌||◌, Option, none, some, List, [], ◌∷◌, ◌==◌, leb, ltb,
  if◌then◌else◌, map,
}
use iziphone.Domain.{
  Text, truthy, RoutingType, department, user, outbound_routing, OpenHoursRoutingType, simultaneous,
  fixed_order, ClosedHoursRoutingType, voicemail_routing, external_number,
}
use iziphone.Routing.BusinessHours.{
  CachedRoutingSettings, BusinessHoursStatus, opened, outside_hours, on_holiday, Clock,
  check_business_hours,
}

pub data VoicemailReason : Type 0 where
  missing_routing closed_hours closed_hours_external user_unavailable : VoicemailReason
  fixed_order_unavailable no_agents routing_timeout : VoicemailReason

pub data GreetingProbeOutcome : Type 0 where
  reachable unreachable not_audio timed_out : GreetingProbeOutcome

-- What a caller hears before the beep. The words of a reason are kept as the reason.
pub data VoicemailGreeting : Type 0 where
  recording : Text → VoicemailGreeting
  spoken : VoicemailReason → VoicemailGreeting

abbrev is_reachable : Option GreetingProbeOutcome → Bool
is_reachable (some reachable) = true
is_reachable _ = false

-- `chooseVoicemailGreeting`
unfoldable pub choose_voicemail_greeting :
    VoicemailReason → Option Text → Option GreetingProbeOutcome → VoicemailGreeting
choose_voicemail_greeting reason none probe = spoken reason
choose_voicemail_greeting reason (some url) probe =
    if not (url == 0) && is_reachable probe then recording url else spoken reason

pub record OrderedUser : Type 0 where
  pub user_id : Text
  pub order : ℕ

-- `CachedRouting` (packages/events/src/cache/routing.ts); `type` is no outbound routing.
pub record CachedRouting : Type 0 where
  pub type : RoutingType
  pub user_ids : List Text
  pub voice_enabled : Option Bool
  pub ordered_users : Option (List OrderedUser)
  pub settings : Option CachedRoutingSettings
  pub department_id : Option Text
  pub department_name : Option Text
  pub user_id : Option Text
  pub user_name : Option Text

pub record RingPlan : Type 0 where
  pub strategy : OpenHoursRoutingType
  pub user_ids : List Text
  pub ring_duration : Option ℕ
  pub when_nobody_is_available : VoicemailReason

pub data InboundCallPlan : Type 0 where
  to_voicemail : VoicemailReason → InboundCallPlan
  forward : Text → ℕ → InboundCallPlan
  ring : RingPlan → InboundCallPlan

-- `Array.prototype.sort`, of users, by whether the left of two may stay before the right.
abbrev pub Sort : Type 0
Sort = (OrderedUser → OrderedUser → Bool) → List OrderedUser → List OrderedUser

-- `(left, right) => left.order - right.order`, at most 0.
abbrev pub by_order : OrderedUser → OrderedUser → Bool
by_order left right = leb left.order right.order

abbrev pub user_ids_of : List OrderedUser → List Text
user_ids_of = map (λ u. u.user_id)

abbrev pub ring_order : Sort → CachedRouting → Option (List OrderedUser) → List Text
ring_order sort routing none = routing.user_ids
ring_order sort routing (some users) = user_ids_of (sort by_order users)

abbrev is_external : ClosedHoursRoutingType → Bool
is_external voicemail_routing = false
is_external external_number = true

-- Where a closed department sends a caller.
abbrev pub closed_plan : ClosedHoursRoutingType → Option Text → ℕ → InboundCallPlan
closed_plan routing_type none ring_duration = to_voicemail closed_hours
closed_plan routing_type (some number) ring_duration =
    if is_external routing_type && not (number == 0)
    then forward number ring_duration
    else to_voicemail closed_hours

abbrev pub open_plan :
    Sort → CachedRouting → CachedRoutingSettings → OpenHoursRoutingType → InboundCallPlan
open_plan sort routing settings fixed_order = ring (record {
  strategy = fixed_order;
  user_ids = ring_order sort routing routing.ordered_users;
  ring_duration = some settings.ring_duration;
  when_nobody_is_available = fixed_order_unavailable;
})
open_plan sort routing settings simultaneous = ring (record {
  strategy = simultaneous;
  user_ids = routing.user_ids;
  ring_duration = some settings.ring_duration;
  when_nobody_is_available = no_agents;
})

abbrev pub plan_at :
    Sort → CachedRouting → CachedRoutingSettings → BusinessHoursStatus → InboundCallPlan
plan_at sort routing settings opened =
    open_plan sort routing settings settings.open_hours_routing_type
plan_at sort routing settings outside_hours =
    closed_plan settings.closed_hours_routing_type settings.closed_hours_external_number
      settings.ring_duration
plan_at sort routing settings (on_holiday h) =
    closed_plan h.routing_type h.routing_value settings.ring_duration

abbrev pub department_plan :
    Sort → Clock → CachedRouting → Option CachedRoutingSettings → ℕ → InboundCallPlan
department_plan sort clock routing none now = ring (record {
  strategy = simultaneous;
  user_ids = routing.user_ids;
  ring_duration = none;
  when_nobody_is_available = no_agents;
})
department_plan sort clock routing (some settings) now =
    plan_at sort routing settings (check_business_hours clock settings now)

abbrev ring_duration_of : Option CachedRoutingSettings → Option ℕ
ring_duration_of none = none
ring_duration_of (some settings) = some settings.ring_duration

abbrev pub is_user : RoutingType → Bool
is_user user = true
is_user department = false
is_user outbound_routing = false

-- `planInboundCall`
unfoldable pub plan_inbound_call : Sort → Clock → CachedRouting → ℕ → InboundCallPlan
unfolding check_business_hours
plan_inbound_call sort clock routing now =
    if is_user routing.type
    then ring (record {
      strategy = simultaneous;
      user_ids = routing.user_ids;
      ring_duration = ring_duration_of routing.settings;
      when_nobody_is_available = user_unavailable;
    })
    else department_plan sort clock routing routing.settings now
