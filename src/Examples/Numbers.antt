-- ===== src/Examples/Numbers.antt =====
-- Routing entries, grants and typed numbers.
use iziphone.Prelude.{
  ℕ, ◌+◌, ◌≡◌, refl, elem, none, some, true, false, not, ◌&&◌, ◌||◌, List, [], ◌∷◌, ltb, any,
  if◌then◌else◌, arith,
}
use mathlib.Core.List.{Perm}
use iziphone.Domain.{department, fixed_order, external_number}
use iziphone.Routing.BusinessHours.{Clock, CachedRoutingSettings, falls_on, check_business_hours}
use iziphone.Routing.BusinessHours.Opening.{is_opened, scheduled, check_business_hours-opened}
use iziphone.Routing.InboundPlan.{
  OrderedUser, CachedRouting, RingPlan, ring, forward, plan_inbound_call, is_user, user_ids_of,
  fixed_order_unavailable,
}
use iziphone.Routing.InboundPlan.Order.{Rises, plan_inbound_call-Rises}
use iziphone.Examples.Sorting.{sort_by, insert_by, sort_by-IsRearranging, sort_by-IsSort}
use iziphone.Routing.InboundPlan.Plans.{rung_by, answerers, is_open_now, plan_inbound_call-rings}
use iziphone.Routing.OutboundGrant.{
  OutboundGrantRequest, OutboundCallGrant, decide_outbound_grant, plan_outbound_call, issue, client,
  is_client, admit_outbound_call, issue_outbound_grant, take_outbound_grant,
}
use iziphone.Routing.OutboundGrant.Grants.{
  is_admitted, admit_outbound_call-issued, take_outbound_grant_once,
}
use iziphone.PhoneNumber.{normalize_phone_number, trim}
use iziphone.PhoneNumber.Canonical.{normalize_phone_number_idem}

-- Monday, 10:00.
abbrev monday : Clock
monday now zone = record {
  date = record { year = 2026; month = 3; day = 2 };
  time = 600;
  day_of_week = some 1;
}

-- Sunday, 10:00.
abbrev sunday : Clock
sunday now zone = record {
  date = record { year = 2026; month = 3; day = 1 };
  time = 600;
  day_of_week = some 0;
}

abbrev settings : CachedRoutingSettings
settings = record {
  timezone = 4;
  is_24_hours = false;
  open_hours_routing_type = fixed_order;
  ring_duration = 20;
  closed_hours_routing_type = external_number;
  closed_hours_external_number = some 701;
  voicemail_greeting_url = none;
  business_hours =
      record { day_of_week = 1; is_open = true; open_time = some 540; close_time = some 1020 } ∷ [];
  holidays = [];
}

abbrev order : List OrderedUser
order = record { user_id = 2; order = 5 } ∷ record { user_id = 1; order = 3 } ∷ []

abbrev routing : CachedRouting
routing = record {
  type = department;
  user_ids = 1 ∷ 2 ∷ [];
  voice_enabled = some true;
  ordered_users = some order;
  settings = some settings;
  department_id = some 7;
  department_name = some 8;
  user_id = none;
  user_name = none;
}

check_business_hours-opened_example :
    let local = monday 9 settings.timezone in
    is_opened (check_business_hours monday settings 9) ≡ (
      settings.is_24_hours
      || (not (any (falls_on local) settings.holidays) && scheduled local settings.business_hours))
check_business_hours-opened_example = check_business_hours-opened monday settings 9

plan_inbound_call-rings_example : elem 2 (rung_by (plan_inbound_call sort_by monday routing 9)) ≡ (
    (is_user routing.type || is_open_now monday routing.settings 9) && elem 2 (answerers routing))
plan_inbound_call-rings_example =
    plan_inbound_call-rings sort_by monday routing 9 2 sort_by-IsRearranging

abbrev in_order : RingPlan
in_order = record {
  strategy = fixed_order;
  user_ids = 1 ∷ 2 ∷ [];
  ring_duration = some 20;
  when_nobody_is_available = fixed_order_unavailable;
}

rings_in_order : plan_inbound_call sort_by monday routing 9 ≡ ring in_order
unfolding plan_inbound_call check_business_hours sort_by insert_by
rings_in_order = refl

plan_inbound_call-Rises_example :
    (us : List OrderedUser) × Perm us order × Rises us × (in_order.user_ids ≡ user_ids_of us)
plan_inbound_call-Rises_example =
    plan_inbound_call-Rises sort_by monday routing 9 in_order order sort_by-IsSort rings_in_order
      refl refl

abbrev outside_number : ℕ
outside_number = 701

forwards : plan_inbound_call sort_by sunday routing 9 ≡ forward outside_number 20
unfolding plan_inbound_call check_business_hours
forwards = refl

abbrev request : OutboundGrantRequest
request = record { user_id = 1; to = 801; from_number = 601 }

abbrev grant : OutboundCallGrant
grant = record {
  user_id = 1;
  to = 801;
  from_number = 601;
  department_id = some 7;
  department_name = some 8;
  created_at = 1000;
}

is_granted : decide_outbound_grant request (some routing) 1000 ≡ issue grant
unfolding decide_outbound_grant plan_outbound_call
is_granted = refl

admit_outbound_call-issued_example :
    (grant.user_id ≡ request.user_id)
    × (grant.to ≡ request.to)
    × (grant.from_number ≡ request.from_number)
    × (is_admitted (admit_outbound_call (some grant) (some (client 1)) 2000)
        ≡ (ltb 2000 (1000 + 60000) && is_client (some (client 1)) request.user_id))
admit_outbound_call-issued_example =
    admit_outbound_call-issued request (some routing) 1000 2000 grant (some (client 1)) is_granted

take_outbound_grant_once_example :
    let r = take_outbound_grant 31 2000 (issue_outbound_grant 31 grant 1000 []) in
    (r.0 ≡ (if ltb 2000 (1000 + 60000) then some grant else none))
    × ((take_outbound_grant 31 3000 r.1).0 ≡ none)
    × ((take_outbound_grant 32 3000 r.1).0 ≡ (take_outbound_grant 32 3000 []).0)
take_outbound_grant_once_example =
    take_outbound_grant_once 31 32 grant 1000 2000 3000 [] (λ h. ground arith)

-- ` (555) 123-4567`, and its number.
abbrev typed : List ℕ
typed = 32 ∷ 40 ∷ 53 ∷ 53 ∷ 53 ∷ 41 ∷ 32 ∷ 49 ∷ 50 ∷ 51 ∷ 45 ∷ 52 ∷ 53 ∷ 54 ∷ 55 ∷ []

abbrev pub number : List ℕ
number = 43 ∷ 49 ∷ 53 ∷ 53 ∷ 53 ∷ 49 ∷ 50 ∷ 51 ∷ 52 ∷ 53 ∷ 54 ∷ 55 ∷ []

is_a_number : normalize_phone_number typed ≡ some number
unfolding normalize_phone_number trim
is_a_number = refl

normalize_phone_number_idem_example : normalize_phone_number number ≡ some number
normalize_phone_number_idem_example = normalize_phone_number_idem typed number is_a_number
