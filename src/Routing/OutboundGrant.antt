-- ===== src/Routing/OutboundGrant.antt =====
-- Whether a call may be placed from a line (apps/call-controller/src/routing/outbound-plan.ts,
-- apps/call-controller/src/calls/outbound-grant.ts), and the grant it is placed on
-- (telephony.service.ts: `issueOutboundGrant`, `takeOutboundGrant`).
pub mod Grants
use iziphone.Prelude.{
  ℕ, ◌+◌, ◌*◌, Bool, true, false, not, ◌&&◌, ◌||◌, Option, none, some, List, [], ◌∷◌, ◌==◌, ltb,
  if◌then◌else◌, elem,
}
use iziphone.Domain.{Text, RoutingType, department, user, outbound_routing}
use iziphone.Routing.InboundPlan.{CachedRouting}

pub data OutboundGrantRefusal : Type 0 where
  line_unavailable line_without_voice line_not_allowed : OutboundGrantRefusal

pub record Dial : Type 0 where
  pub line : Text
  pub department_id : Option Text
  pub department_name : Option Text

pub data OutboundCallPlan : Type 0 where
  refuse : OutboundGrantRefusal → OutboundCallPlan
  dial : Dial → OutboundCallPlan

abbrev pub is_denied : Option Bool → Bool
is_denied none = false
is_denied (some b) = not b

abbrev pub dial_on : CachedRouting → Text → RoutingType → Dial
dial_on routing line department = record {
  line = line;
  department_id = routing.department_id;
  department_name = routing.department_name;
}
dial_on routing line user = record { line = line; department_id = none; department_name = none }
dial_on routing line outbound_routing = record {
  line = line;
  department_id = none;
  department_name = none;
}

-- `planOutboundCall`
unfoldable pub plan_outbound_call : Text → Text → Option CachedRouting → OutboundCallPlan
plan_outbound_call agent_user_id line none = refuse line_unavailable
plan_outbound_call agent_user_id line (some routing) =
    if not (elem agent_user_id routing.user_ids)
    then refuse line_not_allowed
    else if is_denied routing.voice_enabled
    then refuse line_without_voice
    else dial (dial_on routing line routing.type)

-- The time of a grant is kept in ms, as `Date.parse` reads it back.
pub record OutboundCallGrant : Type 0 where
  pub user_id : Text
  pub to : Text
  pub from_number : Text
  pub department_id : Option Text
  pub department_name : Option Text
  pub created_at : ℕ

pub record OutboundGrantRequest : Type 0 where
  pub user_id : Text
  pub to : Text
  pub from_number : Text

pub data OutboundGrantDecision : Type 0 where
  refused : OutboundGrantRefusal → OutboundGrantDecision
  issue : OutboundCallGrant → OutboundGrantDecision

abbrev pub decision_of : OutboundGrantRequest → ℕ → OutboundCallPlan → OutboundGrantDecision
decision_of r now (refuse reason) = refused reason
decision_of r now (dial plan) = issue (record {
  user_id = r.user_id;
  to = r.to;
  from_number = plan.line;
  department_id = plan.department_id;
  department_name = plan.department_name;
  created_at = now;
})

-- `decideOutboundGrant`
unfoldable pub decide_outbound_grant :
    OutboundGrantRequest → Option CachedRouting → ℕ → OutboundGrantDecision
unfolding plan_outbound_call
decide_outbound_grant r routing now =
    decision_of r now (plan_outbound_call r.user_id r.from_number routing)

pub data OutboundCallRefusal : Type 0 where
  no_grant grant_expired wrong_caller : OutboundCallRefusal

pub data OutboundCallAdmission : Type 0 where
  not_admitted : OutboundCallRefusal → OutboundCallAdmission
  admitted : OutboundCallGrant → OutboundCallAdmission

abbrev pub ttl_seconds : ℕ
ttl_seconds = 60

-- Twilio's caller: the user that a `client:` address names, or another address.
pub data Caller : Type 0 where
  client : Text → Caller
  other_address : Caller

abbrev pub is_client : Option Caller → Text → Bool
is_client none u = false
is_client (some (client v)) u = v == u
is_client (some other_address) u = false

-- `admitOutboundCall`
unfoldable pub admit_outbound_call :
    Option OutboundCallGrant → Option Caller → ℕ → OutboundCallAdmission
admit_outbound_call none from now = not_admitted no_grant
admit_outbound_call (some grant) from now =
    if not (ltb now (grant.created_at + ttl_seconds * 1000))
    then not_admitted grant_expired
    else if not (is_client from grant.user_id)
    then not_admitted wrong_caller
    else admitted grant

-- The grants kept in the store by token, each with the time at which it runs out.
pub record KeptGrant : Type 0 where
  pub token : Text
  pub expires_at : ℕ
  pub grant : OutboundCallGrant

-- `issueOutboundGrant`, under the token that was drawn.
unfoldable pub issue_outbound_grant : Text → OutboundCallGrant → ℕ → List KeptGrant → List KeptGrant
issue_outbound_grant token grant now kept =
    record { token = token; expires_at = now + ttl_seconds * 1000; grant = grant } ∷ kept

abbrev pub find_grant : Text → ℕ → List KeptGrant → Option OutboundCallGrant
find_grant token now [] = none
find_grant token now (k ∷ kept) =
    if k.token == token
    then (if ltb now k.expires_at then some k.grant else none)
    else find_grant token now kept

abbrev pub drop_grant : Text → List KeptGrant → List KeptGrant
drop_grant token [] = []
drop_grant token (k ∷ kept) =
    if k.token == token then drop_grant token kept else k ∷ drop_grant token kept

-- `takeOutboundGrant`: the grant behind the token, taken out in the same step.
unfoldable pub take_outbound_grant :
    Text → ℕ → List KeptGrant → Option OutboundCallGrant × List KeptGrant
take_outbound_grant token now kept = (find_grant token now kept, drop_grant token kept)
