-- ===== src/CallControl.antt =====
-- The rules behind an agent's controls over a live call
-- (apps/call-controller/src/calls/call-control.ts).
pub mod Rules
use iziphone.Prelude.{
  ℕ, Bool, true, false, not, ◌&&◌, ◌||◌, Option, none, some, List, [], ◌∷◌, ◌==◌, if◌then◌else◌,
  elem, Dict, keys, lookup,
}
use iziphone.Domain.{
  Text, truthy, or_else, is, same, is_inbound, is_outbound, CallDirection, inbound, outbound,
  RoutingType, department, user, outbound_routing, CallEndStatus, busy, no_answer,
  CallParticipantType, caller, agent, external, UnavailableReason, reason_busy, reason_dnd,
  reason_offline, TransferFailureReason, declined, unanswered, unavailable, CallControlRefusal,
  not_on_call, not_connected, transfer_pending, no_transfer_pending, transfer_to_self,
  target_on_call, target_busy, target_dnd, target_offline,
}
use iziphone.CallState.{CallState, LegMetadata}

pub record CallControlRequest : Type 0 where
  pub user_id : Text
  pub leg_uuid : Text

-- `remoteLegOf`
abbrev pub remote_leg_of : CallState → Option Text
remote_leg_of s =
    if is_outbound s.direction
    then s.external_leg_uuid
    else or_else s.caller_leg_uuid s.external_leg_uuid

abbrev pub is_agent : CallParticipantType → Bool
is_agent caller = false
is_agent agent = true
is_agent external = false

-- The leg is this user's own on this call.
abbrev pub owns_leg : CallState → LegMetadata → CallControlRequest → Bool
owns_leg s leg r =
    is_agent leg.participant_type
    && (leg.participant_id == r.user_id && leg.conversation_uuid == s.conversation_uuid)

-- The user talks on the call, through the leg of the request.
abbrev pub is_talking : CallState → CallControlRequest → Bool
is_talking s r = is s.agent_leg_uuid r.leg_uuid && is s.active_agent_user_id r.user_id

-- There is a connected party on the other side.
abbrev pub is_connected : CallState → Bool
is_connected s =
    not (not s.answered || (s.ending || (s.voicemail || not (truthy (remote_leg_of s)))))

-- `refuseUnlessOnConnectedCall`
unfoldable pub refuse_unless_on_connected_call :
    CallState → LegMetadata → CallControlRequest → Option CallControlRefusal
refuse_unless_on_connected_call s leg r =
    if not (owns_leg s leg r) || not (is_talking s r)
    then some not_on_call
    else if not s.answered || (s.ending || (s.voicemail || not (truthy (remote_leg_of s))))
    then some not_connected
    else none

-- `if (refusal) { return refusal; }`
abbrev or_refuse : Option CallControlRefusal → Option CallControlRefusal → Option CallControlRefusal
or_refuse none next = next
or_refuse (some refusal) next = some refusal

-- `refuseHold`
unfoldable pub refuse_hold :
    CallState → LegMetadata → CallControlRequest → Option CallControlRefusal
unfolding refuse_unless_on_connected_call
refuse_hold s leg r =
    or_refuse (refuse_unless_on_connected_call s leg r)
      (if truthy s.pending_transfer_to_user_id then some transfer_pending else none)

-- A leg of the user's is on the call and not only ringing.
abbrev pub has_joined_leg : Text → List Text → Dict → Bool
has_joined_leg u pending [] = false
has_joined_leg u pending ((leg, w) ∷ legs) =
    (w == u && not (elem leg pending)) || has_joined_leg u pending legs

-- `refuseTransfer`
unfoldable pub refuse_transfer :
    CallState → LegMetadata → CallControlRequest → Text → Option CallControlRefusal
unfolding refuse_unless_on_connected_call
refuse_transfer s leg r target = or_refuse (refuse_unless_on_connected_call s leg r) (
    if truthy s.pending_transfer_to_user_id
    then some transfer_pending
    else if target == r.user_id
    then some transfer_to_self
    else if is s.active_agent_user_id target
        || has_joined_leg target s.pending_agent_leg_uuids s.agent_legs
    then some target_on_call
    else none)

-- `refuseTransferCancel`
unfoldable pub refuse_transfer_cancel :
    CallState → LegMetadata → CallControlRequest → Option CallControlRefusal
unfolding refuse_unless_on_connected_call
refuse_transfer_cancel s leg r = or_refuse (refuse_unless_on_connected_call s leg r) (
    if truthy s.pending_transfer_to_user_id && is s.transfer_initiated_by r.user_id
    then none
    else some no_transfer_pending)

pub data HangupPlan : Type 0 where
  end_call release_leg decline_transfer : HangupPlan

-- `planHangup`
unfoldable pub plan_hangup : CallState → CallControlRequest → HangupPlan
plan_hangup s r =
    if s.ending
    then end_call
    else if truthy s.pending_transfer_to_user_id
    then (if is s.pending_transfer_to_user_id r.user_id && not (is s.agent_leg_uuid r.leg_uuid)
        then decline_transfer
        else release_leg)
    else if s.answered
        && not (is s.agent_leg_uuid r.leg_uuid || is s.active_agent_user_id r.user_id)
    then release_leg
    else end_call

pub data TransferFailurePlan : Type 0 where
  return_to_agent leave_voicemail end_the_call : TransferFailurePlan

abbrev is_defined : Option Text → Bool
is_defined none = false
is_defined (some t) = true

-- `planTransferFailure`
unfoldable pub plan_transfer_failure : CallState → TransferFailurePlan
plan_transfer_failure s =
    if is_defined s.transfer_origin_leg_uuid && same s.agent_leg_uuid s.transfer_origin_leg_uuid
    then return_to_agent
    else if is_inbound s.direction && truthy s.caller_leg_uuid
    then leave_voicemail
    else end_the_call

-- `transferRefusalOf`
abbrev pub transfer_refusal_of : UnavailableReason → CallControlRefusal
transfer_refusal_of reason_busy = target_busy
transfer_refusal_of reason_dnd = target_dnd
transfer_refusal_of reason_offline = target_offline

-- `transferFailureReasonOf`
abbrev pub transfer_failure_reason_of : CallEndStatus → TransferFailureReason
transfer_failure_reason_of busy = declined
transfer_failure_reason_of no_answer = unanswered
transfer_failure_reason_of _ = unavailable

-- `IncomingCall`, less the name of the provider, which is always the same.
pub record IncomingCall : Type 0 where
  pub conversation_uuid : Text
  pub from : Text
  pub to : Text
  pub caller_id : Text
  pub routing_type : Option RoutingType
  pub department_id : Option Text
  pub department_name : Option Text
  pub user_id : Option Text
  pub user_name : Option Text
  pub transferred_by : Option Text

-- `callLine` (packages/dto/src/calls/call-parties.ts)
abbrev pub call_line : CallState → Text
call_line s = if is_inbound s.direction then s.to else s.from

-- The routing type of an offer, which an outbound call has none of.
abbrev pub offered_routing_type : RoutingType → Option RoutingType
offered_routing_type department = some department
offered_routing_type user = some user
offered_routing_type outbound_routing = none

-- `transferOfferOf`
unfoldable pub transfer_offer_of : CallState → Text → IncomingCall
transfer_offer_of s initiated_by =
    let customer = if is_outbound s.direction then s.to else s.from in
    record {
      conversation_uuid = s.conversation_uuid;
      from = customer;
      to = call_line s;
      caller_id = customer;
      routing_type = offered_routing_type s.routing_type;
      department_id = s.department_id;
      department_name = s.department_name;
      user_id = none;
      user_name = none;
      transferred_by = some initiated_by;
    }
