-- ===== src/CallFlow/LegEnds.antt =====
-- A leg that is gone (call-flow.ts: `decideLegEnded`).
pub mod Reports
use iziphone.Prelude.{
  ℕ, zero, suc, ◌+◌, Bool, true, false, not, ◌&&◌, ◌||◌, Option, none, some, List, [], ◌∷◌, ◌==◌,
  if◌then◌else◌, filter, elem, values,
}
use iziphone.Domain.{
  Text, truthy, get_or, is, is_outbound, OpenHoursRoutingType, simultaneous, fixed_order,
  CallEndStatus, CallParticipantType, caller, agent, external, TransferFailureReason,
}
use iziphone.CallState.{CallState, CallParticipant, leg_uuids_of, has_active_legs, remove_leg}
use iziphone.CallControl.{transfer_failure_reason_of}
use iziphone.CallStore.{CallStateChange}
use iziphone.CallFlow.Transfers.{changed}
use iziphone.Routing.InboundPlan.{VoicemailReason, closed_hours_external, routing_timeout}

pub data LegEndPlan : Type 0 where
  ignored : LegEndPlan
  forgotten : LegEndPlan
  ended : CallState → List Text → LegEndPlan
  ring_next : LegEndPlan
  to_voicemail : VoicemailReason → LegEndPlan
  transfer_fell_through : Text → TransferFailureReason → LegEndPlan

-- The call is over: `final` is what it was left as.
abbrev pub end_with : CallState → List Text → CallStateChange LegEndPlan
end_with final hang_up = record { result = ended final hang_up; draft = final; remove = true }

abbrev pub is_fixed_order : Option OpenHoursRoutingType → Bool
is_fixed_order none = false
is_fixed_order (some simultaneous) = false
is_fixed_order (some fixed_order) = true

abbrev pub has_pending : List Text → Bool
has_pending [] = false
has_pending (leg ∷ legs) = true

-- The last leg that drops while a hangup is in progress ends the call. `s` is without the leg.
abbrev pub leg_ended_while_ending : CallState → CallStateChange LegEndPlan
leg_ended_while_ending s = if has_active_legs s then changed forgotten s else end_with s []

-- The leg of an outside number is gone.
abbrev pub external_leg_ended : CallState → CallStateChange LegEndPlan
external_leg_ended s =
    if is_outbound s.direction
    then end_with s (leg_uuids_of s)
    else if not s.answered && truthy s.caller_leg_uuid
    then changed (to_voicemail closed_hours_external) s
    else end_with s []

-- The leg of an agent is gone before anybody answered.
abbrev pub ring_ended : CallState → CallStateChange LegEndPlan
ring_ended s =
    if is_outbound s.direction
    then end_with s (leg_uuids_of s)
    else if is_fixed_order s.ring_strategy
    then changed ring_next
        (record s { current_queue_index = some (get_or s.current_queue_index 0 + 1) })
    else if has_pending s.pending_agent_leg_uuids
    then changed forgotten s
    else changed (to_voicemail routing_timeout) s

-- The leg of an agent is gone from an answered call.
abbrev pub agent_left : Bool → Text → CallEndStatus → CallState → CallStateChange LegEndPlan
agent_left was_active u status s =
    if was_active && not (truthy s.pending_transfer_to_user_id)
    then end_with s (leg_uuids_of s)
    else if is s.pending_transfer_to_user_id u && not (elem u (values s.agent_legs))
    then changed (transfer_fell_through u (transfer_failure_reason_of status)) s
    else changed forgotten s

-- The leg of somebody else than the caller is gone. `s` is without the leg.
abbrev pub other_leg_ended :
    Bool → CallParticipantType → Text → CallEndStatus → CallState → CallStateChange LegEndPlan
other_leg_ended was_active caller u status s = end_with s []
other_leg_ended was_active external u status s = external_leg_ended s
other_leg_ended was_active agent u status s =
    if not s.answered then ring_ended s else agent_left was_active u status s

abbrev pub is_caller : CallParticipantType → Bool
is_caller caller = true
is_caller agent = false
is_caller external = false

-- `decideLegEnded`
unfoldable pub decide_leg_ended :
    CallParticipant → Text → CallEndStatus → CallState → CallStateChange LegEndPlan
decide_leg_ended p leg status s =
    if not (elem leg (leg_uuids_of s))
    then changed ignored s
    else if s.ending
    then leg_ended_while_ending (remove_leg s leg)
    else if is_caller p.participant_type
    then end_with s (filter (λ other. not (other == leg)) (leg_uuids_of s))
    else other_leg_ended (is s.agent_leg_uuid leg) p.participant_type p.participant_id status
        (remove_leg s leg)
