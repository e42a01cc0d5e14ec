-- ===== src/CallFlow/Writes.antt =====
-- The life of a call as a sequence of writes: what `createCallState` stores when it begins
-- (call-flow.ts: `startOutboundCall`, `acceptInboundCall`), and every write that a webhook, a
-- softphone request or the ringing of an agent makes to it afterwards, in any order.
use iziphone.Prelude.{ℕ, Bool, true, false, Option, none, some, List, [], ◌∷◌, Dict}
use iziphone.Domain.{Text, inbound, outbound, department, outbound_routing, CallEndStatus}
use iziphone.CallState.{CallState, CallParticipant, LegMetadata}
use iziphone.CallControl.{CallControlRequest}
use iziphone.CallStore.{state_after}
use iziphone.Routing.InboundPlan.{CachedRouting, InboundCallPlan, ring}
use iziphone.Routing.OutboundGrant.{OutboundCallGrant}
use iziphone.CallFlow.Transfers.{end_call, record_hold, mark_transfer, fail_transfer}
use iziphone.CallFlow.Answers.{decide_agent_joined, join_caller, join_external}
use iziphone.CallFlow.LegEnds.{decide_leg_ended}
use iziphone.CallFlow.Teardown.{voicemail_instead, route_to_voicemail, finalize}
use iziphone.CallFlow.Ringing.{
  take_turn, register_agent_legs, record_external_leg, ensure_conference_reference,
}

-- `conversationNameFor`, which puts a prefix before the id, is a parameter of the call's begin.
abbrev pub Naming : Type 0
Naming = Text → Text

-- The first state of a call that an agent dials (`startOutboundCall`).
unfoldable pub outbound_call : Naming → Text → OutboundCallGrant → Text → CallState
outbound_call name call_sid grant now = record {
  version = 1;
  conversation_uuid = call_sid;
  conversation_name = name call_sid;
  conference_sid = none;
  direction = outbound;
  routing_type = outbound_routing;
  from = grant.from_number;
  to = grant.to;
  department_id = grant.department_id;
  department_name = grant.department_name;
  target_user_id = some grant.user_id;
  target_user_name = none;
  active_agent_user_id = some grant.user_id;
  caller_leg_uuid = none;
  agent_leg_uuid = some call_sid;
  external_leg_uuid = none;
  agent_legs = (call_sid, grant.user_id) ∷ [];
  pending_agent_leg_uuids = [];
  routing_queue = none;
  current_queue_index = none;
  ring_strategy = none;
  ring_duration = none;
  voicemail_greeting_url = none;
  answered = false;
  voicemail = false;
  held = none;
  pending_transfer_to_user_id = none;
  transfer_initiated_by = none;
  transfer_origin_leg_uuid = none;
  ending = false;
  ending_requested_at = none;
  ending_requested_by = none;
  created_at = now;
}

-- The first state of a call to a number with no routing (`acceptInboundCall`).
unfoldable pub unrouted_call : Naming → Text → Text → Text → Text → CallState
unrouted_call name call_sid from to now = record {
  version = 1;
  conversation_uuid = call_sid;
  conversation_name = name call_sid;
  conference_sid = none;
  direction = inbound;
  routing_type = department;
  from = from;
  to = to;
  department_id = none;
  department_name = none;
  target_user_id = none;
  target_user_name = none;
  active_agent_user_id = none;
  caller_leg_uuid = some call_sid;
  agent_leg_uuid = none;
  external_leg_uuid = none;
  agent_legs = [];
  pending_agent_leg_uuids = [];
  routing_queue = none;
  current_queue_index = none;
  ring_strategy = none;
  ring_duration = none;
  voicemail_greeting_url = none;
  answered = false;
  voicemail = true;
  held = none;
  pending_transfer_to_user_id = none;
  transfer_initiated_by = none;
  transfer_origin_leg_uuid = none;
  ending = false;
  ending_requested_at = none;
  ending_requested_by = none;
  created_at = now;
}

-- The first state of a call to a routed number (`acceptInboundCall`), by its plan and its greeting.
unfoldable pub routed_call :
    Naming → Text → Text → Text → Text → CachedRouting → InboundCallPlan → Option Text → CallState
unfolding unrouted_call
routed_call name call_sid from to now routed plan greeting =
    record (unrouted_call name call_sid from to now) {
      voicemail = false;
      routing_type = routed.type;
      department_id = routed.department_id;
      department_name = routed.department_name;
      target_user_id = routed.user_id;
      target_user_name = routed.user_name;
      routing_queue = elim plan [ ring r ↦ some r.user_ids | _ ↦ none ];
      current_queue_index = some 0;
      ring_strategy = elim plan [ ring r ↦ some r.strategy | _ ↦ none ];
      ring_duration = elim routed.settings [
        | none ↦ none
        | some settings ↦ some settings.ring_duration
      ];
      voicemail_greeting_url = greeting;
    }

-- A write to a call that exists.
pub data Write : Type 0 where
  ends : Text → Option Text → Write
  holds : Bool → Write
  transfers : LegMetadata → CallControlRequest → Text → Write
  fails : Text → Write
  agent_joins : Text → Text → Write
  caller_joins : Text → Write
  external_joins : Text → Write
  leg_ends : CallParticipant → Text → CallEndStatus → Write
  goes_to_voicemail : Write
  moves_to_voicemail : Write
  finalizes : Write
  takes_turn : ℕ → Write
  registers : Dict → Write
  dials_external : Text → Write
  references : Text → Write

-- What a write leaves, `none` when the call is over.
unfoldable pub apply : Write → CallState → Option CallState
unfolding state_after
apply (ends now by) s = state_after s (end_call now by s)
apply (holds held) s = state_after s (record_hold held s)
apply (transfers leg r target) s = state_after s (mark_transfer leg r target s)
apply (fails target) s = state_after s (fail_transfer target s)
apply (agent_joins u leg) s = state_after s (decide_agent_joined u leg s)
apply (caller_joins leg) s = state_after s (join_caller leg s)
apply (external_joins leg) s = state_after s (join_external leg s)
apply (leg_ends p leg status) s = state_after s (decide_leg_ended p leg status s)
apply goes_to_voicemail s = state_after s (voicemail_instead s)
apply moves_to_voicemail s = state_after s (route_to_voicemail s)
apply finalizes s = state_after s (finalize s)
apply (takes_turn index) s = state_after s (take_turn index s)
apply (registers legs) s = state_after s (register_agent_legs legs s)
apply (dials_external leg) s = state_after s (record_external_leg leg s)
apply (references sid) s = state_after s (ensure_conference_reference sid s)

abbrev pub apply_to : Write → Option CallState → Option CallState
apply_to w none = none
apply_to w (some s) = apply w s

-- The writes of a life, in order. None of them brings a call back.
unfoldable pub run : List Write → Option CallState → Option CallState
run [] s = s
run (w ∷ ws) s = run ws (apply_to w s)

-- How a call begins.
pub data Begin : Type 0 where
  dialed : Naming → Text → OutboundCallGrant → Text → Begin
  not_routed : Naming → Text → Text → Text → Text → Begin
  routed :
      Naming → Text → Text → Text → Text → CachedRouting → InboundCallPlan → Option Text → Begin

abbrev pub first_state : Begin → CallState
first_state (dialed name call_sid grant now) = outbound_call name call_sid grant now
first_state (not_routed name call_sid from to now) = unrouted_call name call_sid from to now
first_state (routed name call_sid from to now entry plan greeting) =
    routed_call name call_sid from to now entry plan greeting
