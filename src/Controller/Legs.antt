-- ===== src/Controller/Legs.antt =====
-- A leg that joins a call or is gone from it (apps/call-controller/src/calls/call-flow.ts:
-- `resolveParticipant`, `publishParticipantStatus`, `onParticipantJoined`, `onLegEnded`).
use iziphone.Prelude.{ℕ, Bool, true, false, Option, none, some, List, [], ◌∷◌, if◌then◌else◌}
use iziphone.Domain.{
  Text, or_else, get_or, outbound, CallEndStatus, CallParticipantType, caller, agent, external,
}
use iziphone.CallState.{CallState, CallParticipant, LegMetadata, participant_of_leg}
use iziphone.CallStore.{CallStateUpdate}
use iziphone.ParticipantStatus.{ParticipantStatus, participant_event_type, ended as ended_status}
use iziphone.Routing.InboundPlan.{routing_timeout}
use iziphone.CallFlow.Answers.{
  TransferHandover, AgentJoin, intruder, joined, decide_agent_joined, join_caller, join_external,
}
use iziphone.CallFlow.LegEnds.{
  LegEndPlan, ignored, forgotten, ended, ring_next, to_voicemail, transfer_fell_through,
  decide_leg_ended,
}
use iziphone.Controller.Effects.{CallStarted, started, reports}
use iziphone.Controller.Actions.{
  Outside, Act, pure, ◌>>=◌, ◌>>◌, get_leg, emit, hang_up, hang_up_all, change_call,
}
use iziphone.Controller.Teardown.{forget_legs, report_ended, route_caller_to_voicemail}
use iziphone.Controller.Transfers.{complete_transfer, fail_pending_transfer}
use iziphone.Controller.Rings.{ring_next_in_order}

-- Without a user, the code writes 'unknown'.
abbrev pub started_event : CallState → Option Text → Option Text → Option Text → CallStarted
started_event s user agent_leg external_leg = record {
  conversation_uuid = s.conversation_uuid;
  from = s.from;
  to = s.to;
  user_id = user;
  department_id = s.department_id;
  direction = s.direction;
  agent_leg_uuid = agent_leg;
  external_leg_uuid = external_leg;
}

module _ (o : Outside) where
  abbrev pub participant_known : CallState → Text → Option LegMetadata → Option CallParticipant
  participant_known s leg none = participant_of_leg s leg
  participant_known s leg (some metadata) = some metadata.participant

  -- `resolveParticipant`
  unfoldable pub resolve_participant :
      CallState → Text → Option CallParticipant → Act (Option CallParticipant)
  resolve_participant s leg (some labeled) = pure (some labeled)
  resolve_participant s leg none =
      get_leg o leg >>= λ metadata. pure (participant_known s leg metadata)

  -- `publishParticipantStatus`, but for the sentence.
  unfoldable pub publish_participant_status :
      CallState → Text → CallParticipant → ParticipantStatus → Option ℕ → Act (Unit {0})
  publish_participant_status s leg p status duration = emit o (
      reports (record {
        conversation_uuid = s.conversation_uuid;
        leg_uuid = leg;
        participant = p;
        status = status;
        event_type = participant_event_type p.participant_type status;
        duration = duration;
      }))

  -- Joining ------------------------------------------------------------------

  abbrev pub start_if : Bool → Text → Text → List Text → CallState → Act (Unit {0})
  start_if first u leg losing s =
      if first
      then emit o (started (started_event s (some u) (some leg) s.external_leg_uuid))
        >> hang_up_all o losing
      else pure tt

  abbrev pub complete_if : Text → Option TransferHandover → Act (Unit {0})
  complete_if conversation none = pure tt
  complete_if conversation (some transfer) = complete_transfer o conversation transfer

  abbrev pub follow_join : Text → Text → AgentJoin → CallState → Act (Unit {0})
  follow_join u leg intruder s = hang_up o leg
  follow_join u leg (joined first losing transfer) s =
      start_if first u leg losing s >> complete_if s.conversation_uuid transfer

  abbrev pub follow_joined : Text → Text → AgentJoin → Option CallState → Act (Unit {0})
  follow_joined u leg join none = pure tt
  follow_joined u leg join (some s) = follow_join u leg join s

  abbrev pub follow_agent : Text → Text → Option (CallStateUpdate AgentJoin) → Act (Unit {0})
  follow_agent u leg none = pure tt
  follow_agent u leg (some update) = follow_joined u leg update.result update.after

  abbrev pub start_outbound : Text → Bool → Option CallState → Act (Unit {0})
  start_outbound leg first none = pure tt
  start_outbound leg first (some s) =
      if first
      then emit o (
          started
            (record (started_event s (or_else s.active_agent_user_id s.target_user_id)
              s.agent_leg_uuid (some leg)) { direction = outbound }))
      else pure tt

  abbrev pub follow_external : Text → Option (CallStateUpdate Bool) → Act (Unit {0})
  follow_external leg none = pure tt
  follow_external leg (some update) = start_outbound leg update.result update.after

  abbrev pub ignore_update : Option (CallStateUpdate (Unit {0})) → Act (Unit {0})
  ignore_update update = pure tt

  abbrev pub join_as : CallParticipantType → Text → Text → Act (Unit {0})
  join_as caller id leg = change_call o (join_caller leg) >>= ignore_update
  join_as agent id leg = change_call o (decide_agent_joined id leg) >>= follow_agent id leg
  join_as external id leg = change_call o (join_external leg) >>= follow_external leg

  -- `onParticipantJoined`
  unfoldable pub on_participant_joined : CallParticipant → Text → Act (Unit {0})
  on_participant_joined p leg = join_as p.participant_type p.participant_id leg

  -- Leaving ------------------------------------------------------------------

  abbrev pub voicemail_unless : Bool → Act (Unit {0})
  voicemail_unless rung = if rung then pure tt else route_caller_to_voicemail o routing_timeout

  abbrev pub ignore_settled : Bool → Act (Unit {0})
  ignore_settled settled = pure tt

  abbrev pub follow_leg_end : LegEndPlan → CallEndStatus → Option ℕ → Act (Unit {0})
  follow_leg_end ignored status duration = pure tt
  follow_leg_end forgotten status duration = pure tt
  follow_leg_end (ended final legs) status duration =
      hang_up_all o legs >> report_ended o final status (get_or duration 0)
  follow_leg_end ring_next status duration = ring_next_in_order o >>= voicemail_unless
  follow_leg_end (to_voicemail reason) status duration = route_caller_to_voicemail o reason
  follow_leg_end (transfer_fell_through target reason) status duration =
      fail_pending_transfer o target (some reason) >>= ignore_settled

  abbrev pub is_ignored : LegEndPlan → Bool
  is_ignored ignored = true
  is_ignored _ = false

  abbrev pub follow_end :
      CallParticipant
      → Text
      → CallEndStatus
      → Option ℕ
      → Option (CallStateUpdate LegEndPlan)
      → Act (Unit {0})
  follow_end p leg status duration none = pure tt
  follow_end p leg status duration (some update) =
      if is_ignored update.result
      then pure tt
      else publish_participant_status update.before leg p (ended_status status) duration
        >> follow_leg_end update.result status duration

  -- `onLegEnded`
  unfoldable pub on_leg_ended : CallParticipant → Text → CallEndStatus → Option ℕ → Act (Unit {0})
  on_leg_ended p leg status duration =
      forget_legs o (leg ∷ [])
      >> (change_call o (decide_leg_ended p leg status) >>= follow_end p leg status duration)
