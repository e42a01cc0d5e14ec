-- ===== src/Controller/Teardown.antt =====
-- Ending a call, and voicemail (apps/call-controller/src/calls/call-flow.ts: `endCall`,
-- `voicemailInsteadOfRinging`, `routeCallerToVoicemail`, `finalize`, `reportEnded`).
use iziphone.Prelude.{ℕ, Bool, not, Option, none, some, List, [], ◌∷◌, if◌then◌else◌}
use iziphone.Domain.{Text, truthy, CallEndStatus}
use iziphone.CallState.{CallState, leg_uuids_of}
use iziphone.CallStore.{CallStateUpdate}
use iziphone.Routing.InboundPlan.{VoicemailReason}
use iziphone.CallFlow.Transfers.{end_call}
use iziphone.CallFlow.Teardown.{voicemail_instead, route_to_voicemail, finalize, MovedToVoicemail}
use iziphone.Controller.Effects.{CallEnded, CallMissed, ended, missed, resumed, redirects, forgets}
use iziphone.Controller.Actions.{
  Outside, Act, pure, ◌>>=◌, ◌>>◌, ask_now, emit, hang_up_all, change_call,
}
use iziphone.Controller.Twilio.{hangup_conversation, recorded, itself}

abbrev pub ended_event : CallState → CallEndStatus → ℕ → CallEnded
ended_event s status duration = record {
  conversation_uuid = s.conversation_uuid;
  duration = duration;
  status = status;
  caller_leg_uuid = s.caller_leg_uuid;
  agent_leg_uuid = s.agent_leg_uuid;
  external_leg_uuid = s.external_leg_uuid;
}

abbrev pub missed_event : CallState → CallMissed
missed_event s = record {
  conversation_uuid = s.conversation_uuid;
  from = s.from;
  to = s.to;
  department_id = s.department_id;
  user_id = s.target_user_id;
}

module _ (o : Outside) where
  -- `deleteLegMetadata`
  unfoldable pub forget_legs : List Text → Act (Unit {0})
  forget_legs [] = pure tt
  forget_legs (leg ∷ legs) = emit o (forgets (leg ∷ legs))

  -- `reportEnded`
  unfoldable pub report_ended : CallState → CallEndStatus → ℕ → Act (Unit {0})
  report_ended s status duration =
      emit o (ended (ended_event s status duration)) >> forget_legs (leg_uuids_of s)

  abbrev pub report_removed : CallEndStatus → Option (CallStateUpdate (Unit {0})) → Act (Unit {0})
  report_removed status none = pure tt
  report_removed status (some update) = report_ended update.before status 0

  -- `finalize`
  unfoldable pub finalize_call : CallEndStatus → Act (Unit {0})
  finalize_call status = change_call o finalize >>= report_removed status

  abbrev pub hang_up_ending : Option (CallStateUpdate (Unit {0})) → Act (Option CallState)
  hang_up_ending none = pure none
  hang_up_ending (some update) = hangup_conversation o >> pure update.after

  -- `endCall`
  unfoldable pub end_the_call : Option Text → Act (Option CallState)
  end_the_call by = ask_now o >>= λ now. change_call o (end_call now by) >>= hang_up_ending

  abbrev pub report_missed_unless : Bool → CallState → Act (Unit {0})
  report_missed_unless answered s = if answered then pure tt else emit o (missed (missed_event s))

  abbrev pub report_resumed_if : Bool → CallState → Text → Act (Unit {0})
  report_resumed_if was_held s leg =
      if was_held
      then emit o (
          resumed (record {
            conversation_uuid = s.conversation_uuid;
            user_id = none;
            leg_uuid = some leg;
          }))
      else pure tt

  -- The caller's leg is redirected once the others are hung up and the timeline is told.
  abbrev pub move_leg :
      VoicemailReason → MovedToVoicemail → CallState → Option Text → Act (Unit {0})
  move_leg reason moved s none = pure tt
  move_leg reason moved s (some leg) =
      if not (truthy (some leg))
      then pure tt
      else hang_up_all o moved.hang_up_leg_uuids
        >> report_missed_unless s.answered s
        >> report_resumed_if moved.was_held s leg
        >> emit o (redirects leg reason)

  abbrev pub move_out :
      VoicemailReason → Option MovedToVoicemail → Option CallState → Act (Unit {0})
  move_out reason none after = pure tt
  move_out reason (some moved) none = pure tt
  move_out reason (some moved) (some s) = move_leg reason moved s s.caller_leg_uuid

  abbrev pub move_caller :
      VoicemailReason → Option (CallStateUpdate (Option MovedToVoicemail)) → Act (Unit {0})
  move_caller reason none = pure tt
  move_caller reason (some update) = move_out reason update.result update.after

  -- `routeCallerToVoicemail`. The redirect tolerates a leg that has ended.
  unfoldable pub route_caller_to_voicemail : VoicemailReason → Act (Unit {0})
  route_caller_to_voicemail reason = change_call o route_to_voicemail >>= move_caller reason

  abbrev pub report_missed_if : CallState → Bool → Act (Unit {0})
  report_missed_if s b = if b then emit o (missed (missed_event s)) else pure tt

  -- `voicemailInsteadOfRinging`, but for the words of its answer.
  unfoldable pub voicemail_instead_of_ringing : CallState → Act (Unit {0})
  voicemail_instead_of_ringing s =
      change_call o voicemail_instead >>= λ u. report_missed_if s (recorded itself u)
