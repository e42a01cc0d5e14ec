-- ===== src/Controller/Once/Teardown.antt =====
-- The end of a call is reported by whoever removed it (apps/call-controller/src/calls/call-flow.ts:
-- `endCall`, `voicemailInsteadOfRinging`, `routeCallerToVoicemail`, `finalize`, `reportEnded`).
use iziphone.Prelude.{ℕ, Option, none, some, List, [], ◌∷◌, arith}
use iziphone.Domain.{Text, CallEndStatus}
use iziphone.CallState.{CallState}
use iziphone.CallStore.{CallStateUpdate, state_after}
use iziphone.Routing.InboundPlan.{VoicemailReason}
use iziphone.CallFlow.Teardown.{finalize, MovedToVoicemail}
use iziphone.Controller.Effects.{ended}
use iziphone.Controller.Actions.{Outside}
use iziphone.Controller.Actions.Reports.{
  IsLasting, Keeps, Spends, Saves, Spends-bind, Spends-emit, Keeps-pure, ended_count, started_count,
  keeps_rules,
}
use iziphone.Controller.Actions.Reports.Changes.{Keeps-change}
use iziphone.Controller.Once.Writes.{write_rules}
use iziphone.Controller.Once.Twilio.{Keeps-hangup_conversation}
use iziphone.Controller.Teardown.{
  forget_legs, report_ended, ended_event, finalize_call, hang_up_ending, end_the_call, move_leg,
  move_out, move_caller, route_caller_to_voicemail, voicemail_instead_of_ringing,
}

module _ {o : Outside} (lasting : IsLasting o) where
  pub Keeps-forget_legs : (legs : List Text) → Keeps (forget_legs o legs)
  unfolding forget_legs
  Keeps-forget_legs [] = search keeps_rules
  Keeps-forget_legs (leg ∷ legs) = search keeps_rules

  pub Spends-report_ended :
      (s : CallState) (status : CallEndStatus) (duration : ℕ)
      → Spends 1 0 (report_ended o s status duration)
  unfolding report_ended ended_count started_count
  Spends-report_ended s status duration =
      Spends-bind _ _ (Spends-emit o (ended (ended_event s status duration)))
        (λ _. Keeps-forget_legs _)

  -- Whoever removes the call has the report of its end.
  pub Saves-end : (s : CallState) → Saves 1 0 s none
  Saves-end s = record { of_end = omega arith; of_start = ground arith }

  pub Keeps-finalize_call : (status : CallEndStatus) → Keeps (finalize_call o status)
  unfolding finalize_call finalize state_after
  Keeps-finalize_call status = Keeps-change o lasting finalize _ (Keeps-pure tt) (λ s. record {
    ends = 1;
    starts = 0;
    saves = Saves-end s;
    spends = Spends-report_ended s status 0;
  })

  Keeps-hang_up_ending : (u : Option (CallStateUpdate (Unit {0}))) → Keeps (hang_up_ending o u)
  Keeps-hang_up_ending none = search keeps_rules
  Keeps-hang_up_ending (some u) = search (keeps_rules, Keeps-hangup_conversation)

  pub Keeps-end_the_call : (by : Option Text) → Keeps (end_the_call o by)
  unfolding end_the_call
  Keeps-end_the_call by = search (keeps_rules, write_rules, Keeps-hang_up_ending)

  Keeps-move_leg :
      (reason : VoicemailReason) (moved : MovedToVoicemail) (s : CallState) (leg : Option Text)
      → Keeps (move_leg o reason moved s leg)
  Keeps-move_leg reason moved s none = search keeps_rules
  Keeps-move_leg reason moved s (some leg) = search keeps_rules depth 8

  Keeps-move_out :
      (reason : VoicemailReason) (moved : Option MovedToVoicemail) (after : Option CallState)
      → Keeps (move_out o reason moved after)
  Keeps-move_out reason none after = search keeps_rules
  Keeps-move_out reason (some moved) none = search keeps_rules
  Keeps-move_out reason (some moved) (some s) = Keeps-move_leg reason moved s s.caller_leg_uuid

  Keeps-move_caller :
      (reason : VoicemailReason) (u : Option (CallStateUpdate (Option MovedToVoicemail)))
      → Keeps (move_caller o reason u)
  Keeps-move_caller reason none = search keeps_rules
  Keeps-move_caller reason (some u) = Keeps-move_out reason u.result u.after

  pub Keeps-route_caller_to_voicemail :
      (reason : VoicemailReason) → Keeps (route_caller_to_voicemail o reason)
  unfolding route_caller_to_voicemail
  Keeps-route_caller_to_voicemail reason = search (keeps_rules, write_rules, Keeps-move_caller)

  pub Keeps-voicemail_instead_of_ringing :
      (s : CallState) → Keeps (voicemail_instead_of_ringing o s)
  unfolding voicemail_instead_of_ringing
  Keeps-voicemail_instead_of_ringing s = search (keeps_rules, write_rules)
