-- ===== src/Controller/Once/Webhooks.antt =====
-- A webhook reports neither a start nor an end but through the legs it tells of
-- (apps/call-controller/src/calls/call-flow.ts).
use iziphone.Prelude.{ℕ, Option, none, some, List, [], ◌∷◌}
use iziphone.Domain.{Text}
use iziphone.CallState.{CallState, CallParticipant}
use iziphone.ParticipantStatus.{ParticipantStatus, ended as ended_status}
use iziphone.Controller.Effects.{RecordingContext, voicemail_recording, conference_recording}
use iziphone.Controller.Actions.{Outside}
use iziphone.Controller.Actions.Reports.{IsLasting, Keeps, Spends-bind, keeps_rules}
use iziphone.Controller.Once.Writes.{write_rules}
use iziphone.Controller.Once.Teardown.{Keeps-forget_legs, Keeps-finalize_call}
use iziphone.Controller.Webhooks.{
  ConferenceEvent, participant_join, participant_leave, other_event, ConferenceNotice,
  CallStatusNotice, conference_act, conference_on, conference_event_on, keep_reference,
  handle_conference_event, status_act, status_on, status_if_tracked, handle_call_status,
  end_with_voicemail, handle_recording_ready, let_go_crossed, renew_occupants, renew_state,
  renew_call, LegStatus, reconcile_legs,
}
use iziphone.Controller.Once.Legs.{
  Keeps-resolve_participant, Keeps-publish_participant_status, Keeps-on_participant_joined,
  Keeps-on_leg_ended,
}

module _ {o : Outside} (lasting : IsLasting o) where
  -- Webhooks -----------------------------------------------------------------

  Keeps-conference_act :
      (event : ConferenceEvent) (s : CallState) (leg : Text) (duration : Option ℕ)
      (p : Option CallParticipant)
      → Keeps (conference_act o event s leg duration p)
  Keeps-conference_act event s leg duration none = search keeps_rules
  Keeps-conference_act participant_join s leg duration (some p) =
      search (keeps_rules, Keeps-publish_participant_status, Keeps-on_participant_joined)
  Keeps-conference_act participant_leave s leg duration (some p) =
      search (keeps_rules, Keeps-on_leg_ended)
  Keeps-conference_act other_event s leg duration (some p) = search keeps_rules

  Keeps-conference_on :
      (notice : ConferenceNotice) (leg : Text) (s : Option CallState)
      → Keeps (conference_on o notice leg s)
  Keeps-conference_on notice leg none = search keeps_rules
  Keeps-conference_on notice leg (some s) =
      search (keeps_rules, Keeps-resolve_participant, Keeps-conference_act)

  Keeps-conference_event_on :
      (notice : ConferenceNotice) (event : ConferenceEvent) (leg : Option Text)
      → Keeps (conference_event_on o notice event leg)
  Keeps-conference_event_on notice other_event leg = search keeps_rules
  Keeps-conference_event_on notice participant_join none = search keeps_rules
  Keeps-conference_event_on notice participant_leave none = search keeps_rules
  Keeps-conference_event_on notice participant_join (some leg) =
      search (keeps_rules, Keeps-conference_on)
  Keeps-conference_event_on notice participant_leave (some leg) =
      search (keeps_rules, Keeps-conference_on)

  Keeps-keep_reference : (sid : Option Text) → Keeps (keep_reference o sid)
  Keeps-keep_reference none = search keeps_rules
  Keeps-keep_reference (some sid) = search (keeps_rules, write_rules)

  pub Keeps-handle_conference_event :
      (notice : ConferenceNotice) → Keeps (handle_conference_event o notice)
  unfolding handle_conference_event
  Keeps-handle_conference_event notice =
      search (keeps_rules, Keeps-keep_reference, Keeps-conference_event_on)

  Keeps-status_act :
      (status : ParticipantStatus) (s : CallState) (leg : Text) (duration : Option ℕ)
      (p : Option CallParticipant)
      → Keeps (status_act o status s leg duration p)
  Keeps-status_act status s leg duration none = search keeps_rules
  Keeps-status_act (ended_status status) s leg duration (some p) =
      search (keeps_rules, Keeps-forget_legs, Keeps-on_leg_ended)
  Keeps-status_act _ s leg duration (some p) =
      search (keeps_rules, Keeps-publish_participant_status)

  Keeps-status_on :
      (notice : CallStatusNotice) (status : ParticipantStatus) (s : Option CallState)
      → Keeps (status_on o notice status s)
  Keeps-status_on notice status none = search keeps_rules
  Keeps-status_on notice status (some s) =
      search (keeps_rules, Keeps-resolve_participant, Keeps-status_act)

  Keeps-status_if_tracked :
      (notice : CallStatusNotice) (status : Option ParticipantStatus)
      → Keeps (status_if_tracked o notice status)
  Keeps-status_if_tracked notice none = search keeps_rules
  Keeps-status_if_tracked notice (some status) = search (keeps_rules, Keeps-status_on)

  pub Keeps-handle_call_status : (notice : CallStatusNotice) → Keeps (handle_call_status o notice)
  unfolding handle_call_status
  Keeps-handle_call_status notice = Keeps-status_if_tracked notice _

  Keeps-end_with_voicemail : (context : RecordingContext) → Keeps (end_with_voicemail o context)
  Keeps-end_with_voicemail voicemail_recording = Keeps-finalize_call lasting _
  Keeps-end_with_voicemail conference_recording = search keeps_rules

  pub Keeps-handle_recording_ready :
      (context : Option RecordingContext) → Keeps (handle_recording_ready o context)
  unfolding handle_recording_ready
  Keeps-handle_recording_ready none = search keeps_rules
  Keeps-handle_recording_ready (some context) = search (keeps_rules, Keeps-end_with_voicemail)

  -- Claims -------------------------------------------------------------------

  Keeps-let_go_crossed : (s : CallState) (now : Option CallState) → Keeps (let_go_crossed o s now)
  Keeps-let_go_crossed s now = search keeps_rules

  Keeps-renew_occupants : (s : CallState) (users : List Text) → Keeps (renew_occupants o s users)
  Keeps-renew_occupants s [] = search keeps_rules
  Keeps-renew_occupants s (u ∷ users) = search (keeps_rules, Keeps-let_go_crossed)

  Keeps-renew_state : (s : Option CallState) → Keeps (renew_state o s)
  Keeps-renew_state none = search keeps_rules
  Keeps-renew_state (some s) = Keeps-renew_occupants s _

  pub Keeps-renew_call : Keeps (renew_call o)
  unfolding renew_call
  Keeps-renew_call = search (keeps_rules, Keeps-renew_state)

  pub Keeps-reconcile_legs : (legs : List LegStatus) → Keeps (reconcile_legs o legs)
  unfolding reconcile_legs
  Keeps-reconcile_legs [] = search keeps_rules
  Keeps-reconcile_legs (leg ∷ legs) =
      Spends-bind _ _ (search (keeps_rules, Keeps-handle_call_status))
        (λ _. Keeps-reconcile_legs legs)
