-- ===== src/Controller/Webhooks.antt =====
-- What Twilio's webhooks do (apps/call-controller/src/calls/call-flow.ts: `handleConferenceEvent`,
-- `handleCallStatus`, `handleRecordingReady`), and the renewal of a call's claims (`renewCall`,
-- `reconcileCall`).
use iziphone.Prelude.{
  ℕ, Bool, true, false, not, ◌&&◌, ◌||◌, Option, none, some, List, [], ◌∷◌, ◌==◌, if◌then◌else◌,
  elem,
}
use iziphone.Domain.{Text, completed, CallParticipantType, caller, agent, external}
use iziphone.CallState.{CallState, CallParticipant, leg_uuids_of, occupants_of, users_let_go}
use iziphone.ParticipantStatus.{
  ParticipantStatus, StatusText, normalize_call_status, ended as ended_status, answered,
}
use iziphone.CallFlow.Ringing.{ensure_conference_reference}
use iziphone.Controller.Effects.{
  describes, renews, forgets_call, RecordingContext, voicemail_recording, conference_recording,
  recording_ready,
}
use iziphone.Controller.Actions.{
  Outside, Act, pure, ◌>>=◌, ◌>>◌, get_call, emit, let_go, update_call,
}
use iziphone.Controller.Twilio.{metadata_of}
use iziphone.Controller.Teardown.{forget_legs, finalize_call}
use iziphone.Controller.Legs.{
  resolve_participant, publish_participant_status, ignore_update, on_participant_joined,
  on_leg_ended,
}

-- `ConferenceNotice`: `participant-join`, `participant-leave` and the events that are not acted on. The
-- participant is the one that the label names, if it names one.
pub data ConferenceEvent : Type 0 where
  participant_join participant_leave other_event : ConferenceEvent

pub record ConferenceNotice : Type 0 where
  pub conference_sid : Option Text
  pub event : ConferenceEvent
  pub leg_uuid : Option Text
  pub participant : Option CallParticipant
  pub duration : Option ℕ

-- `CallStatusNotice`
pub record CallStatusNotice : Type 0 where
  pub leg_uuid : Text
  pub participant : Option CallParticipant
  pub status : StatusText
  pub duration : Option ℕ

-- What Twilio says of a leg.
pub record LegStatus : Type 0 where
  pub leg_uuid : Text
  pub status : StatusText
  pub duration : Option ℕ

abbrev pub is_terminal : Option ParticipantStatus → Bool
is_terminal (some (ended_status status)) = true
is_terminal _ = false

abbrev pub notice_of : LegStatus → CallStatusNotice
notice_of leg = record {
  leg_uuid = leg.leg_uuid;
  participant = none;
  status = leg.status;
  duration = leg.duration;
}

module _ (o : Outside) where
  -- Webhooks -----------------------------------------------------------------

  abbrev pub is_caller_type : CallParticipantType → Bool
  is_caller_type caller = true
  is_caller_type agent = false
  is_caller_type external = false

  abbrev pub conference_act :
      ConferenceEvent → CallState → Text → Option ℕ → Option CallParticipant → Act (Unit {0})
  conference_act event s leg duration none = pure tt
  conference_act participant_join s leg duration (some p) =
      emit o (describes leg (metadata_of s p))
      >> publish_participant_status o s leg p answered none
      >> on_participant_joined o p leg
  conference_act participant_leave s leg duration (some p) =
      if not (elem leg (leg_uuids_of s))
        || (is_caller_type p.participant_type && (s.voicemail && not s.ending))
      then pure tt
      else on_leg_ended o p leg completed duration
  conference_act other_event s leg duration (some p) = pure tt

  abbrev pub conference_on : ConferenceNotice → Text → Option CallState → Act (Unit {0})
  conference_on notice leg none = pure tt
  conference_on notice leg (some s) =
      resolve_participant o s leg notice.participant
      >>= conference_act notice.event s leg notice.duration

  abbrev pub conference_event_on : ConferenceNotice → ConferenceEvent → Option Text → Act (Unit {0})
  conference_event_on notice other_event leg = pure tt
  conference_event_on notice event none = pure tt
  conference_event_on notice event (some leg) =
      if leg == 0 then pure tt else get_call o >>= conference_on notice leg

  abbrev pub keep_reference : Option Text → Act (Unit {0})
  keep_reference none = pure tt
  keep_reference (some sid) =
      if sid == 0
      then pure tt
      else update_call o (ensure_conference_reference sid) >>= ignore_update o

  -- `handleConferenceEvent`
  unfoldable pub handle_conference_event : ConferenceNotice → Act (Unit {0})
  handle_conference_event notice =
      keep_reference notice.conference_sid
      >> conference_event_on notice notice.event notice.leg_uuid

  abbrev pub status_act :
      ParticipantStatus → CallState → Text → Option ℕ → Option CallParticipant → Act (Unit {0})
  status_act status s leg duration none = pure tt
  status_act (ended_status status) s leg duration (some p) =
      if not (elem leg (leg_uuids_of s))
      then forget_legs o (leg ∷ [])
      else on_leg_ended o p leg status duration
  status_act status s leg duration (some p) = publish_participant_status o s leg p status duration

  abbrev pub status_on : CallStatusNotice → ParticipantStatus → Option CallState → Act (Unit {0})
  status_on notice status none = pure tt
  status_on notice status (some s) =
      resolve_participant o s notice.leg_uuid notice.participant
      >>= status_act status s notice.leg_uuid notice.duration

  abbrev pub status_if_tracked : CallStatusNotice → Option ParticipantStatus → Act (Unit {0})
  status_if_tracked notice none = pure tt
  status_if_tracked notice (some status) = get_call o >>= status_on notice status

  -- `handleCallStatus`
  unfoldable pub handle_call_status : CallStatusNotice → Act (Unit {0})
  handle_call_status notice = status_if_tracked notice (normalize_call_status notice.status)

  abbrev pub end_with_voicemail : RecordingContext → Act (Unit {0})
  end_with_voicemail voicemail_recording = finalize_call o completed
  end_with_voicemail conference_recording = pure tt

  -- `handleRecordingReady`, by the context of the recording if there is one.
  unfoldable pub handle_recording_ready : Option RecordingContext → Act (Unit {0})
  handle_recording_ready none = pure tt
  handle_recording_ready (some context) =
      emit o (recording_ready context) >> end_with_voicemail context

  -- Claims -------------------------------------------------------------------

  abbrev pub has_version : ℕ → Option CallState → Bool
  has_version version none = false
  has_version version (some s) = s.version == version

  abbrev pub let_go_crossed : CallState → Option CallState → Act (Unit {0})
  let_go_crossed s now =
      if has_version s.version now then pure tt else let_go o (users_let_go s now)

  abbrev pub renew_occupants : CallState → List Text → Act (Unit {0})
  renew_occupants s [] = pure tt
  renew_occupants s (u ∷ users) = emit o (renews (u ∷ users)) >> get_call o >>= let_go_crossed s

  abbrev pub renew_state : Option CallState → Act (Unit {0})
  renew_state none = emit o forgets_call
  renew_state (some s) = renew_occupants s (occupants_of s)

  -- `renewCall`
  unfoldable pub renew_call : Act (Unit {0})
  renew_call = get_call o >>= renew_state

  -- The legs of `reconcileCall`, one at a time, with Twilio's answers about them.
  unfoldable pub reconcile_legs : List LegStatus → Act (Unit {0})
  reconcile_legs [] = pure tt
  reconcile_legs (leg ∷ legs) =
      (if is_terminal (normalize_call_status leg.status)
        then handle_call_status (notice_of leg)
        else pure tt)
      >> reconcile_legs legs
