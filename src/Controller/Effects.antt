-- ===== src/Controller/Effects.antt =====
-- What the handlers of a call leave behind: hangups, claims, notices, and the events of the API
-- (packages/events/src/messages.ts, by way of apps/call-controller/src/calls/call-events.ts). The times
-- that the publisher stamps are left out.
use iziphone.Prelude.{ℕ, Option, List}
use iziphone.Domain.{Text, CallDirection, CallEndStatus, TransferFailureReason}
use iziphone.CallState.{CallParticipant, LegMetadata}
use iziphone.Routing.InboundPlan.{VoicemailReason}
use iziphone.ParticipantStatus.{ParticipantStatus, CallTimelineEventType}

pub record CallIncoming : Type 0 where
  pub conversation_uuid : Text
  pub from : Text
  pub to : Text
  pub direction : CallDirection
  pub caller_leg_uuid : Option Text
  pub agent_leg_uuid : Option Text
  pub department_id : Option Text
  pub user_id : Option Text

pub record CallStarted : Type 0 where
  pub conversation_uuid : Text
  pub from : Text
  pub to : Text
  pub user_id : Option Text
  pub department_id : Option Text
  pub direction : CallDirection
  pub agent_leg_uuid : Option Text
  pub external_leg_uuid : Option Text

pub record CallEnded : Type 0 where
  pub conversation_uuid : Text
  pub duration : ℕ
  pub status : CallEndStatus
  pub caller_leg_uuid : Option Text
  pub agent_leg_uuid : Option Text
  pub external_leg_uuid : Option Text

pub record CallMissed : Type 0 where
  pub conversation_uuid : Text
  pub from : Text
  pub to : Text
  pub department_id : Option Text
  pub user_id : Option Text

pub record CallTransferred : Type 0 where
  pub conversation_uuid : Text
  pub from_user_id : Text
  pub to_user_id : Text
  pub agent_leg_uuid : Option Text

pub record CallHold : Type 0 where
  pub conversation_uuid : Text
  pub user_id : Option Text
  pub leg_uuid : Option Text

pub record ParticipantStatusEvent : Type 0 where
  pub conversation_uuid : Text
  pub leg_uuid : Text
  pub participant : CallParticipant
  pub status : ParticipantStatus
  pub event_type : CallTimelineEventType
  pub duration : Option ℕ

-- `CallTransferOutcome` (packages/dto/src/socket/payloads.ts)
pub data TransferStatus : Type 0 where
  completed_transfer : TransferStatus
  failed_transfer : TransferFailureReason → TransferStatus

-- What voicemail and recordings are told apart by.
pub data RecordingContext : Type 0 where
  voicemail_recording conference_recording : RecordingContext

pub data Effect : Type 0 where
  hangs_up : Text → Effect
  lets_go : List Text → Effect
  occupies : List Text → Effect
  renews : List Text → Effect
  tracks : List Text → Effect
  tells : List Text → Text → TransferStatus → Effect
  redirects : Text → VoicemailReason → Effect
  describes : Text → LegMetadata → Effect
  forgets : List Text → Effect
  forgets_call : Effect
  incoming : CallIncoming → Effect
  started : CallStarted → Effect
  ended : CallEnded → Effect
  missed : CallMissed → Effect
  transferred : CallTransferred → Effect
  held : CallHold → Effect
  resumed : CallHold → Effect
  reports : ParticipantStatusEvent → Effect
  recording_ready : RecordingContext → Effect
