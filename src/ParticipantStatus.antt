-- ===== src/ParticipantStatus.antt =====
-- Leg progress as a carrier reports it and as the timeline records it
-- (apps/call-controller/src/calls/participant-status.ts).
use iziphone.Prelude.{Bool, true, false, ◌≡◌, Option, none, some, arith}
use iziphone.Domain.{
  CallEndStatus, completed, busy, canceled, failed, no_answer, CallParticipantType, caller, agent,
  external,
}

pub data ParticipantStatus : Type 0 where
  initiated ringing answered : ParticipantStatus
  ended : CallEndStatus → ParticipantStatus

-- The text of a status, as far as the code tells texts apart.
pub data StatusText : Type 0 where
  queued_text initiated_text ringing_text in_progress_text answered_text connected_text : StatusText
  busy_text canceled_text no_answer_text failed_text completed_text other_text : StatusText

-- `normalizeCallStatus`
unfoldable pub normalize_call_status : StatusText → Option ParticipantStatus
normalize_call_status queued_text = some initiated
normalize_call_status initiated_text = some initiated
normalize_call_status ringing_text = some ringing
normalize_call_status in_progress_text = some answered
normalize_call_status answered_text = some answered
normalize_call_status connected_text = some answered
normalize_call_status busy_text = some (ended busy)
normalize_call_status canceled_text = some (ended canceled)
normalize_call_status no_answer_text = some (ended no_answer)
normalize_call_status failed_text = some (ended failed)
normalize_call_status completed_text = some (ended completed)
normalize_call_status other_text = none

-- The text a normalized status is.
abbrev pub text_of : ParticipantStatus → StatusText
text_of initiated = initiated_text
text_of ringing = ringing_text
text_of answered = answered_text
text_of (ended completed) = completed_text
text_of (ended busy) = busy_text
text_of (ended canceled) = canceled_text
text_of (ended failed) = failed_text
text_of (ended no_answer) = no_answer_text

-- `isTerminalStatus`: `TERMINAL_STATUSES` lists every `CallEndStatus`.
unfoldable pub is_terminal_status : ParticipantStatus → Bool
is_terminal_status initiated = false
is_terminal_status ringing = false
is_terminal_status answered = false
is_terminal_status (ended status) = true

pub data CallTimelineEventType : Type 0 where
  call_initiated call_ringing call_answered call_completed : CallTimelineEventType
  call_failed call_canceled call_no_answer call_busy : CallTimelineEventType
  dial_initiated dial_answered dial_no_answer dial_busy dial_failed : CallTimelineEventType

abbrev pub is_dialed : CallParticipantType → Bool
is_dialed caller = false
is_dialed agent = true
is_dialed external = true

abbrev pub event_type : Bool → ParticipantStatus → CallTimelineEventType
event_type dialed initiated = elim dialed [ true ↦ dial_initiated | false ↦ call_initiated ]
event_type dialed ringing = call_ringing
event_type dialed answered = elim dialed [ true ↦ dial_answered | false ↦ call_answered ]
event_type dialed (ended busy) = elim dialed [ true ↦ dial_busy | false ↦ call_busy ]
event_type dialed (ended failed) = elim dialed [ true ↦ dial_failed | false ↦ call_failed ]
event_type dialed (ended no_answer) = elim dialed [ true ↦ dial_no_answer | false ↦ call_no_answer ]
event_type dialed (ended canceled) = call_canceled
event_type dialed (ended completed) = call_completed

-- `participantEventType`
unfoldable pub participant_event_type :
    CallParticipantType → ParticipantStatus → CallTimelineEventType
participant_event_type participant status = event_type (is_dialed participant) status

-- The status that a timeline entry tells of.
abbrev pub status_of : CallTimelineEventType → ParticipantStatus
status_of call_initiated = initiated
status_of dial_initiated = initiated
status_of call_ringing = ringing
status_of call_answered = answered
status_of dial_answered = answered
status_of call_completed = ended completed
status_of call_canceled = ended canceled
status_of call_failed = ended failed
status_of dial_failed = ended failed
status_of call_no_answer = ended no_answer
status_of dial_no_answer = ended no_answer
status_of call_busy = ended busy
status_of dial_busy = ended busy

-- The timeline loses nothing of the progress: whoever the participant is, the entry recorded for a
-- status tells which status it was.
pub participant_event_type_tells :
    (participant : CallParticipantType) (status : ParticipantStatus)
    → status_of (participant_event_type participant status) ≡ status
unfolding participant_event_type
participant_event_type_tells p s = ground arith

-- Every status that is recorded is the normal form of its own text.
pub normalize_call_status-text_of :
    (status : ParticipantStatus) → normalize_call_status (text_of status) ≡ some status
unfolding normalize_call_status
normalize_call_status-text_of s = ground arith
