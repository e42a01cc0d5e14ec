-- ===== src/History/Handlers.antt =====
-- What the subscriber does with each event (apps/api/src/calls/call-event-subscriber.ts).
use iziphone.Prelude.{
  ℕ, Bool, true, false, Option, none, some, List, [], ◌∷◌, ◌++◌, ◌==◌, if◌then◌else◌,
}
use iziphone.Domain.{
  Text, or_else, CallDirection, inbound, outbound, CallEndStatus, completed, busy, canceled, failed,
  no_answer, CallParticipantType, caller, agent, external,
}
use iziphone.ParticipantStatus.{
  CallTimelineEventType, call_ringing, call_answered, call_completed, call_failed, call_canceled,
  call_no_answer, call_busy, dial_initiated,
}
use iziphone.Controller.Effects.{
  CallIncoming, CallStarted, CallEnded, CallMissed, CallTransferred, CallHold,
  ParticipantStatusEvent, RecordingContext, voicemail_recording, conference_recording,
}
use iziphone.History.{
  CallRow, CallActorType, TimelineEntry, History, ReadLegs, CallEvent, find_call, blank_row, Change,
  entry_of, upsert, with_call, unchanged_row, is_ringing, in_progress, is_missed, is_over, by_agent,
  by_caller, by_provider, by_system, progress, call_transferred, call_held, call_resumed,
  voicemail_completed, recording_of, told_incoming, told_started, told_ended, told_missed,
  told_transferred, told_held, told_resumed, told_status, told_recording, told_transcription,
  told_migrated,
}

abbrev pub is_outbound_call : CallDirection → Bool
is_outbound_call inbound = false
is_outbound_call outbound = true

-- `END_STATUS_EVENT`
unfoldable pub end_status_event : CallEndStatus → CallTimelineEventType
end_status_event completed = call_completed
end_status_event busy = call_busy
end_status_event canceled = call_canceled
end_status_event failed = call_failed
end_status_event no_answer = call_no_answer

abbrev pub incoming_row : CallIncoming → ℕ → CallRow
incoming_row e i = record (blank_row i e.conversation_uuid e.from e.to e.direction is_ringing) {
  caller_leg_uuid = e.caller_leg_uuid;
  agent_leg_uuid = e.agent_leg_uuid;
  department_id = e.department_id;
  user_id = e.user_id;
}

abbrev pub incoming_update : CallIncoming → CallRow → CallRow
incoming_update e row = record row {
  caller_leg_uuid = or_else e.caller_leg_uuid row.caller_leg_uuid;
  agent_leg_uuid = or_else e.agent_leg_uuid row.agent_leg_uuid;
  from = e.from;
  to = e.to;
  direction = e.direction;
  department_id = e.department_id;
  user_id = e.user_id;
}

abbrev pub incoming_entry : CallIncoming → ℕ → TimelineEntry
incoming_entry e i =
    entry_of i (progress (if is_outbound_call e.direction then dial_initiated else call_ringing))
      (if is_outbound_call e.direction then by_agent else by_caller)
      (if is_outbound_call e.direction then e.user_id else some e.from)

-- `onCallIncoming`. The status of a call that has a row already stays.
unfoldable pub on_call_incoming : CallIncoming → History → Change
on_call_incoming e h =
    upsert h e.conversation_uuid (incoming_row e) (incoming_update e) (incoming_entry e)

abbrev pub started_row : CallStarted → ℕ → CallRow
started_row e i = record (blank_row i e.conversation_uuid e.from e.to e.direction in_progress) {
  user_id = e.user_id;
  department_id = e.department_id;
  agent_leg_uuid = e.agent_leg_uuid;
  external_leg_uuid = e.external_leg_uuid;
}

abbrev pub started_update : CallStarted → CallRow → CallRow
started_update e row = record row {
  status = in_progress;
  user_id = e.user_id;
  department_id = or_else e.department_id row.department_id;
  agent_leg_uuid = or_else e.agent_leg_uuid row.agent_leg_uuid;
  external_leg_uuid = or_else e.external_leg_uuid row.external_leg_uuid;
}

abbrev pub started_entry : CallStarted → ℕ → TimelineEntry
started_entry e i = entry_of i (progress call_answered) by_agent e.user_id

-- `onCallStarted`
unfoldable pub on_call_started : CallStarted → History → Change
on_call_started e h =
    upsert h e.conversation_uuid (started_row e) (started_update e) (started_entry e)

abbrev pub ended_update : CallEnded → ReadLegs → CallRow → CallRow
ended_update e existing row = record row {
  status = is_over e.status;
  duration = some e.duration;
  caller_leg_uuid = or_else e.caller_leg_uuid existing.caller_leg_uuid;
  agent_leg_uuid = or_else e.agent_leg_uuid existing.agent_leg_uuid;
  external_leg_uuid = or_else e.external_leg_uuid existing.external_leg_uuid;
}

abbrev pub ended_entry : CallEnded → ℕ → Option TimelineEntry
ended_entry e i = some (entry_of i (progress (end_status_event e.status)) by_provider none)

-- `onCallEnded`
unfoldable pub on_call_ended : CallEnded → ReadLegs → History → Change
on_call_ended e existing h =
    with_call h e.conversation_uuid (ended_update e existing) (ended_entry e)

abbrev pub missed_row : CallMissed → ℕ → CallRow
missed_row e i = record (blank_row i e.conversation_uuid e.from e.to inbound is_missed) {
  department_id = e.department_id;
  user_id = e.user_id;
}

abbrev pub missed_update : CallMissed → CallRow → CallRow
missed_update e row = record row { status = is_missed }

abbrev pub missed_entry : CallMissed → ℕ → TimelineEntry
missed_entry e i = entry_of i (progress call_no_answer) by_system none

-- `onCallMissed`
unfoldable pub on_call_missed : CallMissed → History → Change
on_call_missed e h = upsert h e.conversation_uuid (missed_row e) (missed_update e) (missed_entry e)

abbrev pub transferred_update : CallTransferred → ReadLegs → CallRow → CallRow
transferred_update e existing row = record row {
  user_id = some e.to_user_id;
  agent_leg_uuid = or_else e.agent_leg_uuid existing.agent_leg_uuid;
}

abbrev pub transferred_entry : CallTransferred → ℕ → Option TimelineEntry
transferred_entry e i = some (entry_of i call_transferred by_agent (some e.from_user_id))

-- `onCallTransferred`
unfoldable pub on_call_transferred : CallTransferred → ReadLegs → History → Change
on_call_transferred e existing h =
    with_call h e.conversation_uuid (transferred_update e existing) (transferred_entry e)

abbrev pub actor_of_hold : Option Text → CallActorType
actor_of_hold none = by_system
actor_of_hold (some u) = if u == 0 then by_system else by_agent

abbrev pub hold_entry : CallHold → Bool → ℕ → Option TimelineEntry
hold_entry e held i =
    some (entry_of i (if held then call_held else call_resumed) (actor_of_hold e.user_id) e.user_id)

-- `onHoldChanged`
unfoldable pub on_hold_changed : CallHold → Bool → History → Change
on_hold_changed e held h = with_call h e.conversation_uuid unchanged_row (hold_entry e held)

abbrev pub actor_of : CallParticipantType → CallActorType
actor_of caller = by_caller
actor_of agent = by_agent
actor_of external = by_provider

abbrev pub status_entry : ParticipantStatusEvent → ℕ → Option TimelineEntry
status_entry e i = some (
    entry_of i (progress e.event_type) (actor_of e.participant.participant_type)
      (some e.participant.participant_id))

-- `onParticipantStatus`, of an event type that the database has.
unfoldable pub on_participant_status : ParticipantStatusEvent → History → Change
on_participant_status e h = with_call h e.conversation_uuid unchanged_row (status_entry e)

abbrev pub recording_entry : RecordingContext → Option Text → ℕ → Option TimelineEntry
recording_entry context none i = none
recording_entry context (some sid) i = some (entry_of i (recording_of context) by_provider none)

-- `onRecordingReady`, up to the copy.
unfoldable pub on_recording_ready : Text → RecordingContext → Option Text → History → Change
on_recording_ready conversation context registered h =
    with_call h conversation unchanged_row (recording_entry context registered)

abbrev pub transcription_entry : RecordingContext → ℕ → Option TimelineEntry
transcription_entry voicemail_recording i = some (entry_of i voicemail_completed by_provider none)
transcription_entry conference_recording i = none

abbrev pub transcript_update : Text → CallRow → CallRow
transcript_update transcript row = record row { transcript = some transcript }

-- `onTranscriptionReady`
unfoldable pub on_transcription_ready : Text → Text → RecordingContext → History → Change
on_transcription_ready conversation transcript context h =
    with_call h conversation (transcript_update transcript) (transcription_entry context)

-- `updateMany`, of the rows of a conversation.
abbrev pub rename : Text → Text → List CallRow → List CallRow
rename previous conversation [] = []
rename previous conversation (row ∷ rows) =
    (if row.conversation_uuid == previous
      then record row { conversation_uuid = conversation }
      else row)
    ∷ rename previous conversation rows

abbrev pub migrate_unless : Text → Text → History → Option CallRow → Change
migrate_unless previous conversation h (some row) = record { after = h; entry = none }
migrate_unless previous conversation h none = record {
  after = record h { rows = rename previous conversation h.rows };
  entry = none;
}

-- `onConversationMigrated`
unfoldable pub on_conversation_migrated : Text → Text → History → Change
on_conversation_migrated previous conversation h =
    migrate_unless previous conversation h (find_call conversation h.rows)

unfoldable pub change_of : CallEvent → History → Change
change_of (told_incoming e) h = on_call_incoming e h
change_of (told_started e) h = on_call_started e h
change_of (told_ended e existing) h = on_call_ended e existing h
change_of (told_missed e) h = on_call_missed e h
change_of (told_transferred e existing) h = on_call_transferred e existing h
change_of (told_held e) h = on_hold_changed e true h
change_of (told_resumed e) h = on_hold_changed e false h
change_of (told_status e) h = on_participant_status e h
change_of (told_recording conversation context registered) h =
    on_recording_ready conversation context registered h
change_of (told_transcription conversation transcript context) h =
    on_transcription_ready conversation transcript context h
change_of (told_migrated previous conversation) h = on_conversation_migrated previous conversation h

-- Which write of an event fails, if one does.
pub data Failure : Type 0 where
  no_failure row_fails entry_fails : Failure

abbrev pub add_entry : Failure → Change → History → History
add_entry row_fails c h = h
add_entry entry_fails c h = c.after
add_entry no_failure c h = add c.entry
  where
    add : Option TimelineEntry → History
    add none = c.after
    add (some entry) = record c.after { timeline = c.after.timeline ++ (entry ∷ []) }

-- `handle`: an event that fails is dropped, with what it had written.
unfoldable pub receive : Failure → CallEvent → History → History
unfolding change_of
receive failure e h = add_entry failure (change_of e h) h

unfoldable pub receive_all : List (Failure × CallEvent) → History → History
receive_all [] h = h
receive_all ((failure, e) ∷ es) h = receive_all es (receive failure e h)
