-- ===== src/History.antt =====
-- The history that the API keeps of calls: a row per conversation and a timeline, from the events that
-- the controller publishes (apps/api/src/calls/call-event-subscriber.ts). The tables of the database are
-- lists, in the order of insertion.
pub mod Handlers
pub mod Rows
pub mod Consistent
pub mod Progress
pub mod Outcomes
use iziphone.Prelude.{
  ℕ, suc, Bool, true, false, Option, none, some, List, [], ◌∷◌, ◌++◌, ◌==◌, if◌then◌else◌, find,
  any,
}
use iziphone.Domain.{
  Text, or_else, CallDirection, inbound, outbound, CallEndStatus, completed, busy, canceled, failed,
  no_answer, CallParticipantType, caller, agent, external,
}
use iziphone.ParticipantStatus.{
  CallTimelineEventType, call_ringing, call_answered, call_completed, call_failed, call_canceled,
  call_no_answer, call_busy, dial_initiated,
}
use iziphone.Controller.Effects.{
  CallIncoming, CallStarted, CallEnded, CallMissed, CallTransferred, CallHold,
  ParticipantStatusEvent, RecordingContext, voicemail_recording, conference_recording,
}

-- `Call.status`
pub data CallRowStatus : Type 0 where
  is_ringing in_progress is_missed : CallRowStatus
  is_over : CallEndStatus → CallRowStatus

-- A row of `Call`.
pub record CallRow : Type 0 where
  pub id : ℕ
  pub conversation_uuid : Text
  pub caller_leg_uuid : Option Text
  pub agent_leg_uuid : Option Text
  pub external_leg_uuid : Option Text
  pub from : Text
  pub to : Text
  pub direction : CallDirection
  pub status : CallRowStatus
  pub duration : Option ℕ
  pub transcript : Option Text
  pub department_id : Option Text
  pub user_id : Option Text

pub data CallActorType : Type 0 where
  by_agent by_caller by_provider by_system : CallActorType

-- `CallEventType`: those of a leg's progress, and the others.
pub data CallEventType : Type 0 where
  progress : CallTimelineEventType → CallEventType
  call_transferred call_held call_resumed voicemail_completed : CallEventType
  recording_of : RecordingContext → CallEventType

-- `TimelineEntry`, but for the sentence and the metadata.
pub record TimelineEntry : Type 0 where
  pub call_id : ℕ
  pub event_type : CallEventType
  pub actor_type : CallActorType
  pub actor_id : Option Text

pub record History : Type 0 where
  pub rows : List CallRow
  pub next_id : ℕ
  pub timeline : List TimelineEntry

-- The legs that an event read of the row before it writes them: other events, which nobody waits for,
-- may have changed the row in between.
pub record ReadLegs : Type 0 where
  pub caller_leg_uuid : Option Text
  pub agent_leg_uuid : Option Text
  pub external_leg_uuid : Option Text

-- The events by their channels, an end and a transfer with the legs that they read. In a start, no user stands for the user 'unknown'. A recording carries
-- what `register` of the recording service answers of it.
pub data CallEvent : Type 0 where
  told_incoming : CallIncoming → CallEvent
  told_started : CallStarted → CallEvent
  told_ended : CallEnded → ReadLegs → CallEvent
  told_missed : CallMissed → CallEvent
  told_transferred : CallTransferred → ReadLegs → CallEvent
  told_held : CallHold → CallEvent
  told_resumed : CallHold → CallEvent
  told_status : ParticipantStatusEvent → CallEvent
  told_recording : Text → RecordingContext → Option Text → CallEvent
  told_transcription : Text → Text → RecordingContext → CallEvent
  told_migrated : Text → Text → CallEvent

-- The tables ------------------------------------------------------------------

abbrev pub is_of : Text → CallRow → Bool
is_of conversation row = row.conversation_uuid == conversation

-- `findCall`, and `findUnique`
abbrev pub find_call : Text → List CallRow → Option CallRow
find_call conversation = find (is_of conversation)

-- `update`, of the row with an id.
abbrev pub update_row : ℕ → (CallRow → CallRow) → List CallRow → List CallRow
update_row i f [] = []
update_row i f (row ∷ rows) = (if row.id == i then f row else row) ∷ update_row i f rows

-- The row of a conversation as an event begins it.
abbrev pub blank_row : ℕ → Text → Text → Text → CallDirection → CallRowStatus → CallRow
blank_row i conversation from to direction status = record {
  id = i;
  conversation_uuid = conversation;
  caller_leg_uuid = none;
  agent_leg_uuid = none;
  external_leg_uuid = none;
  from = from;
  to = to;
  direction = direction;
  status = status;
  duration = none;
  transcript = none;
  department_id = none;
  user_id = none;
}

-- What an event does to the rows, and the entry that it then adds.
pub record Change : Type 0 where
  pub after : History
  pub entry : Option TimelineEntry

abbrev pub entry_of : ℕ → CallEventType → CallActorType → Option Text → TimelineEntry
entry_of i event actor id = record {
  call_id = i;
  event_type = event;
  actor_type = actor;
  actor_id = id;
}

abbrev pub in_row : History → ℕ → (CallRow → CallRow) → History
in_row h i f = record h { rows = update_row i f h.rows }

abbrev pub upsert_found :
    History → (ℕ → CallRow) → (CallRow → CallRow) → (ℕ → TimelineEntry) → Option CallRow → Change
upsert_found h create update entry none = record {
  after = record h { rows = h.rows ++ (create h.next_id ∷ []); next_id = suc h.next_id };
  entry = some (entry h.next_id);
}
upsert_found h create update entry (some row) = record {
  after = in_row h row.id update;
  entry = some (entry row.id);
}

-- `upsert`, with the entry for the row's id.
abbrev pub upsert :
    History → Text → (ℕ → CallRow) → (CallRow → CallRow) → (ℕ → TimelineEntry) → Change
upsert h conversation create update entry =
    upsert_found h create update entry (find_call conversation h.rows)

abbrev pub with_found :
    History → (CallRow → CallRow) → (ℕ → Option TimelineEntry) → Option CallRow → Change
with_found h f entry none = record { after = h; entry = none }
with_found h f entry (some row) = record { after = in_row h row.id f; entry = entry row.id }

-- What is done with the row of a conversation, if there is one.
abbrev pub with_call : History → Text → (CallRow → CallRow) → (ℕ → Option TimelineEntry) → Change
with_call h conversation f entry = with_found h f entry (find_call conversation h.rows)

abbrev pub unchanged_row : CallRow → CallRow
unchanged_row row = row
