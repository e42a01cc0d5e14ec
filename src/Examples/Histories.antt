-- ===== src/Examples/Histories.antt =====
-- The history of a call that is told of late, twice and under an old name.
use iziphone.Prelude.{◌≡◌, refl, none, some, List, [], ◌∷◌}
use iziphone.Domain.{inbound, completed}
use iziphone.Controller.Effects.{
  CallIncoming, CallStarted, CallEnded, CallHold, voicemail_recording,
}
use iziphone.History.{
  CallRow, is_over, in_progress, History, ReadLegs, CallEvent, told_incoming, told_started,
  told_ended, told_held, told_transcription, told_migrated, find_call,
}
use iziphone.History.Handlers.{
  Failure, no_failure, row_fails, entry_fails, receive_all, receive, change_of, on_call_incoming,
  on_call_started, on_call_ended,
}
use iziphone.History.Rows.{IsConsistent}
use iziphone.History.Consistent.{receive_all-IsConsistent}
use iziphone.History.Progress.{row_with}
use iziphone.History.Outcomes.{IsLater, receive_all_keeps, receive_end_stays}

abbrev no_history : History
no_history = record { rows = []; next_id = 1; timeline = [] }

no_history-IsConsistent : IsConsistent no_history
no_history-IsConsistent = record {
  one_row_each = tt;
  one_id_each = tt;
  ids_given = refl;
  entries_of_rows = refl;
}

abbrev arrives : CallIncoming
arrives = record {
  conversation_uuid = 11;
  from = 501;
  to = 601;
  direction = inbound;
  caller_leg_uuid = some 11;
  agent_leg_uuid = none;
  department_id = some 7;
  user_id = none;
}

abbrev is_answered : CallStarted
is_answered = record {
  conversation_uuid = 11;
  from = 501;
  to = 601;
  user_id = some 1;
  department_id = some 7;
  direction = inbound;
  agent_leg_uuid = some 21;
  external_leg_uuid = none;
}

abbrev ends : CallEnded
ends = record {
  conversation_uuid = 11;
  duration = 42;
  status = completed;
  caller_leg_uuid = some 11;
  agent_leg_uuid = none;
  external_leg_uuid = none;
}

-- The legs as they were before the call was answered.
abbrev read_early : ReadLegs
read_early = record { caller_leg_uuid = some 11; agent_leg_uuid = none; external_leg_uuid = none }

abbrev holds : CallHold
holds = record { conversation_uuid = 11; user_id = none; leg_uuid = some 11 }

abbrev answered_call : List (Failure × CallEvent)
answered_call =
    (no_failure, told_incoming arrives)
    ∷ (entry_fails, told_incoming arrives)
    ∷ (row_fails, told_ended ends read_early)
    ∷ (no_failure, told_started is_answered)
    ∷ []

abbrev answered : History
answered = receive_all answered_call no_history

abbrev later : List (Failure × CallEvent)
later =
    (entry_fails, told_held holds)
    ∷ (no_failure, told_migrated 11 12)
    ∷ (no_failure, told_transcription 12 999 voicemail_recording)
    ∷ []

receive_all-IsConsistent_example : IsConsistent answered
receive_all-IsConsistent_example =
    receive_all-IsConsistent answered_call no_history no_history-IsConsistent

abbrev answered_row : CallRow
answered_row = record {
  id = 1;
  conversation_uuid = 11;
  caller_leg_uuid = some 11;
  agent_leg_uuid = some 21;
  external_leg_uuid = none;
  from = 501;
  to = 601;
  direction = inbound;
  status = in_progress;
  duration = none;
  transcript = none;
  department_id = some 7;
  user_id = some 1;
}

answered_has_row : find_call 11 answered.rows ≡ some answered_row
unfolding receive_all receive change_of on_call_incoming on_call_started on_call_ended
answered_has_row = refl

answered_has_id : row_with 1 answered.rows ≡ some answered_row
unfolding receive_all receive change_of on_call_incoming on_call_started on_call_ended
answered_has_id = refl

receive_all_keeps_example :
    (s : CallRow) × (row_with 1 (receive_all later answered).rows ≡ some s) × IsLater answered_row s
receive_all_keeps_example = receive_all_keeps later answered 1 answered_row answered_has_id

receive_end_stays_example :
    (s : CallRow) × (row_with 1
        (receive_all ((no_failure, told_ended ends read_early) ∷ later) answered).rows
      ≡ some s)
    × (s.status ≡ is_over completed)
    × (s.duration ≡ some 42)
receive_end_stays_example =
    receive_end_stays ends read_early later answered answered_row receive_all-IsConsistent_example
      answered_has_row refl
