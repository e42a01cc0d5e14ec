-- ===== src/Examples/Calls.antt =====
-- The calls that the examples are about. Users are 1, 2 and 3, their legs 21, 22 and 23; the caller's
-- leg is 11 and an outside number's 31.
use iziphone.Prelude.{ℕ, ◌+◌, true, false, none, some, [], ◌∷◌}
use iziphone.Domain.{inbound, department, agent, caller, external}
use iziphone.CallState.{CallState, CallParticipant, LegMetadata}
use iziphone.CallControl.{CallControlRequest}

abbrev pub name_of : ℕ → ℕ
name_of id = id + 1000

-- An inbound call that nobody was rung for yet.
abbrev pub begun : CallState
begun = record {
  version = 1;
  conversation_uuid = 11;
  conversation_name = 1011;
  conference_sid = none;
  direction = inbound;
  routing_type = department;
  from = 501;
  to = 601;
  department_id = some 7;
  department_name = some 8;
  target_user_id = none;
  target_user_name = none;
  active_agent_user_id = none;
  caller_leg_uuid = some 11;
  agent_leg_uuid = none;
  external_leg_uuid = none;
  agent_legs = [];
  pending_agent_leg_uuids = [];
  routing_queue = none;
  current_queue_index = none;
  ring_strategy = none;
  ring_duration = none;
  voicemail_greeting_url = none;
  answered = false;
  voicemail = false;
  held = none;
  pending_transfer_to_user_id = none;
  transfer_initiated_by = none;
  transfer_origin_leg_uuid = none;
  ending = false;
  ending_requested_at = none;
  ending_requested_by = none;
  created_at = 90;
}

-- Two agents ring.
abbrev pub rings_two : CallState
rings_two = record begun {
  agent_legs = (21, 1) ∷ (22, 2) ∷ [];
  pending_agent_leg_uuids = 21 ∷ 22 ∷ [];
}

-- User 1 talks with the caller.
abbrev pub talks : CallState
talks = record begun {
  answered = true;
  active_agent_user_id = some 1;
  agent_leg_uuid = some 21;
  agent_legs = (21, 1) ∷ [];
}

-- User 1 hands the call to user 2, whose leg rings.
abbrev pub hands_over : CallState
hands_over = record talks {
  pending_transfer_to_user_id = some 2;
  transfer_initiated_by = some 1;
  transfer_origin_leg_uuid = some 21;
  agent_legs = (21, 1) ∷ (22, 2) ∷ [];
  pending_agent_leg_uuids = 22 ∷ [];
}

abbrev pub agent_one : CallParticipant
agent_one = record { participant_type = agent; participant_id = 1 }

abbrev pub agent_two : CallParticipant
agent_two = record { participant_type = agent; participant_id = 2 }

abbrev pub the_caller : CallParticipant
the_caller = record { participant_type = caller; participant_id = 501 }

abbrev pub outside : CallParticipant
outside = record { participant_type = external; participant_id = 601 }

abbrev pub leg_of_one : LegMetadata
leg_of_one = record { participant = agent_one; conversation_uuid = 11 }

abbrev pub asked_by_one : CallControlRequest
asked_by_one = record { user_id = 1; leg_uuid = 21 }

abbrev pub asked_by_two : CallControlRequest
asked_by_two = record { user_id = 2; leg_uuid = 22 }
