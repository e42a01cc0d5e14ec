-- ===== src/CallState.antt =====
-- What the controller remembers about a live call
-- (apps/call-controller/src/calls/call-state.ts): the state and the functions of it.
pub mod Legs
pub mod Occupancy
use iziphone.Prelude.{
  ℕ, Bool, true, false, not, Option, none, some, List, [], ◌∷◌, ◌++◌, ◌==◌, if◌then◌else◌, filter,
  elem, unique, Dict, keys, lookup, erase,
}
use iziphone.Domain.{
  Text, truthy, is, CallDirection, RoutingType, OpenHoursRoutingType, CallParticipantType, caller,
  agent, external,
}

pub record CallParticipant : Type 0 where
  pub participant_type : CallParticipantType
  pub participant_id : Text

pub record LegMetadata : Type 0 where
  pub participant : CallParticipant
  pub open participant use *
  pub conversation_uuid : Text

pub record CallState : Type 0 where
  pub version : ℕ
  pub conversation_uuid : Text
  pub conversation_name : Text
  pub conference_sid : Option Text
  pub direction : CallDirection
  pub routing_type : RoutingType
  pub from : Text
  pub to : Text
  pub department_id : Option Text
  pub department_name : Option Text
  pub target_user_id : Option Text
  pub target_user_name : Option Text
  pub active_agent_user_id : Option Text
  pub caller_leg_uuid : Option Text
  pub agent_leg_uuid : Option Text
  pub external_leg_uuid : Option Text
  pub agent_legs : Dict
  pub pending_agent_leg_uuids : List Text
  pub routing_queue : Option (List Text)
  pub current_queue_index : Option ℕ
  pub ring_strategy : Option OpenHoursRoutingType
  pub ring_duration : Option ℕ
  pub voicemail_greeting_url : Option Text
  pub answered : Bool
  pub voicemail : Bool
  pub held : Option Bool
  pub pending_transfer_to_user_id : Option Text
  pub transfer_initiated_by : Option Text
  pub transfer_origin_leg_uuid : Option Text
  pub ending : Bool
  pub ending_requested_at : Option Text
  pub ending_requested_by : Option Text
  pub created_at : Text

-- The strings of a list that are not blank.
abbrev pub present : List Text → List Text
present = filter (λ t. not (t == 0))

abbrev pub present_option : Option Text → List Text
present_option none = []
present_option (some t) = present (t ∷ [])

-- `legUuidsOf`. Blanks are dropped before the set is formed, which gives the same list.
unfoldable pub leg_uuids_of : CallState → List Text
leg_uuids_of s = unique (
    present_option s.caller_leg_uuid
    ++ (present_option s.agent_leg_uuid
        ++ (present_option s.external_leg_uuid
            ++ (present (keys s.agent_legs) ++ present s.pending_agent_leg_uuids))))

abbrev pub is_empty : List Text → Bool
is_empty [] = true
is_empty (x ∷ xs) = false

-- `hasActiveLegs`
unfoldable pub has_active_legs : CallState → Bool
has_active_legs s = not (is_empty (leg_uuids_of s))

-- The users of the legs of `legs` that satisfy `p`.
abbrev pub users_where : (Text → Bool) → Dict → List Text
users_where p [] = []
users_where p ((leg, user_id) ∷ legs) =
    if p leg then user_id ∷ users_where p legs else users_where p legs

-- The users whose legs are listed, blanks and legs of nobody left out.
abbrev pub users_of_legs : Dict → List Text → List Text
users_of_legs legs [] = []
users_of_legs legs (leg ∷ pending) = present_option (lookup leg legs) ++ users_of_legs legs pending

-- `occupantsOf`
unfoldable pub occupants_of : CallState → List Text
occupants_of s =
    if s.voicemail
    then []
    else unique (
        present_option (if truthy s.agent_leg_uuid then s.active_agent_user_id else none)
        ++ (present (users_where (λ leg. not (elem leg s.pending_agent_leg_uuids)) s.agent_legs)
            ++ ((if s.answered then [] else users_of_legs s.agent_legs s.pending_agent_leg_uuids)
                ++ present_option s.pending_transfer_to_user_id)))

-- The same of a call that may have ended.
abbrev pub occupants_after : Option CallState → List Text
occupants_after none = []
occupants_after (some s) = occupants_of s

abbrev pub legs_after : Option CallState → Dict
legs_after none = []
legs_after (some s) = s.agent_legs

-- The users who had a leg on the call that is no longer there.
abbrev pub users_losing_leg : CallState → Option CallState → List Text
users_losing_leg before after =
    users_where (λ leg. not (elem leg (keys (legs_after after)))) before.agent_legs

-- `usersLetGo`
pub users_let_go : CallState → Option CallState → List Text
users_let_go before after =
    filter (λ u. not (elem u (occupants_after after)))
      (unique (occupants_of before ++ users_losing_leg before after))

-- A field that holds the leg is forgotten.
abbrev pub forget : Option Text → Text → Option Text
forget field leg = if is field leg then none else field

-- `removeLeg`
unfoldable pub remove_leg : CallState → Text → CallState
remove_leg s leg = record s {
  agent_legs = erase leg s.agent_legs;
  pending_agent_leg_uuids = filter (λ p. not (p == leg)) s.pending_agent_leg_uuids;
  caller_leg_uuid = forget s.caller_leg_uuid leg;
  agent_leg_uuid = forget s.agent_leg_uuid leg;
  external_leg_uuid = forget s.external_leg_uuid leg;
  transfer_origin_leg_uuid = forget s.transfer_origin_leg_uuid leg;
}

abbrev agent_participant : Option Text → Option CallParticipant
agent_participant none = none
agent_participant (some u) =
    if u == 0 then none else some (record { participant_type = agent; participant_id = u })

-- `participantOfLeg`
pub participant_of_leg : CallState → Text → Option CallParticipant
participant_of_leg s leg =
    if is s.caller_leg_uuid leg
    then some (record { participant_type = caller; participant_id = s.from })
    else if is s.external_leg_uuid leg
    then some (record { participant_type = external; participant_id = s.to })
    else agent_participant (lookup leg s.agent_legs)
