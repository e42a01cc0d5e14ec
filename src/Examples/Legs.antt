-- ===== src/Examples/Legs.antt =====
-- Legs that ring, join and end.
use iziphone.Prelude.{
  ◌≡◌, refl, inl, none, some, true, false, not, ◌&&◌, ◌||◌, [], ◌∷◌, ◌==◌, elem, arith,
  if◌then◌else◌,
}
use iziphone.Domain.{is, completed, no_answer}
use iziphone.CallState.{CallState, remove_leg, leg_uuids_of, users_let_go}
use iziphone.CallState.Legs.{without}
use iziphone.CallState.Occupancy.{is_occupied, is_occupied_after, lost_leg, elem-users_let_go}
use iziphone.CallFlow.Transfers.{changed}
use iziphone.CallFlow.LegEnds.{decide_leg_ended, ignored}
use iziphone.CallFlow.LegEnds.Reports.{
  hung_up, leg_uuids_of-decide_leg_ended, decide_leg_ended_again, decide_leg_ended_hangs_up,
}
use iziphone.CallFlow.Answers.{decide_agent_joined, intruder, joined, is_intruder}
use iziphone.CallFlow.Answers.Winners.{decide_agent_joined_twice, first_answer_releases}
use iziphone.CallFlow.Teardown.{MovedToVoicemail, route_to_voicemail}
use iziphone.CallFlow.Teardown.Emptied.{route_to_voicemail_empties}
use iziphone.CallFlow.Invariant.{IsValid}
use iziphone.Examples.Calls.{rings_two, talks, hands_over, agent_one, agent_two, the_caller}

leg_of_two : elem 22 (leg_uuids_of rings_two) ≡ true
unfolding leg_uuids_of
leg_of_two = refl

rings_on : (decide_leg_ended agent_two 22 no_answer rings_two).remove ≡ false
unfolding decide_leg_ended leg_uuids_of remove_leg
rings_on = refl

leg_uuids_of-decide_leg_ended_example :
    leg_uuids_of (decide_leg_ended agent_two 22 no_answer rings_two).draft
    ≡ without 22 (leg_uuids_of rings_two)
leg_uuids_of-decide_leg_ended_example =
    leg_uuids_of-decide_leg_ended agent_two 22 no_answer rings_two leg_of_two rings_on

decide_leg_ended_again_example :
    let t = (decide_leg_ended agent_two 22 no_answer rings_two).draft in
    decide_leg_ended the_caller 22 completed t
    ≡ record { result = ignored; draft = t; remove = false }
decide_leg_ended_again_example =
    decide_leg_ended_again agent_two the_caller 22 no_answer completed rings_two leg_of_two rings_on

abbrev ends_soon : CallState
ends_soon = record rings_two { ending = true }

leg_of_ending : elem 22 (leg_uuids_of ends_soon) ≡ true
unfolding leg_uuids_of
leg_of_ending = refl

agent_ends : (decide_leg_ended agent_one 21 completed talks).remove ≡ true
unfolding decide_leg_ended leg_uuids_of remove_leg
agent_ends = refl

decide_leg_ended_hangs_up_example :
    hung_up (decide_leg_ended agent_one 21 completed talks).result ≡ without 21 (leg_uuids_of talks)
decide_leg_ended_hangs_up_example =
    decide_leg_ended_hangs_up agent_one 21 completed talks refl agent_ends refl

elem-users_let_go_example : elem 2 (users_let_go hands_over (some talks)) ≡ (
    (is_occupied hands_over 2 || lost_leg hands_over (some talks) 2)
    && not (is_occupied_after (some talks) 2))
elem-users_let_go_example = elem-users_let_go hands_over (some talks) 2

decide_agent_joined_twice_example :
    let t = (decide_agent_joined 1 21 rings_two).draft in
    decide_agent_joined 1 21 t
    ≡ changed (if is_intruder rings_two 1 then intruder else joined false [] none) t
decide_agent_joined_twice_example = decide_agent_joined_twice 1 21 rings_two refl

first_answer_releases_example :
    elem 2 (users_let_go rings_two (some (decide_agent_joined 1 21 rings_two).draft)) ≡ true
first_answer_releases_example =
    first_answer_releases 1 21 2 rings_two refl refl (λ h. ground arith) refl refl refl refl

talks-IsValid : IsValid talks
talks-IsValid = record {
  transfer = inl (record { no_target = refl; no_initiator = refl; no_origin = refl });
  legs = record { recorded_once = (refl, tt); rings_once = tt; rings_recorded = tt };
}

abbrev moved : MovedToVoicemail
moved = record { hang_up_leg_uuids = 21 ∷ []; was_held = false }

moves : (route_to_voicemail talks).result ≡ some moved
unfolding route_to_voicemail
moves = refl

route_to_voicemail_empties_example :
    let t = (route_to_voicemail talks).draft in
    (elem 21 (leg_uuids_of talks) ≡ (
      (is talks.caller_leg_uuid 21 && not (21 == 0))
      || (elem 21 moved.hang_up_leg_uuids && not (21 == 0))))
    × (elem 21 (leg_uuids_of t) ≡ (is talks.caller_leg_uuid 21 && not (21 == 0)))
    × (elem 1 (users_let_go talks (some t)) ≡ (is_occupied talks 1 || lost_leg talks (some t) 1))
    × ((route_to_voicemail t).result ≡ none)
route_to_voicemail_empties_example =
    route_to_voicemail_empties talks moved 21 1 talks-IsValid refl moves
