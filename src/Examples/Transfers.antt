-- ===== src/Examples/Transfers.antt =====
-- Transfers that are asked for, fail and complete.
use iziphone.Prelude.{◌≡◌, ◌≢◌, refl, none, some, true, false, not, ◌||◌, [], ◌∷◌, elem, arith}
use iziphone.Domain.{transfer_pending}
use iziphone.CallState.{remove_leg}
use iziphone.CallControl.{
  return_to_agent, end_call as end_plan, refuse_hold, refuse_transfer, refuse_transfer_cancel,
  refuse_unless_on_connected_call, plan_hangup, plan_transfer_failure,
}
use iziphone.CallFlow.Transfers.{changed, mark_transfer, fail_transfer}
use iziphone.CallFlow.Transfers.Settlement.{
  mark_transfer_locks, fail_transfer_settles, decide_agent_joined_settles,
  plan_transfer_failure-remove_leg,
}
use iziphone.CallFlow.Answers.{TransferHandover, intruder, joined, decide_agent_joined}
use iziphone.Examples.Calls.{talks, hands_over, leg_of_one, asked_by_one, asked_by_two}

is_marked : (mark_transfer leg_of_one asked_by_one 2 talks).result.refusal ≡ none
unfolding mark_transfer refuse_transfer refuse_unless_on_connected_call
is_marked = refl

mark_transfer_locks_example :
    let t = (mark_transfer leg_of_one asked_by_one 2 talks).draft in
    (refuse_hold t leg_of_one asked_by_one ≡ some transfer_pending)
    × (refuse_transfer t leg_of_one asked_by_one 3 ≡ some transfer_pending)
    × (refuse_transfer_cancel t leg_of_one asked_by_one ≡ none)
    × (plan_hangup t asked_by_two ≢ end_plan)
mark_transfer_locks_example =
    mark_transfer_locks leg_of_one asked_by_one asked_by_two 2 3 talks is_marked (λ h. ground arith)
      refl

fails_now : (fail_transfer 2 hands_over).result ≢ none
unfolding fail_transfer
fails_now h = ground arith

fail_transfer_settles_example :
    let t = (fail_transfer 2 hands_over).draft in
    ((fail_transfer 3 t).result ≡ none) × (decide_agent_joined 2 22 t ≡ changed intruder t)
fail_transfer_settles_example =
    fail_transfer_settles 2 3 2 22 1 hands_over fails_now refl refl (λ h. ground arith)

abbrev handover : TransferHandover
handover = record {
  from_user_id = 1;
  to_user_id = 2;
  answered_leg_uuid = 22;
  initiated_by = some 1;
  released_leg_uuids = 21 ∷ [];
}

completes : (decide_agent_joined 2 22 hands_over).result ≡ joined false [] (some handover)
unfolding decide_agent_joined
completes = refl

decide_agent_joined_settles_example :
    let t = (decide_agent_joined 2 22 hands_over).draft in
    ((fail_transfer 2 t).result ≡ none)
    × (t.active_agent_user_id ≡ some 2)
    × (t.agent_leg_uuid ≡ some 22)
    × (handover.to_user_id ≡ 2)
    × ((not hands_over.answered || t.answered) ≡ true)
    × (elem 22 handover.released_leg_uuids ≡ false)
decide_agent_joined_settles_example =
    decide_agent_joined_settles 2 22 2 false [] handover hands_over completes

plan_transfer_failure-remove_leg_example :
    plan_transfer_failure (remove_leg hands_over 21) ≢ return_to_agent
plan_transfer_failure-remove_leg_example = plan_transfer_failure-remove_leg hands_over 21 refl
