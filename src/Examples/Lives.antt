-- ===== src/Examples/Lives.antt =====
-- Calls over several writes.
use iziphone.Prelude.{◌≡◌, refl, some, true, List, [], ◌∷◌}
use iziphone.Domain.{no_answer}
use iziphone.CallState.{CallState}
use iziphone.CallStore.{state_after, after_change, is_unchanged, CallState-discrete}
use iziphone.CallFlow.Transfers.{record_hold}
use iziphone.CallFlow.Answers.{decide_agent_joined}
use iziphone.CallFlow.Writes.{
  Write, holds, agent_joins, leg_ends, registers, apply, run, not_routed, first_state,
}
use iziphone.CallFlow.Invariant.{AfterIsValid}
use iziphone.CallFlow.Invariant.Preserved.{run_first-AfterIsValid}
use iziphone.CallFlow.Ownership.{HandsOver, apply-HandsOver, run_keeps_agent}
use iziphone.CallFlow.Continuity.{Continues, IsSameOrLater, run-Continues}
use iziphone.Examples.Calls.{name_of, talks, hands_over, agent_two}

abbrev life : List Write
life = registers ((21, 1) ∷ (22, 2) ∷ []) ∷ agent_joins 1 21 ∷ leg_ends agent_two 22 no_answer ∷ []

run_first-AfterIsValid_example :
    AfterIsValid (run life (some (first_state (not_routed name_of 11 501 601 90))))
run_first-AfterIsValid_example = run_first-AfterIsValid (not_routed name_of 11 501 601 90) life

abbrev on_hold : CallState
on_hold = record talks { version = 2; held = some true }

held_run : run (agent_joins 1 21 ∷ holds true ∷ []) (some talks) ≡ some on_hold
unfolding run apply state_after after_change is_unchanged CallState-discrete record_hold
    decide_agent_joined
held_run = refl

run_keeps_agent_example : (on_hold.answered ≡ true) × (on_hold.active_agent_user_id ≡ some 1)
run_keeps_agent_example =
    run_keeps_agent (agent_joins 1 21 ∷ holds true ∷ []) talks on_hold 1 refl refl refl refl
      held_run

run-Continues_example : Continues talks on_hold × IsSameOrLater talks on_hold
run-Continues_example = run-Continues (agent_joins 1 21 ∷ holds true ∷ []) talks on_hold held_run

abbrev handed_over : CallState
handed_over = record talks {
  version = 2;
  active_agent_user_id = some 2;
  agent_leg_uuid = some 22;
  agent_legs = (21, 1) ∷ (22, 2) ∷ [];
}

second_joins : apply (agent_joins 2 22) hands_over ≡ some handed_over
unfolding apply state_after after_change is_unchanged CallState-discrete decide_agent_joined
second_joins = refl

apply-HandsOver_example : HandsOver hands_over handed_over 1
apply-HandsOver_example =
    apply-HandsOver (agent_joins 2 22) hands_over handed_over 1 refl refl second_joins
