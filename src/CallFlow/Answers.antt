-- ===== src/CallFlow/Answers.antt =====
-- The writes of a leg that joins the conference (call-flow.ts: `decideAgentJoined`, and the writes of
-- `onParticipantJoined`).
pub mod Winners
use iziphone.Prelude.{
  ℕ, Bool, true, false, not, ◌&&◌, ◌||◌, Option, none, some, List, [], ◌∷◌, ◌==◌, if◌then◌else◌,
  filter, keys,
}
use iziphone.Domain.{Text, truthy, get_or, is, is_inbound, is_outbound}
use iziphone.CallState.{CallState}
use iziphone.CallStore.{CallStateChange}
use iziphone.CallFlow.Transfers.{changed, clear_transfer}

pub record TransferHandover : Type 0 where
  pub from_user_id : Text
  pub to_user_id : Text
  pub answered_leg_uuid : Text
  pub initiated_by : Option Text
  pub released_leg_uuids : List Text

pub data AgentJoin : Type 0 where
  intruder : AgentJoin
  joined : Bool → List Text → Option TransferHandover → AgentJoin

-- `previous !== undefined && previous !== agentUserId`
abbrev pub is_somebody_else : Option Text → Text → Bool
is_somebody_else none u = false
is_somebody_else (some previous) u = not (previous == u)

-- Somebody has this call, and it is not being handed to this agent.
abbrev pub is_intruder : CallState → Text → Bool
is_intruder s u =
    s.answered
    && (not (is s.pending_transfer_to_user_id u) && is_somebody_else s.active_agent_user_id u)

-- The handover that the leg of the teammate completes, from the agent who had the call.
abbrev pub handover_from : Option Text → CallState → Text → Text → Option TransferHandover
handover_from none s u leg = none
handover_from (some previous) s u leg =
    if is s.pending_transfer_to_user_id u && not (previous == 0)
    then some (record {
      from_user_id = get_or s.transfer_initiated_by previous;
      to_user_id = u;
      answered_leg_uuid = leg;
      initiated_by = s.transfer_initiated_by;
      released_leg_uuids = filter (λ other. not (other == leg)) (keys s.agent_legs);
    })
    else none

abbrev pub clear_if_handed_over : Option TransferHandover → CallState → CallState
clear_if_handed_over none s = s
clear_if_handed_over (some handover) s = clear_transfer s

-- The first answer of an inbound call.
abbrev pub is_first_answer : CallState → Bool
is_first_answer s = not s.answered && is_inbound s.direction

-- The agent talks on the call through the leg, which rings no more.
abbrev pub take_call : CallState → Text → Text → CallState
take_call s u leg = record s {
  agent_leg_uuid = some leg;
  active_agent_user_id = some u;
  pending_agent_leg_uuids = filter (λ p. not (p == leg)) s.pending_agent_leg_uuids;
}

abbrev pub answer_call : Bool → CallState → CallState
answer_call first s = if first then record s { answered = true } else s

-- `decideAgentJoined`
unfoldable pub decide_agent_joined : Text → Text → CallState → CallStateChange AgentJoin
decide_agent_joined u leg s =
    let transfer = handover_from s.active_agent_user_id s u leg in
    let first = is_first_answer s in
    let losing = if first then filter (λ other. not (other == leg)) (keys s.agent_legs) else [] in
    if is_intruder s u
    then changed intruder s
    else changed (joined first losing transfer)
        (answer_call first (clear_if_handed_over transfer (take_call s u leg)))

-- The write of a caller's leg that joined.
unfoldable pub join_caller : Text → CallState → CallStateChange (Unit {0})
join_caller leg s = changed tt (record s { caller_leg_uuid = some leg })

-- The write of an outside number's leg that joined, and whether it is the first answer.
unfoldable pub join_external : Text → CallState → CallStateChange Bool
join_external leg s =
    changed (not s.answered && is_outbound s.direction)
      (record s { answered = true; external_leg_uuid = some leg })
