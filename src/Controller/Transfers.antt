-- ===== src/Controller/Transfers.antt =====
-- Holds and transfers settled (apps/call-controller/src/calls/call-flow.ts: `setHold`, `recordHold`,
-- `resumeAfterTransfer`, `tellTransferOutcome`, `failPendingTransfer`, `completeTransfer`).
use iziphone.Prelude.{Bool, true, false, Option, none, some, List, ◌++◌, if◌then◌else◌}
use iziphone.Domain.{Text, TransferFailureReason}
use iziphone.CallState.{CallState, present_option}
use iziphone.CallStore.{CallStateUpdate}
use iziphone.CallControl.{
  TransferFailurePlan, return_to_agent, leave_voicemail, end_the_call as plan_end, remote_leg_of,
}
use iziphone.Routing.InboundPlan.{routing_timeout}
use iziphone.CallFlow.Transfers.{record_hold, fail_transfer, SettledTransfer}
use iziphone.CallFlow.Answers.{TransferHandover}
use iziphone.Controller.Effects.{
  CallHold, held, resumed, tells, TransferStatus, completed_transfer, failed_transfer, transferred,
}
use iziphone.Controller.Actions.{
  Outside, Act, pure, ◌>>=◌, ◌>>◌, tolerate, emit, hang_up_all, change_call,
}
use iziphone.Controller.Twilio.{hold_conversation}
use iziphone.Controller.Teardown.{route_caller_to_voicemail, end_the_call}

abbrev pub hold_event : CallState → Option Text → CallHold
hold_event s by = record {
  conversation_uuid = s.conversation_uuid;
  user_id = by;
  leg_uuid = remote_leg_of s;
}

module _ (o : Outside) where
  abbrev pub tell_hold : Bool → Option Text → Option CallState → Act (Unit {0})
  tell_hold hold by none = pure tt
  tell_hold hold by (some s) =
      if hold then emit o (held (hold_event s by)) else emit o (resumed (hold_event s by))

  abbrev pub tell_recorded : Bool → Option Text → Option (CallStateUpdate Bool) → Act (Unit {0})
  tell_recorded hold by none = pure tt
  tell_recorded hold by (some update) =
      if update.result then tell_hold hold by update.after else pure tt

  -- `recordHold`
  unfoldable pub record_the_hold : Bool → Option Text → Act (Unit {0})
  record_the_hold hold by = change_call o (record_hold hold) >>= tell_recorded hold by

  abbrev pub record_answer : Option Text → Option Bool → Act (Option Bool)
  record_answer by none = pure none
  record_answer by (some hold) = tolerate (record_the_hold hold by) >> pure (some hold)

  -- `setHold`
  unfoldable pub set_hold : Bool → Option Text → Act (Option Bool)
  set_hold hold by = hold_conversation o hold >>= record_answer by

  abbrev pub forget_answer : Option Bool → Act (Unit {0})
  forget_answer answer = pure tt

  -- `resumeAfterTransfer`
  unfoldable pub resume_after_transfer : Act (Unit {0})
  resume_after_transfer = tolerate (set_hold false none >>= forget_answer)

  -- `tellTransferOutcome`
  unfoldable pub tell_transfer_outcome : List Text → Text → TransferStatus → Act (Unit {0})
  tell_transfer_outcome users target status = tolerate (emit o (tells users target status))

  abbrev pub forget_call_state : Option CallState → Act (Unit {0})
  forget_call_state s = pure tt

  abbrev pub resume_if : Option TransferFailureReason → Act (Unit {0})
  resume_if none = pure tt
  resume_if (some reason) = resume_after_transfer

  abbrev pub follow_plan :
      TransferFailurePlan → List Text → Option TransferFailureReason → Act (Unit {0})
  follow_plan return_to_agent ringing reason = hang_up_all o ringing >> resume_if reason
  follow_plan leave_voicemail ringing reason = route_caller_to_voicemail o routing_timeout
  follow_plan plan_end ringing reason = end_the_call o none >>= forget_call_state

  abbrev pub tell_failure : Option Text → Text → Option TransferFailureReason → Act (Unit {0})
  tell_failure by target none = pure tt
  tell_failure by target (some reason) =
      tell_transfer_outcome (present_option by ++ present_option (some target)) target
        (failed_transfer reason)

  abbrev pub settle : Text → Option TransferFailureReason → Option SettledTransfer → Act Bool
  settle target reason none = pure false
  settle target reason (some settled) =
      follow_plan settled.plan settled.ringing_leg_uuids reason
      >> tell_failure settled.initiated_by target reason
      >> pure true

  abbrev pub settle_update :
      Text
      → Option TransferFailureReason
      → Option (CallStateUpdate (Option SettledTransfer))
      → Act Bool
  settle_update target reason none = pure false
  settle_update target reason (some update) = settle target reason update.result

  -- `failPendingTransfer`
  unfoldable pub fail_pending_transfer : Text → Option TransferFailureReason → Act Bool
  fail_pending_transfer target reason =
      change_call o (fail_transfer target) >>= settle_update target reason

  -- `completeTransfer`
  unfoldable pub complete_transfer : Text → TransferHandover → Act (Unit {0})
  complete_transfer conversation transfer =
      resume_after_transfer
      >> tell_transfer_outcome (present_option transfer.initiated_by) transfer.to_user_id
          completed_transfer
      >> hang_up_all o transfer.released_leg_uuids
      >> emit o (
          transferred (record {
            conversation_uuid = conversation;
            from_user_id = transfer.from_user_id;
            to_user_id = transfer.to_user_id;
            agent_leg_uuid = some transfer.answered_leg_uuid;
          }))
