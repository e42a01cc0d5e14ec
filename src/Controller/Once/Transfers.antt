-- ===== src/Controller/Once/Transfers.antt =====
-- Holds and transfers report neither start nor end (apps/call-controller/src/calls/call-flow.ts).
use iziphone.Prelude.{Bool, Option, none, some, List}
use iziphone.Domain.{Text, TransferFailureReason}
use iziphone.CallState.{CallState}
use iziphone.CallStore.{CallStateUpdate}
use iziphone.CallControl.{TransferFailurePlan, return_to_agent, leave_voicemail, end_the_call}
use iziphone.CallFlow.Transfers.{SettledTransfer}
use iziphone.CallFlow.Answers.{TransferHandover}
use iziphone.Controller.Effects.{TransferStatus}
use iziphone.Controller.Actions.{Outside}
use iziphone.Controller.Actions.Reports.{IsLasting, Keeps, keeps_rules}
use iziphone.Controller.Once.Writes.{write_rules}
use iziphone.Controller.Once.Twilio.{Keeps-hold_conversation}
use iziphone.Controller.Once.Teardown.{Keeps-end_the_call, Keeps-route_caller_to_voicemail}
use iziphone.Controller.Transfers.{
  tell_hold, tell_recorded, record_the_hold, record_answer, set_hold, resume_after_transfer,
  tell_transfer_outcome, resume_if, follow_plan, tell_failure, settle, settle_update,
  fail_pending_transfer, complete_transfer,
}

module _ {o : Outside} (lasting : IsLasting o) where
  Keeps-tell_hold :
      (hold : Bool) (by : Option Text) (s : Option CallState) → Keeps (tell_hold o hold by s)
  Keeps-tell_hold hold by none = search keeps_rules
  Keeps-tell_hold hold by (some s) = search keeps_rules

  Keeps-tell_recorded :
      (hold : Bool) (by : Option Text) (u : Option (CallStateUpdate Bool))
      → Keeps (tell_recorded o hold by u)
  Keeps-tell_recorded hold by none = search keeps_rules
  Keeps-tell_recorded hold by (some u) = search (keeps_rules, Keeps-tell_hold)

  Keeps-record_the_hold : (hold : Bool) (by : Option Text) → Keeps (record_the_hold o hold by)
  unfolding record_the_hold
  Keeps-record_the_hold hold by = search (keeps_rules, write_rules, Keeps-tell_recorded)

  Keeps-record_answer : (by : Option Text) (a : Option Bool) → Keeps (record_answer o by a)
  Keeps-record_answer by none = search keeps_rules
  Keeps-record_answer by (some hold) = search (keeps_rules, Keeps-record_the_hold)

  pub Keeps-set_hold : (hold : Bool) (by : Option Text) → Keeps (set_hold o hold by)
  unfolding set_hold
  Keeps-set_hold hold by = search (keeps_rules, Keeps-hold_conversation, Keeps-record_answer)

  pub Keeps-resume_after_transfer : Keeps (resume_after_transfer o)
  unfolding resume_after_transfer
  Keeps-resume_after_transfer = search (keeps_rules, Keeps-set_hold)

  Keeps-tell_transfer_outcome :
      (users : List Text) (target : Text) (status : TransferStatus)
      → Keeps (tell_transfer_outcome o users target status)
  unfolding tell_transfer_outcome
  Keeps-tell_transfer_outcome users target status = search keeps_rules

  Keeps-resume_if : (reason : Option TransferFailureReason) → Keeps (resume_if o reason)
  Keeps-resume_if none = search keeps_rules
  Keeps-resume_if (some reason) = Keeps-resume_after_transfer

  Keeps-follow_plan :
      (plan : TransferFailurePlan) (ringing : List Text) (reason : Option TransferFailureReason)
      → Keeps (follow_plan o plan ringing reason)
  Keeps-follow_plan return_to_agent ringing reason = search (keeps_rules, Keeps-resume_if)
  Keeps-follow_plan leave_voicemail ringing reason = Keeps-route_caller_to_voicemail lasting _
  Keeps-follow_plan end_the_call ringing reason = search (keeps_rules, Keeps-end_the_call)

  Keeps-tell_failure :
      (by : Option Text) (target : Text) (reason : Option TransferFailureReason)
      → Keeps (tell_failure o by target reason)
  Keeps-tell_failure by target none = search keeps_rules
  Keeps-tell_failure by target (some reason) = Keeps-tell_transfer_outcome _ _ _

  Keeps-settle :
      (target : Text) (reason : Option TransferFailureReason) (settled : Option SettledTransfer)
      → Keeps (settle o target reason settled)
  Keeps-settle target reason none = search keeps_rules
  Keeps-settle target reason (some settled) =
      search (keeps_rules, Keeps-follow_plan, Keeps-tell_failure)

  Keeps-settle_update :
      (target : Text) (reason : Option TransferFailureReason)
      (u : Option (CallStateUpdate (Option SettledTransfer)))
      → Keeps (settle_update o target reason u)
  Keeps-settle_update target reason none = search keeps_rules
  Keeps-settle_update target reason (some u) = Keeps-settle target reason u.result

  pub Keeps-fail_pending_transfer :
      (target : Text) (reason : Option TransferFailureReason)
      → Keeps (fail_pending_transfer o target reason)
  unfolding fail_pending_transfer
  Keeps-fail_pending_transfer target reason = search (keeps_rules, write_rules, Keeps-settle_update)

  pub Keeps-complete_transfer :
      (conversation : Text) (transfer : TransferHandover)
      → Keeps (complete_transfer o conversation transfer)
  unfolding complete_transfer
  Keeps-complete_transfer conversation transfer =
      search (keeps_rules, Keeps-resume_after_transfer, Keeps-tell_transfer_outcome)
