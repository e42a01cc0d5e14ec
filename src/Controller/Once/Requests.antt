-- ===== src/Controller/Once/Requests.antt =====
-- Requests of softphones report neither start nor end
-- (apps/call-controller/src/calls/call-flow.ts).
use iziphone.Prelude.{Bool, Option, none, some, List, [], ◌∷◌}
use iziphone.Domain.{Text, UnavailableReason, CallControlRefusal}
use iziphone.CallState.{CallState, LegMetadata}
use iziphone.CallStore.{CallStateUpdate}
use iziphone.CallControl.{CallControlRequest, refuse_transfer_cancel}
use iziphone.CallFlow.Transfers.{TransferMark}
use iziphone.Availability.Offers.{CallOffer}
use iziphone.Controller.Actions.{Outside, Act}
use iziphone.Controller.Actions.Reports.{IsLasting, Keeps, keeps_rules}
use iziphone.Controller.Once.Writes.{write_rules}
use iziphone.Controller.Once.Twilio.{Keeps-transfer_conversation}
use iziphone.Controller.Once.Transfers.{
  Keeps-set_hold, Keeps-resume_after_transfer, Keeps-fail_pending_transfer,
}
use iziphone.Controller.Once.Rings.{Keeps-offer_call}
use iziphone.Controller.Requests.{
  ControlResult, allowed, refuse, ControlledCall, attempt, with_state, with_leg,
  load_controlled_call, hold_result, hold_unless, hold_on, hold_call, hang_up_ring,
  resume_if_settled, after_ring, Attempted, ring_target, ring_if_held, hold_if_offered, take_back,
  finish, ring_marked, ring_unless, follow_mark, mark_on, transfer_call, cancel_pending, cancel_on,
  cancel_transfer, stop_rings, decline_on, decline_offered_call,
}

module _ {A : Type 0} where
  Keeps-attempt : (m : Act A) → Keeps m → Keeps (attempt m)
  unfolding attempt
  Keeps-attempt m k = search keeps_rules

module _ {o : Outside} (lasting : IsLasting o) where
  Keeps-with_state : (leg : LegMetadata) (s : Option CallState) → Keeps (with_state o leg s)
  Keeps-with_state leg none = search keeps_rules
  Keeps-with_state leg (some s) = search keeps_rules

  Keeps-with_leg : (leg : Option LegMetadata) → Keeps (with_leg o leg)
  Keeps-with_leg none = search keeps_rules
  Keeps-with_leg (some leg) = search (keeps_rules, Keeps-with_state)

  Keeps-load_controlled_call : (r : CallControlRequest) → Keeps (load_controlled_call o r)
  unfolding load_controlled_call
  Keeps-load_controlled_call r = search (keeps_rules, Keeps-with_leg)

  Keeps-hold_result : (held : Option Bool) → Keeps (hold_result o held)
  Keeps-hold_result none = search keeps_rules
  Keeps-hold_result (some held) = search keeps_rules

  Keeps-hold_unless :
      (r : CallControlRequest) (hold : Bool) (refusal : Option CallControlRefusal)
      → Keeps (hold_unless o r hold refusal)
  Keeps-hold_unless r hold (some refusal) = search keeps_rules
  Keeps-hold_unless r hold none = search (keeps_rules, Keeps-set_hold, Keeps-hold_result)

  Keeps-hold_on :
      (r : CallControlRequest) (hold : Bool) (call : ControlResult ControlledCall)
      → Keeps (hold_on o r hold call)
  Keeps-hold_on r hold (refuse refusal) = search keeps_rules
  Keeps-hold_on r hold (allowed call) = Keeps-hold_unless r hold _

  pub Keeps-hold_call : (r : CallControlRequest) (hold : Bool) → Keeps (hold_call o r hold)
  unfolding hold_call
  Keeps-hold_call r hold = search (keeps_rules, Keeps-load_controlled_call, Keeps-hold_on)

  -- Transfers ----------------------------------------------------------------

  Keeps-hang_up_ring : (leg : Option Text) → Keeps (hang_up_ring o leg)
  Keeps-hang_up_ring none = search keeps_rules
  Keeps-hang_up_ring (some leg) = search keeps_rules

  Keeps-resume_if_settled : (s : Option CallState) → Keeps (resume_if_settled o s)
  Keeps-resume_if_settled none = search keeps_rules
  Keeps-resume_if_settled (some s) = search (keeps_rules, Keeps-resume_after_transfer)

  Keeps-after_ring :
      (r : CallControlRequest) (target : Text) (leg : Option Text) (latest : Option CallState)
      → Keeps (after_ring o r target leg latest)
  Keeps-after_ring r target leg latest =
      search (keeps_rules, Keeps-hang_up_ring, Keeps-resume_if_settled)

  Keeps-ring_target :
      (r : CallControlRequest) (target : Text) (leg : Option (Option Text))
      → Keeps (ring_target o r target leg)
  Keeps-ring_target r target none = search keeps_rules
  Keeps-ring_target r target (some leg) = search (keeps_rules, Keeps-attempt, Keeps-after_ring)

  Keeps-ring_if_held :
      (r : CallControlRequest) (target : Text) (held : Option (Option Bool))
      → Keeps (ring_if_held o r target held)
  Keeps-ring_if_held r target none = search keeps_rules
  Keeps-ring_if_held r target (some held) =
      search
        (
          keeps_rules, Keeps-attempt, Keeps-transfer_conversation, Keeps-ring_target,
          Keeps-fail_pending_transfer,
        )
        depth 8

  Keeps-offered :
      (r : CallControlRequest) (target : Text) (offered : List Text)
      (refused : List (Text × UnavailableReason))
      → Keeps (hold_if_offered o r target (some (record { offered = offered; refused = refused })))
  Keeps-offered r target [] refused =
      search (keeps_rules, Keeps-attempt, Keeps-fail_pending_transfer)
  Keeps-offered r target (u ∷ users) refused =
      search (keeps_rules, Keeps-attempt, Keeps-set_hold, Keeps-ring_if_held)

  Keeps-hold_if_offered :
      (r : CallControlRequest) (target : Text) (offer : Option CallOffer)
      → Keeps (hold_if_offered o r target offer)
  Keeps-hold_if_offered r target none = search keeps_rules
  Keeps-hold_if_offered r target (some offer) = Keeps-offered r target offer.offered offer.refused

  Keeps-take_back :
      (target : Text) (result : Option (ControlResult Text)) → Keeps (take_back o target result)
  Keeps-take_back target none = search (keeps_rules, Keeps-fail_pending_transfer)
  Keeps-take_back target (some result) = search keeps_rules

  Keeps-finish : (target : Text) (x : Attempted o) → Keeps (finish o target x)
  Keeps-finish target (owes, result) = search (keeps_rules, Keeps-take_back)

  Keeps-ring_marked :
      (r : CallControlRequest) (target : Text) (mark : TransferMark)
      → Keeps (ring_marked o r target mark)
  Keeps-ring_marked r target mark =
      search (keeps_rules, Keeps-attempt, Keeps-offer_call, Keeps-hold_if_offered, Keeps-finish)
        depth 8

  Keeps-ring_unless :
      (r : CallControlRequest) (target : Text) (s : Option CallState)
      (refusal : Option CallControlRefusal) (mark : TransferMark)
      → Keeps (ring_unless o r target s refusal mark)
  Keeps-ring_unless r target none refusal mark = search keeps_rules
  Keeps-ring_unless r target (some s) (some refusal) mark = search keeps_rules
  Keeps-ring_unless r target (some s) none mark = Keeps-ring_marked r target mark

  Keeps-follow_mark :
      (r : CallControlRequest) (target : Text) (u : Option (CallStateUpdate TransferMark))
      → Keeps (follow_mark o r target u)
  Keeps-follow_mark r target none = search keeps_rules
  Keeps-follow_mark r target (some u) = Keeps-ring_unless r target u.after u.result.refusal u.result

  Keeps-mark_on :
      (r : CallControlRequest) (target : Text) (call : ControlResult ControlledCall)
      → Keeps (mark_on o r target call)
  Keeps-mark_on r target (refuse refusal) = search keeps_rules
  Keeps-mark_on r target (allowed call) = search (keeps_rules, write_rules, Keeps-follow_mark)

  pub Keeps-transfer_call :
      (r : CallControlRequest) (target : Text) → Keeps (transfer_call o r target)
  unfolding transfer_call
  Keeps-transfer_call r target = search (keeps_rules, Keeps-load_controlled_call, Keeps-mark_on)

  Keeps-cancel_pending :
      (refusal : Option CallControlRefusal) (target : Option Text)
      → Keeps (cancel_pending o refusal target)
  Keeps-cancel_pending (some refusal) target = search keeps_rules
  Keeps-cancel_pending none none = search keeps_rules
  Keeps-cancel_pending none (some target) = search (keeps_rules, Keeps-fail_pending_transfer)

  Keeps-cancel_on :
      (r : CallControlRequest) (call : ControlResult ControlledCall) → Keeps (cancel_on o r call)
  Keeps-cancel_on r (refuse refusal) = search keeps_rules
  Keeps-cancel_on r (allowed call) =
      Keeps-cancel_pending (refuse_transfer_cancel call.state call.leg r)
        call.state.pending_transfer_to_user_id

  pub Keeps-cancel_transfer : (r : CallControlRequest) → Keeps (cancel_transfer o r)
  unfolding cancel_transfer
  Keeps-cancel_transfer r = search (keeps_rules, Keeps-load_controlled_call, Keeps-cancel_on)

  Keeps-stop_rings : (u : Text) (legs : List Text) → Keeps (stop_rings o u legs)
  Keeps-stop_rings u [] = search keeps_rules
  Keeps-stop_rings u (leg ∷ legs) = search keeps_rules

  Keeps-decline_on : (u : Text) (s : Option CallState) → Keeps (decline_on o u s)
  Keeps-decline_on u none = search keeps_rules
  Keeps-decline_on u (some s) = search (keeps_rules, Keeps-fail_pending_transfer, Keeps-stop_rings)

  pub Keeps-decline_offered_call : (u : Text) → Keeps (decline_offered_call o u)
  unfolding decline_offered_call
  Keeps-decline_offered_call u = search (keeps_rules, Keeps-decline_on)
