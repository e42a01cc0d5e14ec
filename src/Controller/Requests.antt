-- ===== src/Controller/Requests.antt =====
-- What softphones ask for (apps/call-controller/src/calls/call-flow.ts: `holdCall`, `transferCall`,
-- `cancelTransfer`, `declineOfferedCall`).
pub mod Declined
use iziphone.Prelude.{
  Bool, true, false, not, ◌&&◌, ◌||◌, Option, none, some, List, [], ◌∷◌, ◌==◌, if◌then◌else◌,
  filter, lookup,
}
use iziphone.Domain.{
  Text, truthy, is, UnavailableReason, reason_offline, declined, unavailable, cancelled,
  CallControlRefusal, leg_not_found, call_gone, provider_error, no_transfer_pending,
}
use iziphone.CallState.{CallState, LegMetadata}
use iziphone.CallStore.{CallStateUpdate}
use iziphone.CallControl.{
  CallControlRequest, refuse_hold, refuse_transfer_cancel, transfer_refusal_of,
}
use iziphone.Availability.Offers.{CallOffer}
use iziphone.CallFlow.Transfers.{mark_transfer, TransferMark}
use iziphone.Controller.Actions.{
  Outside, Result, Act, pure, ◌>>=◌, ◌>>◌, catch, finally, get_call, get_leg, hang_up, hang_up_all,
  let_go, change_call,
}
use iziphone.Controller.Twilio.{transfer_conversation}
use iziphone.Controller.Transfers.{set_hold, resume_after_transfer, fail_pending_transfer}
use iziphone.Controller.Rings.{offer_call}

-- `CallControlResult`
pub data ControlResult (A : Type 0) : Type 0 where
  allowed : A → ControlResult A
  refuse : CallControlRefusal → ControlResult A

pub record ControlledCall : Type 0 where
  pub state : CallState
  pub leg : LegMetadata

module _ {A : Type 0} where
  abbrev pub kept : A → Act (Option A)
  kept a = pure (some a)

  -- What an action comes to, if it does not throw.
  unfoldable pub attempt : Act A → Act (Option A)
  attempt m = catch (m >>= kept) (pure none)

module _ (o : Outside) where
  abbrev pub with_state : LegMetadata → Option CallState → Act (ControlResult ControlledCall)
  with_state leg none = pure (refuse call_gone)
  with_state leg (some s) = pure (allowed (record { state = s; leg = leg }))

  abbrev pub with_leg : Option LegMetadata → Act (ControlResult ControlledCall)
  with_leg none = pure (refuse leg_not_found)
  with_leg (some leg) = get_call o >>= with_state leg

  -- `loadControlledCall`
  unfoldable pub load_controlled_call : CallControlRequest → Act (ControlResult ControlledCall)
  load_controlled_call r = get_leg o r.leg_uuid >>= with_leg

  abbrev pub hold_result : Option Bool → Act (ControlResult Bool)
  hold_result none = pure (refuse call_gone)
  hold_result (some held) = pure (allowed held)

  abbrev pub hold_unless :
      CallControlRequest → Bool → Option CallControlRefusal → Act (ControlResult Bool)
  hold_unless r hold (some refusal) = pure (refuse refusal)
  hold_unless r hold none =
      catch (set_hold o hold (some r.user_id) >>= hold_result) (pure (refuse provider_error))

  abbrev pub hold_on :
      CallControlRequest → Bool → ControlResult ControlledCall → Act (ControlResult Bool)
  hold_on r hold (refuse refusal) = pure (refuse refusal)
  hold_on r hold (allowed call) = hold_unless r hold (refuse_hold call.state call.leg r)

  -- `holdCall`
  unfoldable pub hold_call : CallControlRequest → Bool → Act (ControlResult Bool)
  hold_call r hold = load_controlled_call r >>= hold_on r hold

  -- Transfers ----------------------------------------------------------------

  abbrev pub is_ringing_leg : Option Text → Option CallState → Bool
  is_ringing_leg none latest = false
  is_ringing_leg leg none = false
  is_ringing_leg (some leg) (some s) = is s.agent_leg_uuid leg

  abbrev pub is_still_pending : CallControlRequest → Text → Option CallState → Bool
  is_still_pending r target none = false
  is_still_pending r target (some s) =
      is s.pending_transfer_to_user_id target && is s.transfer_initiated_by r.user_id

  abbrev pub hang_up_ring : Option Text → Act (Unit {0})
  hang_up_ring none = pure tt
  hang_up_ring (some leg) = hang_up o leg

  abbrev pub resume_if_settled : Option CallState → Act (Unit {0})
  resume_if_settled none = pure tt
  resume_if_settled (some s) =
      if s.ending || truthy s.pending_transfer_to_user_id then pure tt else resume_after_transfer o

  abbrev pub after_ring :
      CallControlRequest → Text → Option Text → Option CallState → Act (ControlResult Text)
  after_ring r target leg latest =
      if is_ringing_leg leg latest || is_still_pending r target latest
      then pure (allowed target)
      else hang_up_ring leg >> resume_if_settled latest >> pure (refuse no_transfer_pending)

  abbrev pub refuse_after : CallControlRefusal → Bool → Act (ControlResult Text)
  refuse_after refusal settled = pure (refuse refusal)

  -- What the block that may throw comes to: whether the teammate has to be let go after it, and its
  -- result if it did not throw.
  abbrev pub Attempted : Type 0
  Attempted = Bool × Option (ControlResult Text)

  abbrev pub flag : Bool → Option (ControlResult Text) → Act Attempted
  flag owes result = pure (owes, result)

  abbrev pub is_set : Option Text → Bool
  is_set none = false
  is_set (some leg) = true

  abbrev pub ring_target : CallControlRequest → Text → Option (Option Text) → Act Attempted
  ring_target r target none = pure (true, none)
  ring_target r target (some leg) =
      attempt (get_call o >>= after_ring r target leg) >>= flag (not (is_set leg))

  abbrev pub hold_refusal : Option Bool → CallControlRefusal
  hold_refusal none = call_gone
  hold_refusal (some held) = provider_error

  abbrev pub is_held : Option Bool → Bool
  is_held none = false
  is_held (some held) = held

  abbrev pub ring_if_held : CallControlRequest → Text → Option (Option Bool) → Act Attempted
  ring_if_held r target none = pure (true, none)
  ring_if_held r target (some held) =
      if is_held held
      then attempt (transfer_conversation o target r.user_id) >>= ring_target r target
      else attempt
          (fail_pending_transfer o target (some unavailable) >>= refuse_after (hold_refusal held))
        >>= flag true

  abbrev pub first_reason : List (Text × UnavailableReason) → UnavailableReason
  first_reason [] = reason_offline
  first_reason ((u, reason) ∷ rest) = reason

  abbrev pub hold_if_offered : CallControlRequest → Text → Option CallOffer → Act Attempted
  hold_if_offered r target none = pure (false, none)
  hold_if_offered r target (some offer) = elim offer.offered [
    | [] ↦
        attempt (
          fail_pending_transfer o target none
          >>= refuse_after (transfer_refusal_of (first_reason offer.refused)))
        >>= flag false
    | u ∷ users ↦ attempt (set_hold o true (some r.user_id)) >>= ring_if_held r target
  ]

  abbrev pub take_back : Text → Option (ControlResult Text) → Act (ControlResult Text)
  take_back target none =
      fail_pending_transfer o target (some unavailable) >>= refuse_after provider_error
  take_back target (some result) = pure result

  abbrev pub let_go_if : Bool → Text → Result (ControlResult Text) → Act (Unit {0})
  let_go_if owes target result = if owes then let_go o (target ∷ []) else pure tt

  abbrev pub finish : Text → Attempted → Act (ControlResult Text)
  finish target (owes, result) = finally (take_back target result) (let_go_if owes target)

  abbrev pub ring_marked : CallControlRequest → Text → TransferMark → Act (ControlResult Text)
  ring_marked r target mark =
      hang_up_all o mark.lost_ring_leg_uuids
      >> (attempt (offer_call o (target ∷ [])) >>= hold_if_offered r target >>= finish target)

  abbrev pub ring_unless :
      CallControlRequest
      → Text
      → Option CallState
      → Option CallControlRefusal
      → TransferMark
      → Act (ControlResult Text)
  ring_unless r target none refusal mark = pure (refuse call_gone)
  ring_unless r target (some s) (some refusal) mark = pure (refuse refusal)
  ring_unless r target (some s) none mark = ring_marked r target mark

  abbrev pub follow_mark :
      CallControlRequest → Text → Option (CallStateUpdate TransferMark) → Act (ControlResult Text)
  follow_mark r target none = pure (refuse call_gone)
  follow_mark r target (some update) =
      ring_unless r target update.after update.result.refusal update.result

  abbrev pub mark_on :
      CallControlRequest → Text → ControlResult ControlledCall → Act (ControlResult Text)
  mark_on r target (refuse refusal) = pure (refuse refusal)
  mark_on r target (allowed call) =
      change_call o (mark_transfer call.leg r target) >>= follow_mark r target

  -- `transferCall`
  unfoldable pub transfer_call : CallControlRequest → Text → Act (ControlResult Text)
  transfer_call r target = load_controlled_call r >>= mark_on r target

  abbrev pub cancelled_result : Bool → Act (ControlResult (Unit {0}))
  cancelled_result settled = pure (if settled then allowed tt else refuse no_transfer_pending)

  abbrev pub cancel_pending :
      Option CallControlRefusal → Option Text → Act (ControlResult (Unit {0}))
  cancel_pending (some refusal) target = pure (refuse refusal)
  cancel_pending none none = pure (refuse no_transfer_pending)
  cancel_pending none (some target) =
      if target == 0
      then pure (refuse no_transfer_pending)
      else fail_pending_transfer o target (some cancelled) >>= cancelled_result

  abbrev pub cancel_on :
      CallControlRequest → ControlResult ControlledCall → Act (ControlResult (Unit {0}))
  cancel_on r (refuse refusal) = pure (refuse refusal)
  cancel_on r (allowed call) =
      cancel_pending (refuse_transfer_cancel call.state call.leg r)
        call.state.pending_transfer_to_user_id

  -- `cancelTransfer`
  unfoldable pub cancel_transfer : CallControlRequest → Act (ControlResult (Unit {0}))
  cancel_transfer r = load_controlled_call r >>= cancel_on r

  -- The legs of a call that ring a user.
  abbrev pub rings_of : CallState → Text → List Text
  rings_of s u = filter (λ leg. is (lookup leg s.agent_legs) u) s.pending_agent_leg_uuids

  abbrev pub stop_rings : Text → List Text → Act (Unit {0})
  stop_rings u [] = pure tt
  stop_rings u (leg ∷ legs) = hang_up_all o (leg ∷ legs) >> let_go o (u ∷ [])

  abbrev pub ignore_settled : Bool → Act (Unit {0})
  ignore_settled settled = pure tt

  abbrev pub decline_on : Text → Option CallState → Act (Unit {0})
  decline_on u none = pure tt
  decline_on u (some s) =
      if is s.pending_transfer_to_user_id u
      then fail_pending_transfer o u (some declined) >>= ignore_settled
      else if s.answered
      then pure tt
      else stop_rings u (rings_of s u)

  -- `declineOfferedCall`
  unfoldable pub decline_offered_call : Text → Act (Unit {0})
  decline_offered_call u = get_call o >>= decline_on u
