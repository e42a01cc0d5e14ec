-- ===== src/Controller/Rings.antt =====
-- Ringing the users of a call (apps/call-controller/src/calls/call-flow.ts: `ringAllAtOnce`,
-- `ringNextInOrder`, `forwardToExternalNumber` and the dial of `startOutboundCall`).
use iziphone.Prelude.{
  ℕ, zero, suc, Bool, true, false, not, Option, none, some, List, [], ◌∷◌, ◌==◌, if◌then◌else◌,
  filter, elem, values, Dict,
}
use iziphone.Domain.{Text, failed, get_or}
use iziphone.CallState.{CallState}
use iziphone.CallStore.{CallStateUpdate}
use iziphone.Availability.Offers.{CallOffer}
use iziphone.Routing.InboundPlan.{closed_hours_external}
use iziphone.CallFlow.Ringing.{take_turn}
use iziphone.Controller.Actions.{
  Outside, Result, done, thrown, Act, pure, ◌>>=◌, ◌>>◌, catch, finally, get_call, let_go,
  change_call,
}
use iziphone.Controller.Twilio.{
  ring_agents, create_agent_leg, create_external_leg, hangup_conversation,
}
use iziphone.Controller.Teardown.{route_caller_to_voicemail, finalize_call}

-- The users that were rung, of a ring that may have thrown.
abbrev pub rung_of : Result Dict → List Text
rung_of (done legs) = values legs
rung_of thrown = []

module _ (o : Outside) where
  -- `offerCall` of the realtime layer. It may throw.
  unfoldable pub offer_call : List Text → Act CallOffer
  offer_call users w =
      if o.fails w.step
      then (thrown, record w { step = suc w.step })
      else (done (o.offers w.step users), record w { step = suc w.step })

  abbrev pub users_of : Dict → Act (List Text)
  users_of legs = pure (values legs)

  abbrev pub ring_offered : CallOffer → Act (List Text)
  ring_offered offer =
      finally (ring_agents o offer.offered)
        (λ r. let_go o (filter (λ u. not (elem u (rung_of r))) offer.offered))
      >>= users_of

  -- `ringAllAtOnce`
  unfoldable pub ring_all_at_once : List Text → Act (List Text)
  ring_all_at_once users = offer_call users >>= ring_offered

  abbrev pub is_leg : Option Text → Bool
  is_leg none = false
  is_leg (some leg) = true

  abbrev pub leg_recorded : Option Text → Act Bool
  leg_recorded leg = pure (is_leg leg)

  -- The user's ring is recorded, or they are let go and the turn passes on.
  abbrev pub ring_or_pass : Text → Act Bool → Bool → Act Bool
  ring_or_pass u next true = pure true
  ring_or_pass u next false = let_go o (u ∷ []) >> next

  abbrev pub ring_if_offered : Text → Act Bool → CallOffer → Act Bool
  ring_if_offered u next offer = elim offer.offered [
    | [] ↦ next
    | v ∷ vs ↦ catch (create_agent_leg o u >>= leg_recorded) (pure false) >>= ring_or_pass u next
  ]

  abbrev pub take_turn_if : Text → Act Bool → Option (CallStateUpdate Bool) → Act Bool
  take_turn_if u next none = pure false
  take_turn_if u next (some update) =
      if update.result then offer_call (u ∷ []) >>= ring_if_offered u next else pure false

  -- The turns left, from the place `index` of the queue on.
  unfoldable pub ring_from : ℕ → List Text → Act Bool
  ring_from index [] = pure false
  ring_from index (u ∷ users) =
      let next = ring_from (suc index) users in
      if u == 0 then next else change_call o (take_turn index) >>= take_turn_if u next

  abbrev pub drop : ℕ → List Text → List Text
  drop n [] = []
  drop zero (u ∷ users) = u ∷ users
  drop (suc n) (u ∷ users) = drop n users

  abbrev pub ring_queue : Option CallState → Act Bool
  ring_queue none = pure false
  ring_queue (some s) =
      let index = get_or s.current_queue_index 0 in
      ring_from index (drop index (get_or s.routing_queue []))

  -- `ringNextInOrder`
  unfoldable pub ring_next_in_order : Act Bool
  ring_next_in_order = get_call o >>= ring_queue

  abbrev pub ignore_leg : Text → Act (Unit {0})
  ignore_leg leg = pure tt

  abbrev pub unless_ending : Act (Unit {0}) → Option CallState → Act (Unit {0})
  unless_ending m none = pure tt
  unless_ending m (some s) = if s.ending then pure tt else m

  -- The background work of `forwardToExternalNumber`.
  unfoldable pub forward_to_external_number : Text → Act (Unit {0})
  forward_to_external_number number =
      catch (create_external_leg o number >>= ignore_leg)
        (get_call o >>= unless_ending (route_caller_to_voicemail o closed_hours_external))

  -- The background dial of `startOutboundCall`.
  unfoldable pub dial_outside_number : Text → Act (Unit {0})
  dial_outside_number number =
      catch (create_external_leg o number >>= ignore_leg)
        (get_call o >>= unless_ending (hangup_conversation o >> finalize_call o failed))
