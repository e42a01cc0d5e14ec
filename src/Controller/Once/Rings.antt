-- ===== src/Controller/Once/Rings.antt =====
-- Ringing reports no start, and no end but that of the call it removes
-- (apps/call-controller/src/calls/call-flow.ts).
use iziphone.Prelude.{ℕ, Bool, true, false, Option, none, some, List, [], ◌∷◌, ◌==◌, suc}
use iziphone.Domain.{Text}
use iziphone.CallState.{CallState}
use iziphone.CallStore.{CallStateUpdate}
use iziphone.Controller.Actions.{Outside, Act}
use iziphone.Controller.Actions.Reports.{
  IsLasting, Keeps, Costs-step, Costs-if, keeps_rules, Keeps-if, Spends-bind, Keeps-pure,
}
use iziphone.Controller.Once.Writes.{Keeps-take_turn}
use iziphone.Controller.Once.Twilio.{
  Keeps-ring_agents, Keeps-create_agent_leg, Keeps-create_external_leg, Keeps-hangup_conversation,
}
use iziphone.Controller.Once.Teardown.{Keeps-route_caller_to_voicemail, Keeps-finalize_call}
use iziphone.Controller.Rings.{
  offer_call, ring_all_at_once, ring_or_pass, ring_if_offered, take_turn_if, ring_from, ring_queue,
  ring_next_in_order, unless_ending, forward_to_external_number, dial_outside_number,
}

module _ {o : Outside} (lasting : IsLasting o) where
  pub Keeps-offer_call : (users : List Text) → Keeps (offer_call o users)
  unfolding offer_call
  Keeps-offer_call users = record {
    at = λ w. Costs-if o (o.fails w.step) _ _ (Costs-step o w _) (Costs-step o w _);
  }

  pub Keeps-ring_all_at_once : (users : List Text) → Keeps (ring_all_at_once o users)
  unfolding ring_all_at_once
  Keeps-ring_all_at_once users = search (keeps_rules, Keeps-offer_call, Keeps-ring_agents)

  module _ (u : Text) (next : Act Bool) (kn : Keeps next) where
    Keeps-ring_or_pass : (b : Bool) → Keeps (ring_or_pass o u next b)
    Keeps-ring_or_pass true = search keeps_rules
    Keeps-ring_or_pass false = search keeps_rules

    Keeps-rung :
        (users : List Text)
        → Keeps (ring_if_offered o u next (record { offered = users; refused = [] }))
    Keeps-rung [] = kn
    Keeps-rung (v ∷ vs) = search (keeps_rules, Keeps-create_agent_leg, Keeps-ring_or_pass)

    Keeps-take_turn_if : (t : Option (CallStateUpdate Bool)) → Keeps (take_turn_if o u next t)
    Keeps-take_turn_if none = search keeps_rules
    Keeps-take_turn_if (some t) =
        Keeps-if t.result _ _
          (Spends-bind _ _ (Keeps-offer_call _) (λ offer. Keeps-rung offer.offered))
          (Keeps-pure false)

  Keeps-ring_from : (index : ℕ) (users : List Text) → Keeps (ring_from o index users)
  unfolding ring_from
  Keeps-ring_from index [] = search keeps_rules
  Keeps-ring_from index (u ∷ users) =
      let k = Keeps-ring_from (suc index) users in
      Keeps-if (u == 0) _ _ k
        (Spends-bind _ _ (Keeps-take_turn lasting index) (Keeps-take_turn_if u _ k))

  Keeps-ring_queue : (s : Option CallState) → Keeps (ring_queue o s)
  Keeps-ring_queue none = search keeps_rules
  Keeps-ring_queue (some s) = Keeps-ring_from _ _

  pub Keeps-ring_next_in_order : Keeps (ring_next_in_order o)
  unfolding ring_next_in_order
  Keeps-ring_next_in_order = search (keeps_rules, Keeps-ring_queue)

  Keeps-unless_ending :
      (m : Act (Unit {0})) (s : Option CallState) → Keeps m → Keeps (unless_ending o m s)
  Keeps-unless_ending m none k = search keeps_rules
  Keeps-unless_ending m (some s) k = search keeps_rules

  pub Keeps-forward_to_external_number :
      (number : Text) → Keeps (forward_to_external_number o number)
  unfolding forward_to_external_number
  Keeps-forward_to_external_number number =
      search (
        keeps_rules, Keeps-create_external_leg, Keeps-unless_ending,
        Keeps-route_caller_to_voicemail,
      )

  pub Keeps-dial_outside_number : (number : Text) → Keeps (dial_outside_number o number)
  unfolding dial_outside_number
  Keeps-dial_outside_number number = search (
    keeps_rules, Keeps-create_external_leg, Keeps-unless_ending, Keeps-hangup_conversation,
    Keeps-finalize_call,
  )
