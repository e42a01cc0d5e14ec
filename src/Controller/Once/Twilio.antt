-- ===== src/Controller/Once/Twilio.antt =====
-- The operations of the telephony service report neither start nor end
-- (apps/call-controller/src/calls/telephony.service.ts).
use iziphone.Prelude.{ℕ, Dict, Bool, true, false, Option, none, some, List, [], ◌∷◌}
use iziphone.Domain.{Text}
use iziphone.CallState.{CallState, CallParticipant}
use iziphone.Controller.Actions.{Outside}
use iziphone.Controller.Actions.Reports.{
  IsLasting, Keeps, Costs-step, Costs-if, Spends-bind, Keeps-pure, keeps_rules,
}
use iziphone.Controller.Once.Writes.{write_rules}
use iziphone.Controller.Twilio.{
  hang_up_legs_of, hangup_conversation, ask_conference, keep_conference, find_conference_sid,
  ask_hold, hold_in, hold_party, hold_conversation, dial, describe, dial_agent, keep_or_hang_up,
  register_legs, create_agent_leg_on, create_agent_leg, dial_agents, ring_agents_on, ring_agents,
  transfer_conversation_on, transfer_conversation, hang_up_unless, dial_external,
  create_external_leg_on, create_external_leg,
}

module _ {o : Outside} (lasting : IsLasting o) where
  Keeps-hang_up_legs_of : (s : Option CallState) → Keeps (hang_up_legs_of o s)
  Keeps-hang_up_legs_of none = search keeps_rules
  Keeps-hang_up_legs_of (some s) = search keeps_rules

  pub Keeps-hangup_conversation : Keeps (hangup_conversation o)
  unfolding hangup_conversation
  Keeps-hangup_conversation = search (keeps_rules, Keeps-hang_up_legs_of)

  Keeps-ask_conference : Keeps (ask_conference o)
  unfolding ask_conference
  Keeps-ask_conference = record {
    at = λ w. Costs-if o (o.fails w.step) _ _ (Costs-step o w _) (Costs-step o w _);
  }

  Keeps-keep_conference : (sid : Option Text) → Keeps (keep_conference o sid)
  Keeps-keep_conference none = search keeps_rules
  Keeps-keep_conference (some sid) = search (keeps_rules, write_rules)

  Keeps-find_conference_sid : (s : CallState) → Keeps (find_conference_sid o s)
  unfolding find_conference_sid
  Keeps-find_conference_sid s = search (keeps_rules, Keeps-ask_conference, Keeps-keep_conference)

  Keeps-ask_hold : (hold : Bool) → Keeps (ask_hold o hold)
  unfolding ask_hold
  Keeps-ask_hold hold = record {
    at = λ w. Costs-if o (o.fails w.step) _ _ (Costs-step o w _) (Costs-step o w _);
  }

  Keeps-hold_in : (hold : Bool) (sid : Option Text) → Keeps (hold_in o hold sid)
  Keeps-hold_in hold none = search keeps_rules
  Keeps-hold_in hold (some sid) = Keeps-ask_hold hold

  Keeps-hold_party : (hold : Bool) (s : Option CallState) → Keeps (hold_party o hold s)
  Keeps-hold_party hold none = search keeps_rules
  Keeps-hold_party hold (some s) = search (keeps_rules, Keeps-find_conference_sid, Keeps-hold_in)

  pub Keeps-hold_conversation : (hold : Bool) → Keeps (hold_conversation o hold)
  unfolding hold_conversation
  Keeps-hold_conversation hold = search (keeps_rules, Keeps-hold_party)

  Keeps-dial : (who : Text) → Keeps (dial o who)
  unfolding dial
  Keeps-dial who = record { at = λ w. Costs-step o w _ }

  Keeps-describe : (s : CallState) (p : CallParticipant) (leg : Text) → Keeps (describe o s p leg)
  Keeps-describe s p leg = search keeps_rules

  Keeps-dial_agent : (s : CallState) (u : Text) → Keeps (dial_agent o s u)
  unfolding dial_agent
  Keeps-dial_agent s u = search (keeps_rules, Keeps-dial, Keeps-describe)

  Keeps-keep_or_hang_up : (legs : List Text) (b : Bool) → Keeps (keep_or_hang_up o legs b)
  Keeps-keep_or_hang_up legs true = search keeps_rules
  Keeps-keep_or_hang_up legs false = search keeps_rules

  Keeps-register_legs : (legs : Dict) → Keeps (register_legs o legs)
  unfolding register_legs
  Keeps-register_legs [] = search keeps_rules
  Keeps-register_legs ((leg, u) ∷ legs) = search (keeps_rules, write_rules, Keeps-keep_or_hang_up)

  Keeps-create_agent_leg_on : (u : Text) (s : Option CallState) → Keeps (create_agent_leg_on o u s)
  Keeps-create_agent_leg_on u none = search keeps_rules
  Keeps-create_agent_leg_on u (some s) = search (keeps_rules, Keeps-dial_agent, Keeps-register_legs)

  pub Keeps-create_agent_leg : (u : Text) → Keeps (create_agent_leg o u)
  unfolding create_agent_leg
  Keeps-create_agent_leg u = search (keeps_rules, Keeps-create_agent_leg_on)

  Keeps-dial_agents : (s : CallState) (users : List Text) → Keeps (dial_agents o s users)
  unfolding dial_agents
  Keeps-dial_agents s [] = search keeps_rules
  Keeps-dial_agents s (u ∷ users) =
      Spends-bind _ _ (search (keeps_rules, Keeps-dial_agent))
        (λ first. Spends-bind _ _ (Keeps-dial_agents s users) (λ rest. Keeps-pure _))

  Keeps-ring_agents_on :
      (users : List Text) (s : Option CallState) → Keeps (ring_agents_on o users s)
  Keeps-ring_agents_on users none = search keeps_rules
  Keeps-ring_agents_on [] (some s) = search keeps_rules
  Keeps-ring_agents_on (u ∷ users) (some s) =
      search (keeps_rules, Keeps-dial_agents, Keeps-register_legs)

  pub Keeps-ring_agents : (users : List Text) → Keeps (ring_agents o users)
  unfolding ring_agents
  Keeps-ring_agents users = search (keeps_rules, Keeps-ring_agents_on)

  Keeps-transfer_conversation_on :
      (target by : Text) (s : Option CallState) → Keeps (transfer_conversation_on o target by s)
  Keeps-transfer_conversation_on target by none = search keeps_rules
  Keeps-transfer_conversation_on target by (some s) = search (keeps_rules, Keeps-create_agent_leg)

  pub Keeps-transfer_conversation : (target by : Text) → Keeps (transfer_conversation o target by)
  unfolding transfer_conversation
  Keeps-transfer_conversation target by = search (keeps_rules, Keeps-transfer_conversation_on)

  Keeps-hang_up_unless : (leg : Text) (b : Bool) → Keeps (hang_up_unless o leg b)
  Keeps-hang_up_unless leg true = search keeps_rules
  Keeps-hang_up_unless leg false = search keeps_rules

  Keeps-dial_external :
      (s : CallState) (number : Option (List ℕ)) → Keeps (dial_external o s number)
  Keeps-dial_external s none = search keeps_rules
  Keeps-dial_external s (some number) =
      search (keeps_rules, write_rules, Keeps-dial, Keeps-describe, Keeps-hang_up_unless)

  Keeps-create_external_leg_on :
      (number : Text) (s : Option CallState) → Keeps (create_external_leg_on o number s)
  Keeps-create_external_leg_on number none = search keeps_rules
  Keeps-create_external_leg_on number (some s) = search (keeps_rules, Keeps-dial_external)

  pub Keeps-create_external_leg : (number : Text) → Keeps (create_external_leg o number)
  unfolding create_external_leg
  Keeps-create_external_leg number = search (keeps_rules, Keeps-create_external_leg_on)
