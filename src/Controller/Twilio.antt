-- ===== src/Controller/Twilio.antt =====
-- The operations of the telephony service that the handlers call
-- (apps/call-controller/src/calls/telephony.service.ts). Voice is configured.
use iziphone.Prelude.{
  ℕ, suc, Bool, true, false, not, ◌&&◌, Option, none, some, List, [], ◌∷◌, if◌then◌else◌, Dict,
  keys,
}
use iziphone.Domain.{Text, truthy, is, agent, external}
use iziphone.CallState.{CallState, CallParticipant, LegMetadata, leg_uuids_of}
use iziphone.CallStore.{CallStateUpdate}
use iziphone.CallControl.{remote_leg_of}
use iziphone.PhoneNumber.{normalize_phone_number}
use iziphone.CallFlow.Ringing.{
  register_agent_legs, record_external_leg, ensure_conference_reference,
}
use iziphone.Controller.Effects.{describes}
use iziphone.Controller.Actions.{
  Outside, Result, done, thrown, Act, pure, throw, ◌>>=◌, ◌>>◌, catch, get_call, emit, hang_up,
  hang_up_all, update_call,
}

abbrev pub metadata_of : CallState → CallParticipant → LegMetadata
metadata_of s p = record { participant = p; conversation_uuid = s.conversation_uuid }

abbrev pub recorded : {R : Type 0} → (R → Bool) → Option (CallStateUpdate R) → Bool
recorded p none = false
recorded p (some update) = p update.result

abbrev pub itself : Bool → Bool
itself b = b

module _ (o : Outside) where
  abbrev pub hang_up_legs_of : Option CallState → Act (Unit {0})
  hang_up_legs_of none = pure tt
  hang_up_legs_of (some s) = hang_up_all o (leg_uuids_of s)

  -- `hangupConversation`
  unfoldable pub hangup_conversation : Act (Unit {0})
  hangup_conversation = get_call o >>= hang_up_legs_of

  -- Twilio's answer to a request for the conference of a call in progress.
  unfoldable pub ask_conference : Act (Option Text)
  ask_conference w =
      if o.fails w.step
      then (thrown, record w { step = suc w.step })
      else (done (o.conference_sid w.step), record w { step = suc w.step })

  abbrev pub keep_conference : Option Text → Act (Option Text)
  keep_conference none = pure none
  keep_conference (some sid) = update_call o (ensure_conference_reference sid) >> pure (some sid)

  -- `findConferenceSid`
  unfoldable pub find_conference_sid : CallState → Act (Option Text)
  find_conference_sid s =
      if truthy s.conference_sid then pure s.conference_sid else ask_conference >>= keep_conference

  -- Twilio's answer to a hold: whether the party is on hold now, or that they are gone.
  unfoldable pub ask_hold : Bool → Act (Option Bool)
  ask_hold hold w =
      if o.fails w.step
      then (thrown, record w { step = suc w.step })
      else (done (o.holds w.step hold), record w { step = suc w.step })

  abbrev pub hold_in : Bool → Option Text → Act (Option Bool)
  hold_in hold none = pure none
  hold_in hold (some sid) = ask_hold hold

  abbrev pub hold_party : Bool → Option CallState → Act (Option Bool)
  hold_party hold none = pure none
  hold_party hold (some s) =
      if not (truthy (remote_leg_of s)) then pure none else find_conference_sid s >>= hold_in hold

  -- `holdConversation`
  unfoldable pub hold_conversation : Bool → Act (Option Bool)
  hold_conversation hold = get_call o >>= hold_party hold

  -- `createConferenceParticipant`: the new leg of a user's softphone or of a number.
  unfoldable pub dial : Text → Act Text
  dial who w = (answered (o.dials w.step who), record w { step = suc w.step })
    where
      answered : Option Text → Result Text
      answered none = thrown
      answered (some leg) = done leg

  abbrev pub describe : CallState → CallParticipant → Text → Act Text
  describe s p leg = emit o (describes leg (metadata_of s p)) >> pure leg

  -- `dialAgent`
  unfoldable pub dial_agent : CallState → Text → Act Text
  dial_agent s u = dial u >>= describe s (record { participant_type = agent; participant_id = u })

  -- What becomes of dialed legs, by whether the call recorded them.
  abbrev pub keep_or_hang_up : List Text → Bool → Act Bool
  keep_or_hang_up legs true = pure true
  keep_or_hang_up legs false = hang_up_all o legs >> pure false

  abbrev pub register : Dict → Act Bool
  register legs = update_call o (register_agent_legs legs) >>= λ u.
      keep_or_hang_up (keys legs) (recorded itself u)

  -- `registerAgentLegs`
  unfoldable pub register_legs : Dict → Act Bool
  register_legs [] = pure true
  register_legs ((leg, u) ∷ legs) = register ((leg, u) ∷ legs)

  abbrev pub leg_if : Text → Bool → Act (Option Text)
  leg_if leg kept = pure (if kept then some leg else none)

  abbrev pub create_agent_leg_on : Text → Option CallState → Act (Option Text)
  create_agent_leg_on u none = throw
  create_agent_leg_on u (some s) =
      if s.ending
      then throw
      else dial_agent s u >>= λ leg. register_legs ((leg, u) ∷ []) >>= leg_if leg

  -- `createAgentLeg`
  unfoldable pub create_agent_leg : Text → Act (Option Text)
  create_agent_leg u = get_call o >>= create_agent_leg_on u

  abbrev pub leg_of : Text → Text → Act Dict
  leg_of u leg = pure ((leg, u) ∷ [])

  -- `Promise.allSettled` over the dials: the legs that could be created.
  unfoldable pub dial_agents : CallState → List Text → Act Dict
  dial_agents s [] = pure []
  dial_agents s (u ∷ users) = catch (dial_agent s u >>= leg_of u) (pure []) >>= λ first.
      dial_agents s users >>= λ rest. pure (joined first rest)
    where
      joined : Dict → Dict → Dict
      joined [] rest = rest
      joined (leg ∷ legs) rest = leg ∷ rest

  abbrev pub legs_if : Dict → Bool → Act Dict
  legs_if legs kept = pure (if kept then legs else [])

  abbrev pub ring_agents_on : List Text → Option CallState → Act Dict
  ring_agents_on users none = throw
  ring_agents_on [] (some s) = pure []
  ring_agents_on (u ∷ users) (some s) =
      if s.ending
      then pure []
      else dial_agents s (u ∷ users) >>= λ legs. register_legs legs >>= legs_if legs

  -- `ringAgents`
  unfoldable pub ring_agents : List Text → Act Dict
  ring_agents users = get_call o >>= ring_agents_on users

  abbrev pub transfer_conversation_on : Text → Text → Option CallState → Act (Option Text)
  transfer_conversation_on target by none = throw
  transfer_conversation_on target by (some s) =
      if is s.pending_transfer_to_user_id target && is s.transfer_initiated_by by
      then create_agent_leg target
      else pure none

  -- `transferConversation`
  unfoldable pub transfer_conversation : Text → Text → Act (Option Text)
  transfer_conversation target by = get_call o >>= transfer_conversation_on target by

  abbrev pub hang_up_unless : Text → Bool → Act Text
  hang_up_unless leg true = pure leg
  hang_up_unless leg false = hang_up o leg >> pure leg

  -- The leg of a number, if it is one, as it is written in full.
  abbrev pub dial_external : CallState → Option (List ℕ) → Act Text
  dial_external s none = throw
  dial_external s (some number) =
      let to = o.text_of number in
      dial to
      >>= describe s (record { participant_type = external; participant_id = to })
      >>= λ leg.
          update_call o (record_external_leg leg) >>= λ u. hang_up_unless leg (recorded itself u)

  abbrev pub create_external_leg_on : Text → Option CallState → Act Text
  create_external_leg_on number none = throw
  create_external_leg_on number (some s) =
      if s.ending then throw else dial_external s (normalize_phone_number (o.characters number))

  -- `createExternalLeg`
  unfoldable pub create_external_leg : Text → Act Text
  create_external_leg number = get_call o >>= create_external_leg_on number
