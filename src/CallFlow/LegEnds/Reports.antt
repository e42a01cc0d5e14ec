-- ===== src/CallFlow/LegEnds/Reports.antt =====
-- Reports of the end of a leg (call-flow.ts: `decideLegEnded`).
use iziphone.Prelude.{
  ◌+◌, Bool, true, false, ◌&&◌, ◌≡◌, ◌∙◌, some, List, [], arith, if◌then◌else◌, elem,
}
use iziphone.Domain.{
  Text, truthy, is_inbound, CallEndStatus, CallParticipantType, caller, agent, external, get_or,
}
use iziphone.CallState.{
  CallState, CallParticipant, leg_uuids_of, has_active_legs, is_empty, remove_leg,
}
use iziphone.CallState.Legs.{leg_uuids_of_queue, without, leg_uuids_of-remove_leg, elem-without}
use iziphone.CallFlow.LegEnds.{
  LegEndPlan, ignored, forgotten, ended, ring_next, to_voicemail, transfer_fell_through,
  decide_leg_ended,
}

-- When the end of a leg is told and the call goes on, the call's legs are those it had, in order, less
-- that one.
pub leg_uuids_of-decide_leg_ended :
    (p : CallParticipant) (leg : Text) (status : CallEndStatus) (s : CallState)
    → elem leg (leg_uuids_of s) ≡ true
    → (decide_leg_ended p leg status s).remove ≡ false
    → leg_uuids_of (decide_leg_ended p leg status s).draft ≡ without leg (leg_uuids_of s)
unfolding decide_leg_ended
leg_uuids_of-decide_leg_ended p leg status s h r = ground (
  arith,
  leg_uuids_of-remove_leg s leg,
  leg_uuids_of_queue (remove_leg s leg)
      (some (get_or (remove_leg s leg).current_queue_index 0 + 1)),
)

-- A leg that the call does not have is told of without effect.
decide_leg_ended_ignored :
    (p : CallParticipant) (leg : Text) (status : CallEndStatus) (s : CallState)
    → elem leg (leg_uuids_of s) ≡ false
    → decide_leg_ended p leg status s ≡ record { result = ignored; draft = s; remove = false }
unfolding decide_leg_ended
decide_leg_ended_ignored p leg status s h = rw h

-- Twilio reports the end of a leg more than once. Once a report has taken a leg out of a call that
-- goes on, every later report of the same leg, whatever participant and status it names, changes
-- nothing and is ignored.
pub decide_leg_ended_again :
    (p q : CallParticipant) (leg : Text) (status later : CallEndStatus) (s : CallState)
    → elem leg (leg_uuids_of s) ≡ true
    → (decide_leg_ended p leg status s).remove ≡ false
    → let t = (decide_leg_ended p leg status s).draft in
      decide_leg_ended q leg later t ≡ record { result = ignored; draft = t; remove = false }
decide_leg_ended_again p q leg status later s h r =
    decide_leg_ended_ignored q leg later (decide_leg_ended p leg status s).draft (
      rw (leg_uuids_of-decide_leg_ended p leg status s h r)
        (elem-without leg leg (leg_uuids_of s) ∙ ground arith))

-- While a call is being hung up, the end of one of its legs removes the call exactly when it was the
-- last one, and asks for no more hangups.
decide_leg_ended_while_ending :
    (p : CallParticipant) (leg : Text) (status : CallEndStatus) (s : CallState)
    → s.ending ≡ true
    → elem leg (leg_uuids_of s) ≡ true
    → let t = remove_leg s leg in
      decide_leg_ended p leg status s ≡ (
        if is_empty (without leg (leg_uuids_of s))
        then record { result = ended t []; draft = t; remove = true }
        else record { result = forgotten; draft = t; remove = false })
unfolding decide_leg_ended has_active_legs
decide_leg_ended_while_ending p leg status s e h = ground (arith, leg_uuids_of-remove_leg s leg)

-- The legs that an end of the call hangs up.
abbrev pub hung_up : LegEndPlan → List Text
hung_up (ended final legs) = legs
hung_up ignored = []
hung_up forgotten = []
hung_up ring_next = []
hung_up (to_voicemail reason) = []
hung_up (transfer_fell_through target reason) = []

abbrev pub is_external : CallParticipantType → Bool
is_external external = true
is_external caller = false
is_external agent = false

-- When the end of a leg ends a call that nobody was hanging up, every other leg of the call is hung
-- up, and no other, unless the leg was that of the outside number an inbound call was forwarded to.
pub decide_leg_ended_hangs_up :
    (p : CallParticipant) (leg : Text) (status : CallEndStatus) (s : CallState)
    → s.ending ≡ false
    → (decide_leg_ended p leg status s).remove ≡ true
    → (is_external p.participant_type && is_inbound s.direction) ≡ false
    → hung_up (decide_leg_ended p leg status s).result ≡ without leg (leg_uuids_of s)
unfolding decide_leg_ended remove_leg
decide_leg_ended_hangs_up p leg status s e r x = ground (arith, leg_uuids_of-remove_leg s leg)

-- The agent who hands an answered call over may leave while the transfer rings: the call goes on.
pub agent_may_leave_transfer :
    (p : CallParticipant) (leg : Text) (status : CallEndStatus) (s : CallState)
    → s.ending ≡ false
    → s.answered ≡ true
    → p.participant_type ≡ agent
    → truthy s.pending_transfer_to_user_id ≡ true
    → (decide_leg_ended p leg status s).remove ≡ false
unfolding decide_leg_ended remove_leg
agent_may_leave_transfer p leg status s e a x t = ground arith
