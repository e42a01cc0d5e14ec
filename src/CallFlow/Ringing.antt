-- ===== src/CallFlow/Ringing.antt =====
-- The writes of a ring (call-flow.ts: the turn of `ringNextInOrder`; telephony.service.ts: the writes
-- of `registerAgentLegs`, `createExternalLeg` and `ensureConferenceReference`).
use iziphone.Prelude.{
  ℕ, Bool, true, false, ◌||◌, some, [], ◌∷◌, ◌++◌, if◌then◌else◌, unique, Dict, keys, insert,
}
use iziphone.Domain.{Text}
use iziphone.CallState.{CallState}
use iziphone.CallStore.{CallStateChange}
use iziphone.CallFlow.Transfers.{changed}

-- A turn of the fixed order: whether the call still needs somebody rung.
unfoldable pub take_turn : ℕ → CallState → CallStateChange Bool
take_turn index s =
    if s.ending || (s.answered || s.voicemail)
    then changed false s
    else changed true (record s { current_queue_index = some index })

-- The legs that were dialed, with their users.
abbrev pub record_legs : Dict → Dict → Dict
record_legs [] agent_legs = agent_legs
record_legs ((leg, u) ∷ legs) agent_legs = record_legs legs (insert leg u agent_legs)

-- The write of `registerAgentLegs`.
unfoldable pub register_agent_legs : Dict → CallState → CallStateChange Bool
register_agent_legs legs s =
    if s.ending
    then changed false s
    else changed true (record s {
      agent_legs = record_legs legs s.agent_legs;
      pending_agent_leg_uuids = unique (s.pending_agent_leg_uuids ++ keys legs);
    })

-- The write of `createExternalLeg`.
unfoldable pub record_external_leg : Text → CallState → CallStateChange Bool
record_external_leg leg s =
    if s.ending then changed false s else changed true (record s { external_leg_uuid = some leg })

-- The write of `ensureConferenceReference`.
unfoldable pub ensure_conference_reference : Text → CallState → CallStateChange (Unit {0})
ensure_conference_reference sid s = changed tt (record s { conference_sid = some sid })
