-- ===== src/CallFlow/Teardown.antt =====
-- Voicemail and the end of a call (call-flow.ts: the writes of `voicemailInsteadOfRinging`,
-- `routeCallerToVoicemail` and `finalize`).
pub mod Emptied
use iziphone.Prelude.{
  Bool, true, false, not, ◌&&◌, ◌||◌, Option, none, some, List, [], ◌∷◌, ◌++◌, if◌then◌else◌, keys,
}
use iziphone.Domain.{Text, truthy}
use iziphone.CallState.{CallState, present_option}
use iziphone.CallStore.{CallStateChange}
use iziphone.CallFlow.Transfers.{changed, is_on}
use iziphone.CallFlow.LegEnds.{has_pending}

-- The write of `voicemailInsteadOfRinging`.
unfoldable pub voicemail_instead : CallState → CallStateChange Bool
voicemail_instead s =
    if s.ending then changed false s else changed true (record s { voicemail = true })

pub record MovedToVoicemail : Type 0 where
  pub hang_up_leg_uuids : List Text
  pub was_held : Bool

-- The write of `routeCallerToVoicemail`, undefined when the caller is not to be moved.
unfoldable pub route_to_voicemail : CallState → CallStateChange (Option MovedToVoicemail)
route_to_voicemail s =
    if not (truthy s.caller_leg_uuid)
      || (s.ending || (s.voicemail || (not s.answered && has_pending s.pending_agent_leg_uuids)))
    then changed none s
    else changed
        (some (record {
          hang_up_leg_uuids = keys s.agent_legs ++ present_option s.external_leg_uuid;
          was_held = is_on s.held;
        }))
        (record s {
          voicemail = true;
          pending_agent_leg_uuids = [];
          agent_legs = [];
          agent_leg_uuid = none;
          external_leg_uuid = none;
          held = some false;
        })

-- The write of `finalize`.
unfoldable pub finalize : CallState → CallStateChange (Unit {0})
finalize s = record { result = tt; draft = s; remove = true }
