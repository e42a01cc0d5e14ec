-- ===== src/CallFlow/Teardown/Emptied.antt =====
-- A call whose caller was moved to voicemail (call-flow.ts: `routeCallerToVoicemail`).
use iziphone.Prelude.{
  Bool, true, false, not, ◌&&◌, ◌||◌, ◌≡◌, ◌∙◌, Option, none, some, arith, ◌==◌, elem, Dict, keys,
  elem-append,
}
use iziphone.Domain.{Text, is}
use iziphone.CallState.{CallState, leg_uuids_of, users_let_go, present_option}
use iziphone.CallState.Occupancy.{is_occupied, lost_leg, elem-users_let_go}
use iziphone.CallState.Legs.{is_leg, elem-leg_uuids_of}
use iziphone.CallFlow.Teardown.{MovedToVoicemail, route_to_voicemail}
use iziphone.CallFlow.Invariant.{IsValid, Within-elem}

-- The talking agent's leg is one of the recorded legs of agents.
abbrev pub is_recorded : Option Text → Dict → Bool
is_recorded none d = true
is_recorded (some leg) d = elem leg (keys d)

hung_up_legs :
    (s : CallState) (moved : MovedToVoicemail) (x : Text)
    → IsValid s
    → is_recorded s.agent_leg_uuid s.agent_legs ≡ true
    → (route_to_voicemail s).result ≡ some moved
    → is_leg s x ≡ (
        (is s.caller_leg_uuid x && not (x == 0))
        || (elem x moved.hang_up_leg_uuids && not (x == 0)))
unfolding route_to_voicemail
hung_up_legs s moved x v r m = ground (
  arith,
  Within-elem x s.pending_agent_leg_uuids (keys s.agent_legs) v.legs.rings_recorded,
  elem-append x (keys s.agent_legs) (present_option s.external_leg_uuid),
)

legs_left :
    (s : CallState) (moved : MovedToVoicemail) (x : Text)
    → (route_to_voicemail s).result ≡ some moved
    → is_leg (route_to_voicemail s).draft x ≡ (is s.caller_leg_uuid x && not (x == 0))
unfolding route_to_voicemail
legs_left s moved x m = ground arith

nobody_left :
    (s : CallState) (moved : MovedToVoicemail) (u : Text)
    → (route_to_voicemail s).result ≡ some moved
    → is_occupied (route_to_voicemail s).draft u ≡ false
unfolding route_to_voicemail
nobody_left s moved u m = ground arith

moved_once :
    (s : CallState) (moved : MovedToVoicemail)
    → (route_to_voicemail s).result ≡ some moved
    → (route_to_voicemail (route_to_voicemail s).draft).result ≡ none
unfolding route_to_voicemail
moved_once s moved m = ground arith

-- Moving the caller to voicemail hangs up every other leg of a valid call, where the talking agent's
-- leg is one of the recorded ones, and lets go everybody that the call occupied; moving them again
-- finds nothing to do.
pub route_to_voicemail_empties :
    (s : CallState) (moved : MovedToVoicemail) (x u : Text)
    → IsValid s
    → is_recorded s.agent_leg_uuid s.agent_legs ≡ true
    → (route_to_voicemail s).result ≡ some moved
    → let t = (route_to_voicemail s).draft in
      (elem x (leg_uuids_of s) ≡ (
        (is s.caller_leg_uuid x && not (x == 0))
        || (elem x moved.hang_up_leg_uuids && not (x == 0))))
      × (elem x (leg_uuids_of t) ≡ (is s.caller_leg_uuid x && not (x == 0)))
      × (elem u (users_let_go s (some t)) ≡ (is_occupied s u || lost_leg s (some t) u))
      × ((route_to_voicemail t).result ≡ none)
route_to_voicemail_empties s moved x u v r m =
    let t = (route_to_voicemail s).draft in
    (
      elem-leg_uuids_of s x ∙ hung_up_legs s moved x v r m,
      elem-leg_uuids_of t x ∙ legs_left s moved x m,
      elem-users_let_go s (some t) u
          ∙ free (is_occupied s u) (lost_leg s (some t) u) (is_occupied t u)
              (nobody_left s moved u m),
      moved_once s moved m,
    )
  where
    free : (o lost f : Bool) → f ≡ false → ((o || lost) && not f) ≡ (o || lost)
    free o lost f g = ground arith
