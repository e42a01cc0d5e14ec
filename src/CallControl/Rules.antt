-- ===== src/CallControl/Rules.antt =====
-- How the rules of an agent's controls go together (call-control.ts).
use iziphone.Prelude.{true, false, ◌≡◌, ◌≢◌, refl, Option, none, some, arith, if◌then◌else◌}
use iziphone.Domain.{
  Text, truthy, or_else, is_outbound, CallDirection, agent, inbound, outbound, CallParticipantType,
  caller, external,
}
use iziphone.CallState.{CallState, LegMetadata}
use iziphone.CallControl.{
  CallControlRequest, is_agent, refuse_unless_on_connected_call, refuse_hold, refuse_transfer,
  refuse_transfer_cancel,
}

-- A field that names somebody or something: it is there and not blank.
abbrev pub IsNamed : Option Text → Type 0
IsNamed x = (t : Text) × (x ≡ some t) × (t ≢ 0)

-- The other party of a call: the outside number's leg of an outbound one, and of an inbound one the
-- caller's, or that of the outside number where there is no caller's.
abbrev pub HasOther : CallDirection → Option Text → Option Text → Type 0
HasOther outbound caller_leg external_leg = IsNamed external_leg
HasOther inbound (some leg) external_leg = leg ≢ 0
HasOther inbound none external_leg = IsNamed external_leg

-- The one who asks is the agent who talks on this answered call, through their own leg on it, with
-- another party in the conference.
pub record IsOnCall (s : CallState) (leg : LegMetadata) (r : CallControlRequest) : Type 0 where
  pub of_an_agent : leg.participant_type ≡ agent
  pub of_theirs : leg.participant_id ≡ r.user_id
  pub of_this_call : leg.conversation_uuid ≡ s.conversation_uuid
  pub through_it : s.agent_leg_uuid ≡ some r.leg_uuid
  pub talks : s.active_agent_user_id ≡ some r.user_id
  pub answered : s.answered ≡ true
  pub not_ending : s.ending ≡ false
  pub not_voicemail : s.voicemail ≡ false
  pub with_somebody : HasOther s.direction s.caller_leg_uuid s.external_leg_uuid

truthy-IsNamed : (x : Option Text) → truthy x ≡ true → IsNamed x
truthy-IsNamed none h = cc
truthy-IsNamed (some t) h = (t, refl, λ z. ground arith)

IsNamed-truthy : (x : Option Text) → IsNamed x → truthy x ≡ true
IsNamed-truthy x (t, e, n) = ground arith

no_name : (x : Option Text) → ((t : Text) → x ≡ some t → t ≡ 0) → truthy x ≡ false
no_name none n = refl
no_name (some t) n = let z = n t refl in ground arith

other-HasOther :
    (d : CallDirection) (c x : Option Text)
    → truthy (if is_outbound d then x else or_else c x) ≡ true
    → HasOther d c x
other-HasOther outbound c x h = truthy-IsNamed x h
other-HasOther inbound none x h = truthy-IsNamed x h
other-HasOther inbound (some leg) x h = λ z. ground arith

HasOther-other :
    (d : CallDirection) (c x : Option Text)
    → HasOther d c x
    → truthy (if is_outbound d then x else or_else c x) ≡ true
HasOther-other outbound c x h = IsNamed-truthy x h
HasOther-other inbound none x h = IsNamed-truthy x h
HasOther-other inbound (some leg) x h = ground arith

an_agent : (p : CallParticipantType) → is_agent p ≡ true → p ≡ agent
an_agent agent h = refl
an_agent caller h = cc
an_agent external h = cc

refuse_unless-IsOnCall :
    (s : CallState) (leg : LegMetadata) (r : CallControlRequest)
    → refuse_unless_on_connected_call s leg r ≡ none
    → IsOnCall s leg r
unfolding refuse_unless_on_connected_call
refuse_unless-IsOnCall s leg r h = record {
  of_an_agent = an_agent leg.participant_type (ground arith);
  of_theirs = ground arith;
  of_this_call = ground arith;
  through_it = ground arith;
  talks = ground arith;
  answered = ground arith;
  not_ending = ground arith;
  not_voicemail = ground arith;
  with_somebody = other-HasOther s.direction s.caller_leg_uuid s.external_leg_uuid (ground arith);
}

IsOnCall-refuse_unless :
    (s : CallState) (leg : LegMetadata) (r : CallControlRequest)
    → IsOnCall s leg r
    → refuse_unless_on_connected_call s leg r ≡ none
unfolding refuse_unless_on_connected_call
IsOnCall-refuse_unless s leg r c =
    let other = HasOther-other s.direction s.caller_leg_uuid s.external_leg_uuid c.with_somebody in
    let a = c.of_an_agent in
    let b = c.of_theirs in
    let d = c.of_this_call in
    let e = c.through_it in
    let f = c.talks in
    let g = c.answered in let h = c.not_ending in let v = c.not_voicemail in ground arith

-- Who may control a call: whoever is admitted to hold it, to hand it over or to take a transfer back is the
-- agent who talks on it, with another party, through a leg that is theirs and of this very call; a hold
-- and a transfer are admitted only while no transfer is pending, and a taking back only while the
-- transfer that they started themselves is; and to hold is all that it takes to be on the call with no
-- transfer pending.
pub control_admission :
    (s : CallState) (leg : LegMetadata) (r : CallControlRequest) (target : Text)
    → (refuse_hold s leg r ≡ none
        → IsOnCall s leg r × ((t : Text) → s.pending_transfer_to_user_id ≡ some t → t ≡ 0))
      × (IsOnCall s leg r
          → ((t : Text) → s.pending_transfer_to_user_id ≡ some t → t ≡ 0)
          → refuse_hold s leg r ≡ none)
      × (refuse_transfer s leg r target ≡ none
          → (refuse_hold s leg r ≡ none) × (target ≢ r.user_id))
      × (refuse_transfer_cancel s leg r ≡ none
          → IsOnCall s leg r
            × IsNamed s.pending_transfer_to_user_id
            × (s.transfer_initiated_by ≡ some r.user_id))
      × (IsOnCall s leg r
          → IsNamed s.pending_transfer_to_user_id
          → s.transfer_initiated_by ≡ some r.user_id
          → refuse_transfer_cancel s leg r ≡ none)
unfolding refuse_hold refuse_transfer_cancel refuse_transfer
control_admission s leg r target =
    let to = refuse_unless-IsOnCall s leg r in
    let from = IsOnCall-refuse_unless s leg r in
    (
      λ h. (to (ground arith), λ t e. ground arith),
      λ c n. let k = from c in let b = no_name s.pending_transfer_to_user_id n in ground arith,
      λ h. (ground arith, λ e. ground arith),
      λ h. (
        to (ground arith),
        truthy-IsNamed s.pending_transfer_to_user_id (ground arith),
        ground arith,
      ),
      λ c p i.
          let k = from c in let t = IsNamed-truthy s.pending_transfer_to_user_id p in ground arith,
    )
