-- ===== src/Routing/OutboundGrant/Grants.antt =====
-- What a grant to call is good for (outbound-plan.ts, outbound-grant.ts, telephony.service.ts).
use iziphone.Prelude.{
  ℕ, ◌+◌, Bool, true, false, not, ◌&&◌, ◌≡◌, ◌≢◌, refl, Option, none, some, List, [], ◌∷◌, arith,
  if◌then◌else◌, elem,
}
use iziphone.Prelude.{ltb}
use iziphone.Domain.{Text}
use iziphone.Routing.InboundPlan.{CachedRouting}
use iziphone.Routing.OutboundGrant.{
  OutboundGrantRequest, OutboundCallGrant, OutboundGrantDecision, refused, issue,
  decide_outbound_grant, Caller, is_client, OutboundCallAdmission, not_admitted, admitted,
  admit_outbound_call, KeptGrant, issue_outbound_grant, take_outbound_grant, find_grant, drop_grant,
  is_denied,
}

abbrev pub is_issued : OutboundGrantDecision → Bool
is_issued (refused reason) = false
is_issued (issue grant) = true

abbrev pub may_dial : OutboundGrantRequest → Option CachedRouting → Bool
may_dial r none = false
may_dial r (some routing) = elem r.user_id routing.user_ids && not (is_denied routing.voice_enabled)

-- A grant is issued exactly to a user that the line's entry rings, from a line that is not said to
-- lack voice; nobody calls from a line with no entry.
decide_outbound_grant-issued :
    (r : OutboundGrantRequest) (routing : Option CachedRouting) (now : ℕ)
    → is_issued (decide_outbound_grant r routing now) ≡ may_dial r routing
unfolding decide_outbound_grant
decide_outbound_grant-issued r none now = refl
decide_outbound_grant-issued r (some routing) now = ground arith

abbrev pub is_admitted : OutboundCallAdmission → Bool
is_admitted (not_admitted reason) = false
is_admitted (admitted grant) = true

-- A grant that was issued names its requester, the number and the line of the request, and admits a
-- call exactly from that user's softphone and less than a minute after it was issued.
pub admit_outbound_call-issued :
    (r : OutboundGrantRequest) (routing : Option CachedRouting) (issued_at now : ℕ)
    (grant : OutboundCallGrant) (from : Option Caller)
    → decide_outbound_grant r routing issued_at ≡ issue grant
    → (grant.user_id ≡ r.user_id)
      × (grant.to ≡ r.to)
      × (grant.from_number ≡ r.from_number)
      × (is_admitted (admit_outbound_call (some grant) from now)
          ≡ (ltb now (issued_at + 60000) && is_client from r.user_id))
unfolding decide_outbound_grant admit_outbound_call
admit_outbound_call-issued r none issued_at now grant from h = cc
admit_outbound_call-issued r (some routing) issued_at now grant from h =
    (ground arith, ground arith, ground arith, ground arith)

find-drop_grant :
    (token : Text) (now : ℕ) (kept : List KeptGrant)
    → find_grant token now (drop_grant token kept) ≡ none
find-drop_grant token now [] = refl
find-drop_grant token now (k ∷ kept) = ground (arith, find-drop_grant token now kept)

find-drop_grant_ne :
    (token other : Text) (now : ℕ) (kept : List KeptGrant)
    → other ≢ token
    → find_grant other now (drop_grant token kept) ≡ find_grant other now kept
find-drop_grant_ne token other now [] n = refl
find-drop_grant_ne token other now (k ∷ kept) n =
    ground (arith, find-drop_grant_ne token other now kept)

-- A grant serves one call: what was kept under a token is taken once, within its minute; the token
-- then brings nothing, whenever it comes back; and the grants under other tokens stay.
pub take_outbound_grant_once :
    (token other : Text) (grant : OutboundCallGrant) (issued_at now later : ℕ)
    (kept : List KeptGrant)
    → other ≢ token
    → let r = take_outbound_grant token now (issue_outbound_grant token grant issued_at kept) in
      (r.0 ≡ (if ltb now (issued_at + 60000) then some grant else none))
      × ((take_outbound_grant token later r.1).0 ≡ none)
      × ((take_outbound_grant other later r.1).0 ≡ (take_outbound_grant other later kept).0)
unfolding take_outbound_grant issue_outbound_grant
take_outbound_grant_once token other grant issued_at now later kept n = (
  ground arith,
  ground (arith, find-drop_grant token later kept),
  ground (arith, find-drop_grant_ne token other later kept),
)
