-- ===== src/CallFlow/Transfers/Settlement.antt =====
-- How a transfer is marked and settled (call-flow.ts: `transferCall`, `failPendingTransfer`,
-- `decideAgentJoined`; call-control.ts: the rules that go with them).
use iziphone.Prelude.{
  Bool, true, false, not, ◌&&◌, ◌||◌, ◌≡◌, ◌≢◌, inl, inr, sym, ap, ◌∙◌, Option, none, some, List,
  [], ◌∷◌, arith, ◌==◌, Option-cases, elem, keys, elem-filter,
}
use mathlib.Core.Path.{subst}
use iziphone.Domain.{Text, is, transfer_pending}
use iziphone.CallState.{CallState, LegMetadata, remove_leg}
use iziphone.CallControl.{
  CallControlRequest, end_call as end_plan, return_to_agent, refuse_hold, refuse_transfer,
  refuse_transfer_cancel, refuse_unless_on_connected_call, plan_hangup, plan_transfer_failure,
}
use iziphone.CallFlow.Transfers.{
  mark_transfer, mark_unless, remove_legs, legs_of_user, fail_transfer, changed,
}
use iziphone.CallFlow.Answers.{TransferHandover, intruder, joined, decide_agent_joined}

-- None of the legs is the one of a field.
abbrev pub is_spared : Option Text → List Text → Bool
is_spared none legs = true
is_spared (some leg) legs = not (elem leg legs)

-- The talking agent's leg and the parties' legs are none of these.
abbrev pub are_foreign : CallState → List Text → Bool
are_foreign s legs =
    is_spared s.agent_leg_uuid legs
    && (is_spared s.caller_leg_uuid legs && is_spared s.external_leg_uuid legs)

-- What the rules of the talking agent's controls read.
record SameControls (s t : CallState) : Type 0 where
  conversation : t.conversation_uuid ≡ s.conversation_uuid
  direction : t.direction ≡ s.direction
  agent : t.active_agent_user_id ≡ s.active_agent_user_id
  agent_leg : t.agent_leg_uuid ≡ s.agent_leg_uuid
  caller_leg : t.caller_leg_uuid ≡ s.caller_leg_uuid
  external_leg : t.external_leg_uuid ≡ s.external_leg_uuid
  answered : t.answered ≡ s.answered
  ending : t.ending ≡ s.ending
  voicemail : t.voicemail ≡ s.voicemail

remove_leg-SameControls :
    (s : CallState) (leg : Text) (legs : List Text)
    → are_foreign s (leg ∷ legs) ≡ true
    → SameControls s (remove_leg s leg) × (are_foreign (remove_leg s leg) legs ≡ true)
unfolding remove_leg
remove_leg-SameControls s leg legs h = ground arith

SameControls-trans : (s t u : CallState) → SameControls s t → SameControls t u → SameControls s u
SameControls-trans s t u a b = ground arith

remove_legs-SameControls :
    (s : CallState) (legs : List Text)
    → are_foreign s legs ≡ true
    → SameControls s (remove_legs s legs)
unfolding remove_legs
remove_legs-SameControls s [] h = ground arith
remove_legs-SameControls s (leg ∷ legs) h =
    let (same, rest) = remove_leg-SameControls s leg legs h in
    SameControls-trans s (remove_leg s leg) (remove_legs (remove_leg s leg) legs) same
      (remove_legs-SameControls (remove_leg s leg) legs rest)

refuse_transfer-none :
    (s : CallState) (leg : LegMetadata) (r : CallControlRequest) (target : Text)
    → refuse_transfer s leg r target ≡ none
    → refuse_unless_on_connected_call s leg r ≡ none
unfolding refuse_transfer refuse_unless_on_connected_call
refuse_transfer-none s leg r target h = ground arith

refuse_unless-SameControls :
    (s t : CallState) (leg : LegMetadata) (r : CallControlRequest)
    → SameControls s t
    → refuse_unless_on_connected_call t leg r ≡ refuse_unless_on_connected_call s leg r
unfolding refuse_unless_on_connected_call
refuse_unless-SameControls s t leg r c = ground arith

-- The state of a call once a transfer is marked on it.
abbrev marked_state : CallControlRequest → Text → CallState → CallState
marked_state r target s = record (remove_legs s (legs_of_user target s.agent_legs)) {
  pending_transfer_to_user_id = some target;
  transfer_initiated_by = some r.user_id;
  transfer_origin_leg_uuid = some r.leg_uuid;
}

mark_transfer_marks :
    (leg : LegMetadata) (r : CallControlRequest) (target : Text) (s : CallState)
    → (mark_transfer leg r target s).result.refusal ≡ none
    → ((mark_transfer leg r target s).draft ≡ marked_state r target s)
      × (refuse_transfer s leg r target ≡ none)
unfolding mark_transfer
mark_transfer_marks leg r target s h = elim (Option-cases (refuse_transfer s leg r target)) [
  | inl e ↦ (ap (λ o. (mark_unless r target s o).draft) e, e)
  | inr (refusal, e) ↦ absurd (cc (ap (λ o. (mark_unless r target s o).result.refusal) e))
]

marked_is_connected :
    (leg : LegMetadata) (r : CallControlRequest) (target : Text) (s : CallState)
    → are_foreign s (legs_of_user target s.agent_legs) ≡ true
    → refuse_transfer s leg r target ≡ none
    → refuse_unless_on_connected_call (marked_state r target s) leg r ≡ none
marked_is_connected leg r target s f e =
    let c = remove_legs-SameControls s (legs_of_user target s.agent_legs) f in
    refuse_unless-SameControls s (marked_state r target s) leg r (record {
      conversation = c.conversation;
      direction = c.direction;
      agent = c.agent;
      agent_leg = c.agent_leg;
      caller_leg = c.caller_leg;
      external_leg = c.external_leg;
      answered = c.answered;
      ending = c.ending;
      voicemail = c.voicemail;
    })
    ∙ refuse_transfer-none s leg r target e

-- What a pending transfer makes of the rules.
pending_locks :
    (t : CallState) (leg : LegMetadata) (r q : CallControlRequest) (target other : Text)
    → refuse_unless_on_connected_call t leg r ≡ none
    → t.pending_transfer_to_user_id ≡ some target
    → t.transfer_initiated_by ≡ some r.user_id
    → target ≢ 0
    → (refuse_hold t leg r ≡ some transfer_pending)
      × (refuse_transfer t leg r other ≡ some transfer_pending)
      × (refuse_transfer_cancel t leg r ≡ none)
      × (plan_hangup t q ≢ end_plan)
unfolding refuse_unless_on_connected_call refuse_hold refuse_transfer refuse_transfer_cancel
    plan_hangup
pending_locks t leg r q target other k p i b =
    (ground arith, ground arith, ground arith, λ h. ground arith)

-- Once a transfer to a teammate, whose id is not blank, is marked, where the rings that they lost
-- are neither the agent's nor a party's leg: the agent's holds and further transfers, to anybody,
-- are refused as pending, only their cancel is admitted, and no hangup, whoever asks for it, is
-- planned as the end of the call.
pub mark_transfer_locks :
    (leg : LegMetadata) (r q : CallControlRequest) (target other : Text) (s : CallState)
    → (mark_transfer leg r target s).result.refusal ≡ none
    → target ≢ 0
    → are_foreign s (legs_of_user target s.agent_legs) ≡ true
    → let t = (mark_transfer leg r target s).draft in
      (refuse_hold t leg r ≡ some transfer_pending)
      × (refuse_transfer t leg r other ≡ some transfer_pending)
      × (refuse_transfer_cancel t leg r ≡ none)
      × (plan_hangup t q ≢ end_plan)
mark_transfer_locks leg r q target other s m b f =
    let (e, n) = mark_transfer_marks leg r target s m in
    let k = marked_is_connected leg r target s f n in
    pending_locks (mark_transfer leg r target s).draft leg r q target other
      (subst (λ t. refuse_unless_on_connected_call t leg r ≡ none) (sym e) k)
      (ap (λ (t : CallState). t.pending_transfer_to_user_id) e)
      (ap (λ (t : CallState). t.transfer_initiated_by) e) b

-- A transfer that was failed (declined, cancelled, unanswered) is settled: no other failure finds it
-- pending, and the teammate whose leg joins an answered call of another agent after it is turned
-- away without a change.
pub fail_transfer_settles :
    (target other u leg a : Text) (s : CallState)
    → (fail_transfer target s).result ≢ none
    → s.answered ≡ true
    → s.active_agent_user_id ≡ some a
    → a ≢ u
    → let t = (fail_transfer target s).draft in
      ((fail_transfer other t).result ≡ none) × (decide_agent_joined u leg t ≡ changed intruder t)
unfolding fail_transfer decide_agent_joined
fail_transfer_settles target other u leg a s f h e n = (ground arith, ground arith)

-- A transfer that the teammate completed by joining is settled: no failure finds it pending, whoever
-- it names; the teammate is the agent of the call, through the leg that joined, which is not among
-- the legs released; and a call that was answered still is.
pub decide_agent_joined_settles :
    (u leg other : Text) (first : Bool) (losing : List Text) (handover : TransferHandover)
    (s : CallState)
    → (decide_agent_joined u leg s).result ≡ joined first losing (some handover)
    → let t = (decide_agent_joined u leg s).draft in
      ((fail_transfer other t).result ≡ none)
      × (t.active_agent_user_id ≡ some u)
      × (t.agent_leg_uuid ≡ some leg)
      × (handover.to_user_id ≡ u)
      × ((not s.answered || t.answered) ≡ true)
      × (elem leg handover.released_leg_uuids ≡ false)
unfolding fail_transfer decide_agent_joined
decide_agent_joined_settles u leg other first losing handover s h =
    elim (Option-cases s.active_agent_user_id) [
      | inl e ↦ absurd (ground arith)
      | inr (a, e) ↦ (
        ground arith,
        ground arith,
        ground arith,
        ground arith,
        ground arith,
        ground (arith, elem-filter (λ other. not (other == leg)) leg (keys s.agent_legs)),
      )
    ]

-- Once the leg that hands a call over is gone, a transfer that falls through does not send the other
-- party back to it.
pub plan_transfer_failure-remove_leg :
    (s : CallState) (leg : Text)
    → is s.transfer_origin_leg_uuid leg ≡ true
    → plan_transfer_failure (remove_leg s leg) ≢ return_to_agent
unfolding plan_transfer_failure remove_leg
plan_transfer_failure-remove_leg s leg h e = ground arith
