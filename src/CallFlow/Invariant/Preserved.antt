-- ===== src/CallFlow/Invariant/Preserved.antt =====
-- The invariant of a call's state under the writes of call-flow.ts and telephony.service.ts.
use iziphone.Prelude.{
  ℕ, Bool, true, false, not, ◌||◌, ◌≡◌, refl, inl, inr, sym, ◌∙◌, Option, none, some, List, [], ◌∷◌,
  ◌++◌, arith, ◌==◌, elem, unique, Distinct, Dict, keys, insert, elem-append, elem-unique,
  Distinct-filter, Distinct-unique, elem-keys-insert, Distinct-keys-insert, Option-cases,
}
use mathlib.Core.Path.{subst}
use iziphone.Domain.{Text, CallEndStatus}
use iziphone.CallState.{CallState, CallParticipant, LegMetadata, remove_leg}
use iziphone.CallControl.{CallControlRequest, refuse_transfer}
use iziphone.CallStore.{after_change}
use iziphone.CallFlow.Transfers.{
  mark_transfer, mark_unless, remove_legs, legs_of_user, end_call, record_hold, fail_transfer,
}
use iziphone.CallFlow.Answers.{decide_agent_joined, join_caller, join_external}
use iziphone.CallFlow.LegEnds.{decide_leg_ended}
use iziphone.CallFlow.Teardown.{voicemail_instead, route_to_voicemail, finalize}
use iziphone.CallFlow.Ringing.{
  record_legs, take_turn, register_agent_legs, record_external_leg, ensure_conference_reference,
}
use iziphone.CallFlow.Writes.{
  Begin, dialed, not_routed, routed, first_state, outbound_call, unrouted_call, routed_call, Write,
  ends, holds, transfers, fails, agent_joins, caller_joins, external_joins, leg_ends,
  goes_to_voicemail, moves_to_voicemail, finalizes, takes_turn, registers, dials_external,
  references, apply, run,
}
use iziphone.CallFlow.Invariant.{
  Within, IsValid, AfterIsValid, Within-elem, Within-filter, remove_legs-AreLegsKept,
  remove_leg-IsValid, legs_frame, IsValid-frame, or_idem, or_true, state_after-IsValid,
}

end_call-IsValid :
    (now : Text) (by : Option Text) (s : CallState) → IsValid s → IsValid (end_call now by s).draft
unfolding end_call
end_call-IsValid now by s v = ground arith

record_hold-IsValid : (held : Bool) (s : CallState) → IsValid s → IsValid (record_hold held s).draft
unfolding record_hold
record_hold-IsValid held s v = ground arith

fail_transfer-IsValid :
    (target : Text) (s : CallState) → IsValid s → IsValid (fail_transfer target s).draft
unfolding fail_transfer
fail_transfer-IsValid target s v = ground arith

join_caller-IsValid : (leg : Text) (s : CallState) → IsValid s → IsValid (join_caller leg s).draft
unfolding join_caller
join_caller-IsValid leg s v = IsValid-frame s _ refl refl refl (or_idem _) refl refl refl v

join_external-IsValid :
    (leg : Text) (s : CallState) → IsValid s → IsValid (join_external leg s).draft
unfolding join_external
join_external-IsValid leg s v = IsValid-frame s _ refl refl refl (or_true _) refl refl refl v

voicemail_instead-IsValid : (s : CallState) → IsValid s → IsValid (voicemail_instead s).draft
unfolding voicemail_instead
voicemail_instead-IsValid s v = ground arith

route_to_voicemail-IsValid : (s : CallState) → IsValid s → IsValid (route_to_voicemail s).draft
unfolding route_to_voicemail
route_to_voicemail-IsValid s v = ground arith

take_turn-IsValid : (index : ℕ) (s : CallState) → IsValid s → IsValid (take_turn index s).draft
unfolding take_turn
take_turn-IsValid index s v = ground arith

record_external_leg-IsValid :
    (leg : Text) (s : CallState) → IsValid s → IsValid (record_external_leg leg s).draft
unfolding record_external_leg
record_external_leg-IsValid leg s v = ground arith

ensure_conference_reference-IsValid :
    (sid : Text) (s : CallState) → IsValid s → IsValid (ensure_conference_reference sid s).draft
unfolding ensure_conference_reference
ensure_conference_reference-IsValid sid s v =
    IsValid-frame s _ refl refl refl (or_idem _) refl refl refl v

decide_agent_joined-IsValid :
    (u leg : Text) (s : CallState) → IsValid s → IsValid (decide_agent_joined u leg s).draft
unfolding decide_agent_joined
decide_agent_joined-IsValid u leg s v = ground (
  arith,
  Distinct-filter (λ p. not (p == leg)) s.pending_agent_leg_uuids v.legs.rings_once,
  Within-filter (λ p. not (p == leg)) s.pending_agent_leg_uuids (keys s.agent_legs)
      v.legs.rings_recorded,
)

decide_leg_ended-IsValid :
    (p : CallParticipant) (leg : Text) (status : CallEndStatus) (s : CallState)
    → IsValid s
    → IsValid (decide_leg_ended p leg status s).draft
unfolding decide_leg_ended
decide_leg_ended-IsValid p leg status s v = ground (arith, remove_leg-IsValid s leg v)

Within-append_left : (xs ys zs : List Text) → Within xs ys → Within xs (ys ++ zs)
Within-append_left [] ys zs w = tt
Within-append_left (x ∷ xs) ys zs w =
    ground (arith, elem-append x ys zs, Within-append_left xs ys zs w.1)

Within-of_elem :
    (xs ys : List Text) → ((x : Text) → elem x xs ≡ true → elem x ys ≡ true) → Within xs ys
Within-of_elem [] ys h = tt
Within-of_elem (x ∷ xs) ys h =
    (h x (ground arith), Within-of_elem xs ys (λ y e. h y (ground arith)))

elem-keys-record_legs :
    (x : Text) (legs d : Dict)
    → elem x (keys (record_legs legs d)) ≡ (elem x (keys legs) || elem x (keys d))
elem-keys-record_legs x [] d = refl
elem-keys-record_legs x ((leg, u) ∷ legs) d =
    ground (arith, elem-keys-record_legs x legs (insert leg u d), elem-keys-insert x leg u d)

Distinct-keys-record_legs :
    (legs d : Dict) → Distinct (keys d) → Distinct (keys (record_legs legs d))
Distinct-keys-record_legs [] d h = h
Distinct-keys-record_legs ((leg, u) ∷ legs) d h =
    Distinct-keys-record_legs legs (insert leg u d) (Distinct-keys-insert leg u d h)

registered_Within :
    (legs d : Dict) (pending : List Text)
    → Within pending (keys d)
    → Within (unique (pending ++ keys legs)) (keys (record_legs legs d))
registered_Within legs d pending w =
    Within-of_elem (unique (pending ++ keys legs)) (keys (record_legs legs d)) λ x h. ground (
      arith,
      elem-unique x (pending ++ keys legs),
      elem-append x pending (keys legs),
      elem-keys-record_legs x legs d,
      Within-elem x pending (keys d) w,
    )

register_agent_legs-IsValid :
    (legs : Dict) (s : CallState) → IsValid s → IsValid (register_agent_legs legs s).draft
unfolding register_agent_legs
register_agent_legs-IsValid legs s v = ground (
  arith,
  Distinct-keys-record_legs legs s.agent_legs v.legs.recorded_once,
  Distinct-unique (s.pending_agent_leg_uuids ++ keys legs),
  registered_Within legs s.agent_legs s.pending_agent_leg_uuids v.legs.rings_recorded,
)

refuse_transfer-none :
    (s : CallState) (leg : LegMetadata) (r : CallControlRequest) (target : Text)
    → refuse_transfer s leg r target ≡ none
    → (s.answered ≡ true) × (s.ending ≡ false)
unfolding refuse_transfer
refuse_transfer-none s leg r target h = ground arith

remove_legs_flags :
    (s : CallState) (legs : List Text)
    → ((remove_legs s legs).answered ≡ s.answered) × ((remove_legs s legs).ending ≡ s.ending)
unfolding remove_legs remove_leg
remove_legs_flags s [] = (refl, refl)
remove_legs_flags s (leg ∷ legs) = remove_legs_flags (remove_leg s leg) legs

mark_transfer-IsValid :
    (leg : LegMetadata) (r : CallControlRequest) (target : Text) (s : CallState)
    → IsValid s
    → IsValid (mark_transfer leg r target s).draft
unfolding mark_transfer
mark_transfer-IsValid leg r target s v = elim (Option-cases (refuse_transfer s leg r target)) [
  | inl e ↦
      let lost = legs_of_user target s.agent_legs in
      let (answered, ending) = refuse_transfer-none s leg r target e in
      let (a, b) = remove_legs_flags s lost in
      let kept = remove_legs-AreLegsKept s lost v.legs in
      subst (λ o. IsValid (mark_unless r target s o).draft) (sym e)
        (record {
          transfer = inr (record {
            target = target;
            marked = refl;
            initiator = r.user_id;
            asked = refl;
            on_answered = a ∙ answered;
            not_ending = b ∙ ending;
          });
          legs = legs_frame (remove_legs s lost) _ refl refl kept;
        })
  | inr (refusal, e) ↦ subst (λ o. IsValid (mark_unless r target s o).draft) (sym e) v
]

-- A write keeps a valid state valid, or ends the call.
pub apply-IsValid : (w : Write) (s : CallState) → IsValid s → AfterIsValid (apply w s)
unfolding apply
apply-IsValid (ends now by) s v =
    state_after-IsValid s (end_call now by s) v (end_call-IsValid now by s v)
apply-IsValid (holds held) s v =
    state_after-IsValid s (record_hold held s) v (record_hold-IsValid held s v)
apply-IsValid (transfers leg r target) s v =
    state_after-IsValid s (mark_transfer leg r target s) v (mark_transfer-IsValid leg r target s v)
apply-IsValid (fails target) s v =
    state_after-IsValid s (fail_transfer target s) v (fail_transfer-IsValid target s v)
apply-IsValid (agent_joins u leg) s v =
    state_after-IsValid s (decide_agent_joined u leg s) v (decide_agent_joined-IsValid u leg s v)
apply-IsValid (caller_joins leg) s v =
    state_after-IsValid s (join_caller leg s) v (join_caller-IsValid leg s v)
apply-IsValid (external_joins leg) s v =
    state_after-IsValid s (join_external leg s) v (join_external-IsValid leg s v)
apply-IsValid (leg_ends p leg status) s v =
    state_after-IsValid s (decide_leg_ended p leg status s) v
      (decide_leg_ended-IsValid p leg status s v)
apply-IsValid goes_to_voicemail s v =
    state_after-IsValid s (voicemail_instead s) v (voicemail_instead-IsValid s v)
apply-IsValid moves_to_voicemail s v =
    state_after-IsValid s (route_to_voicemail s) v (route_to_voicemail-IsValid s v)
apply-IsValid finalizes s v = unfold finalize after_change in tt
apply-IsValid (takes_turn index) s v =
    state_after-IsValid s (take_turn index s) v (take_turn-IsValid index s v)
apply-IsValid (registers legs) s v =
    state_after-IsValid s (register_agent_legs legs s) v (register_agent_legs-IsValid legs s v)
apply-IsValid (dials_external leg) s v =
    state_after-IsValid s (record_external_leg leg s) v (record_external_leg-IsValid leg s v)
apply-IsValid (references sid) s v =
    state_after-IsValid s (ensure_conference_reference sid s) v
      (ensure_conference_reference-IsValid sid s v)

pub run-AfterIsValid :
    (ws : List Write) (s : Option CallState) → AfterIsValid s → AfterIsValid (run ws s)
unfolding run
run-AfterIsValid [] s v = v
run-AfterIsValid (w ∷ ws) none v = run-AfterIsValid ws none tt
run-AfterIsValid (w ∷ ws) (some s) v = run-AfterIsValid ws (apply w s) (apply-IsValid w s v)

first_state-IsValid : (b : Begin) → IsValid (first_state b)
unfolding outbound_call unrouted_call routed_call
first_state-IsValid (dialed name call_sid grant now) = record {
  transfer = inl (record { no_target = refl; no_initiator = refl; no_origin = refl });
  legs = record { recorded_once = (refl, tt); rings_once = tt; rings_recorded = tt };
}
first_state-IsValid (not_routed name call_sid from to now) = record {
  transfer = inl (record { no_target = refl; no_initiator = refl; no_origin = refl });
  legs = record { recorded_once = tt; rings_once = tt; rings_recorded = tt };
}
first_state-IsValid (routed name call_sid from to now entry plan greeting) = record {
  transfer = inl (record { no_target = refl; no_initiator = refl; no_origin = refl });
  legs = record { recorded_once = tt; rings_once = tt; rings_recorded = tt };
}

-- However a call began and whatever was written to it since, in any order, its state is valid as
-- long as it is there: a transfer is pending with its initiator on an answered call that is not
-- ending, or not pending at all and without an initiator and an origin; every agent leg is recorded
-- once, and every leg that still rings is listed once and is recorded.
pub run_first-AfterIsValid :
    (b : Begin) (ws : List Write) → AfterIsValid (run ws (some (first_state b)))
run_first-AfterIsValid b ws = run-AfterIsValid ws (some (first_state b)) (first_state-IsValid b)
