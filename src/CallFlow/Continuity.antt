-- ===== src/CallFlow/Continuity.antt =====
-- What stays of a call over any sequence of writes (call-flow.ts, telephony.service.ts).
use iziphone.Prelude.{
  ℕ, ◌<◌, ◌⊎◌, inl, inr, Bool, true, not, ◌||◌, ◌≡◌, sym, some, List, [], ◌∷◌, arith,
}
use mathlib.Core.Path.{subst}
use iziphone.Domain.{Text}
use iziphone.CallState.{CallState, LegMetadata, remove_leg}
use iziphone.CallControl.{CallControlRequest}
use iziphone.CallFlow.Transfers.{
  mark_transfer, remove_legs, legs_of_user, end_call, record_hold, fail_transfer,
}
use iziphone.CallFlow.Answers.{decide_agent_joined, join_caller, join_external}
use iziphone.CallFlow.LegEnds.{decide_leg_ended}
use iziphone.CallFlow.Teardown.{voicemail_instead, route_to_voicemail, finalize}
use iziphone.CallFlow.Ringing.{
  take_turn, register_agent_legs, record_external_leg, ensure_conference_reference,
}
use iziphone.CallFlow.Writes.{Write, ends, transfers, apply, run}
use iziphone.CallFlow.Drafts.{draft_of, apply-draft, run_nil, run_cons}

abbrev pub implies : Bool → Bool → Bool
implies a b = not a || b

-- `t` is a later state of the call that `s` is a state of: the same parties, and nothing that
-- happened for good is undone.
pub record Continues (s t : CallState) : Type 0 where
  pub same_conversation : t.conversation_uuid ≡ s.conversation_uuid
  pub same_direction : t.direction ≡ s.direction
  pub same_caller : t.from ≡ s.from
  pub same_callee : t.to ≡ s.to
  pub stays_answered : implies s.answered t.answered ≡ true
  pub stays_in_voicemail : implies s.voicemail t.voicemail ≡ true
  pub stays_ending : implies s.ending t.ending ≡ true

Continues-refl : (s : CallState) → Continues s s
Continues-refl s = ground arith

Continues-trans : (s t u : CallState) → Continues s t → Continues t u → Continues s u
Continues-trans s t u a b = ground arith

remove_legs-Continues : (s : CallState) (legs : List Text) → Continues s (remove_legs s legs)
unfolding remove_legs remove_leg
remove_legs-Continues s [] = Continues-refl s
remove_legs-Continues s (leg ∷ legs) =
    Continues-trans s (remove_leg s leg) (remove_legs (remove_leg s leg) legs) (ground arith)
      (remove_legs-Continues (remove_leg s leg) legs)

mark_transfer-Continues :
    (leg : LegMetadata) (r : CallControlRequest) (target : Text) (s : CallState)
    → Continues s (mark_transfer leg r target s).draft
unfolding mark_transfer
mark_transfer-Continues leg r target s =
    ground (arith, remove_legs-Continues s (legs_of_user target s.agent_legs))

draft_of-Continues : (w : Write) (s : CallState) → Continues s (draft_of w s)
unfolding draft_of end_call record_hold fail_transfer decide_agent_joined join_caller join_external
    decide_leg_ended remove_leg voicemail_instead route_to_voicemail finalize take_turn
    register_agent_legs record_external_leg ensure_conference_reference
draft_of-Continues (ends now by) s = ground arith
draft_of-Continues (transfers leg r target) s = mark_transfer-Continues leg r target s
draft_of-Continues _ s = ground arith

-- The very state, or one of a later version.
abbrev pub IsSameOrLater : CallState → CallState → Type 0
IsSameOrLater s t = (t ≡ s) ⊎ (s.version < t.version)

Continues-version : (c : CallState) (v : ℕ) → Continues c (record c { version = v })
Continues-version c v = ground arith

pub apply-Continues :
    (w : Write) (s t : CallState) → apply w s ≡ some t → Continues s t × IsSameOrLater s t
apply-Continues w s t h =
    let d = apply-draft w s t h in
    (
      subst (Continues s) (sym d.from_draft) (
          Continues-trans s (draft_of w s) _ (draft_of-Continues w s)
            (Continues-version (draft_of w s) t.version)),
      elim d.next_version [ inl same ↦ inl same | inr next ↦ inr (omega arith) ],
    )

IsSameOrLater-trans :
    (s t u : CallState) → IsSameOrLater s t → IsSameOrLater t u → IsSameOrLater s u
IsSameOrLater-trans s t u (inl e) later = subst (λ x. IsSameOrLater x u) e later
IsSameOrLater-trans s t u (inr l) (inl e) = inr (subst (λ x. s.version < x.version) (sym e) l)
IsSameOrLater-trans s t u (inr l) (inr m) = inr (omega arith)

-- Over any sequence of writes that leaves the call going, its id, its direction and its two numbers
-- stay; an answered call stays answered, a call in voicemail stays in voicemail, and a call that is
-- ending stays so; and the state that is left is the very state there was, or one of a later version.
pub run-Continues :
    (ws : List Write) (s t : CallState)
    → run ws (some s) ≡ some t
    → Continues s t × IsSameOrLater s t
run-Continues [] s t h =
    let e = run_nil s t h in (subst (Continues s) (sym e) (Continues-refl s), inl e)
run-Continues (w ∷ ws) s t h =
    let (u, e, rest) = run_cons w ws s t h in
    let (c, v) = apply-Continues w s u e in
    let (c', v') = run-Continues ws u t rest in
    (Continues-trans s u t c c', IsSameOrLater-trans s u t v v')
