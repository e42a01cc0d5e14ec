-- ===== src/CallFlow/Ownership.antt =====
-- Whose call it is, over any sequence of writes (call-flow.ts, telephony.service.ts).
use iziphone.Prelude.{
  Bool, true, false, not, ◌&&◌, ◌≡◌, refl, ◌⊎◌, inl, inr, sym, ap, ◌∙◌, none, some, List, [], ◌∷◌,
  arith, Bool-cases,
}
use mathlib.Core.Path.{subst}
use iziphone.Domain.{Text, is}
use iziphone.CallState.{CallState, remove_leg}
use iziphone.CallFlow.Transfers.{
  mark_transfer, remove_legs, legs_of_user, end_call, record_hold, fail_transfer,
}
use iziphone.CallFlow.Answers.{decide_agent_joined, join_caller, join_external}
use iziphone.CallFlow.LegEnds.{decide_leg_ended}
use iziphone.CallFlow.Teardown.{voicemail_instead, route_to_voicemail, finalize}
use iziphone.CallFlow.Ringing.{
  take_turn, register_agent_legs, record_external_leg, ensure_conference_reference,
}
use iziphone.CallFlow.Writes.{Write, ends, transfers, agent_joins, apply, run}
use iziphone.CallFlow.Drafts.{draft_of, apply-draft, run_nil, run_cons}

-- The write asks for a transfer.
abbrev pub is_transfer : Write → Bool
is_transfer (transfers leg r target) = true
is_transfer _ = false

abbrev pub asks_no_transfer : List Write → Bool
asks_no_transfer [] = true
asks_no_transfer (w ∷ ws) = not (is_transfer w) && asks_no_transfer ws

-- The agent of an answered call, after a write: the same, or the teammate a transfer is pending for.
pub record HandsOver (s t : CallState) (a : Text) : Type 0 where
  pub still_answered : t.answered ≡ true
  pub agent_or_target :
      (t.active_agent_user_id ≡ some a)
      ⊎ ((b : Text) × (t.active_agent_user_id ≡ some b) × (s.pending_transfer_to_user_id ≡ some b))

remove_legs_agent :
    (s : CallState) (legs : List Text)
    → ((remove_legs s legs).active_agent_user_id ≡ s.active_agent_user_id)
      × ((remove_legs s legs).answered ≡ s.answered)
unfolding remove_legs remove_leg
remove_legs_agent s [] = (refl, refl)
remove_legs_agent s (leg ∷ legs) = remove_legs_agent (remove_leg s leg) legs

draft_of-HandsOver :
    (w : Write) (s : CallState) (a : Text)
    → s.answered ≡ true
    → s.active_agent_user_id ≡ some a
    → HandsOver s (draft_of w s) a
unfolding draft_of end_call record_hold fail_transfer decide_agent_joined join_caller join_external
    decide_leg_ended remove_leg voicemail_instead route_to_voicemail finalize take_turn
    register_agent_legs record_external_leg ensure_conference_reference mark_transfer
draft_of-HandsOver (transfers leg r target) s a h e =
    ground (arith, remove_legs_agent s (legs_of_user target s.agent_legs))
draft_of-HandsOver (agent_joins u leg) s a h e =
    elim (Bool-cases (is s.pending_transfer_to_user_id u)) [
      | inl target ↦ record {
        still_answered = ground arith;
        agent_or_target = inr (u, ground arith, ground arith);
      }
      | inr other ↦ record { still_answered = ground arith; agent_or_target = inl (ground arith) }
    ]
draft_of-HandsOver (ends now by) s a h e = record {
  still_answered = ground arith;
  agent_or_target = inl (ground arith);
}
draft_of-HandsOver _ s a h e = record {
  still_answered = ground arith;
  agent_or_target = inl (ground arith);
}

-- An answered call that an agent has passes to nobody by any one write, unless a transfer to them is
-- pending.
pub apply-HandsOver :
    (w : Write) (s t : CallState) (a : Text)
    → s.answered ≡ true
    → s.active_agent_user_id ≡ some a
    → apply w s ≡ some t
    → HandsOver s t a
apply-HandsOver w s t a h e p =
    let d = draft_of-HandsOver w s a h e in
    subst (λ t. HandsOver s t a) (sym (apply-draft w s t p).from_draft)
      (record { still_answered = d.still_answered; agent_or_target = d.agent_or_target })

draft_of_settled :
    (w : Write) (s : CallState)
    → is_transfer w ≡ false
    → s.pending_transfer_to_user_id ≡ none
    → (draft_of w s).pending_transfer_to_user_id ≡ none
unfolding draft_of end_call record_hold fail_transfer decide_agent_joined join_caller join_external
    decide_leg_ended remove_leg voicemail_instead route_to_voicemail finalize take_turn
    register_agent_legs record_external_leg ensure_conference_reference mark_transfer
draft_of_settled (transfers leg r target) s h e = cc
draft_of_settled (ends now by) s h e = ground arith
draft_of_settled _ s h e = ground arith

-- Once an agent has an answered call and no transfer is pending, they have it for good, whatever
-- rings, joins or leaves, and in whatever order, until somebody asks for a transfer or the call ends.
pub run_keeps_agent :
    (ws : List Write) (s t : CallState) (a : Text)
    → asks_no_transfer ws ≡ true
    → s.answered ≡ true
    → s.active_agent_user_id ≡ some a
    → s.pending_transfer_to_user_id ≡ none
    → run ws (some s) ≡ some t
    → (t.answered ≡ true) × (t.active_agent_user_id ≡ some a)
run_keeps_agent [] s t a n h e q p = let i = run_nil s t p in (rw i h, rw i e)
run_keeps_agent (w ∷ ws) s t a n h e q p =
    let (u, step, rest) = run_cons w ws s t p in
    let d = apply-HandsOver w s u a h e step in
    let pending : u.pending_transfer_to_user_id ≡ none =
      ap (λ (c : CallState). c.pending_transfer_to_user_id) (apply-draft w s u step).from_draft
      ∙ draft_of_settled w s (ground arith) q in
    run_keeps_agent ws u t a (ground arith) d.still_answered (kept d) pending rest
  where
    kept : {v : CallState} → HandsOver s v a → v.active_agent_user_id ≡ some a
    kept d = elim d.agent_or_target [ inl same ↦ same | inr (b, now, was) ↦ cc ]
