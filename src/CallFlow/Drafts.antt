-- ===== src/CallFlow/Drafts.antt =====
-- The writes of Writes.antt one by one: what each leaves of the state.
use iziphone.Prelude.{
  ◌+◌, ◌≡◌, ◌⊎◌, Bool-cases, refl, inl, inr, sym, ap, ◌∙◌, none, some, List, [], ◌∷◌, arith,
  Option-cases,
}
use iziphone.CallState.{CallState}
use mathlib.Core.Path.{subst}
use iziphone.CallStore.{CallStateChange, after_change, is_unchanged, state_after}
use iziphone.CallStore.Writes.{unchanged_draft}
use iziphone.CallFlow.Transfers.{mark_transfer, end_call, record_hold, fail_transfer}
use iziphone.CallFlow.Answers.{decide_agent_joined, join_caller, join_external}
use iziphone.CallFlow.LegEnds.{decide_leg_ended}
use iziphone.CallFlow.Teardown.{voicemail_instead, route_to_voicemail, finalize}
use iziphone.CallFlow.Ringing.{
  take_turn, register_agent_legs, record_external_leg, ensure_conference_reference,
}
use iziphone.CallFlow.Writes.{
  Write, ends, holds, transfers, fails, agent_joins, caller_joins, external_joins, leg_ends,
  goes_to_voicemail, moves_to_voicemail, finalizes, takes_turn, registers, dials_external,
  references, apply, run,
}

-- The draft of a write.
unfoldable pub draft_of : Write → CallState → CallState
draft_of (ends now by) s = (end_call now by s).draft
draft_of (holds held) s = (record_hold held s).draft
draft_of (transfers leg r target) s = (mark_transfer leg r target s).draft
draft_of (fails target) s = (fail_transfer target s).draft
draft_of (agent_joins u leg) s = (decide_agent_joined u leg s).draft
draft_of (caller_joins leg) s = (join_caller leg s).draft
draft_of (external_joins leg) s = (join_external leg s).draft
draft_of (leg_ends p leg status) s = (decide_leg_ended p leg status s).draft
draft_of goes_to_voicemail s = (voicemail_instead s).draft
draft_of moves_to_voicemail s = (route_to_voicemail s).draft
draft_of finalizes s = (finalize s).draft
draft_of (takes_turn index) s = (take_turn index s).draft
draft_of (registers legs) s = (register_agent_legs legs s).draft
draft_of (dials_external leg) s = (record_external_leg leg s).draft
draft_of (references sid) s = (ensure_conference_reference sid s).draft

-- `t` is the draft at some version: that of `s` if the draft is `s`, or else the next one.
pub record IsDraftOf (s t draft : CallState) : Type 0 where
  pub from_draft : t ≡ record draft { version = t.version }
  pub next_version : (t ≡ s) ⊎ (t.version ≡ s.version + 1)

after_change-draft :
    {R : Type 0} (s t : CallState) (c : CallStateChange R)
    → after_change s c ≡ some t
    → t ≡ record c.draft { version = s.version + 1 }
unfolding after_change
after_change-draft s t c h = ground arith

pub state_after-draft :
    {R : Type 0} (s t : CallState) (c : CallStateChange R)
    → state_after s c ≡ some t
    → IsDraftOf s t c.draft
unfolding state_after
state_after-draft s t c h = elim (Bool-cases (is_unchanged s c)) [
  | inl u ↦
      let e : t ≡ s = ground arith in
      record {
        from_draft =
            subst (λ x. x ≡ record c.draft { version = x.version }) (sym e)
              (sym (unchanged_draft s c u));
        next_version = inl e;
      }
  | inr u ↦
      let e = after_change-draft s t c (ground arith) in
      record {
        from_draft = subst (λ x. x ≡ record c.draft { version = x.version }) (sym e) refl;
        next_version = inr (ap (λ (x : CallState). x.version) e);
      }
]

-- What a write leaves is its draft.
pub apply-draft : (w : Write) (s t : CallState) → apply w s ≡ some t → IsDraftOf s t (draft_of w s)
unfolding apply draft_of
apply-draft (ends now by) s t h = state_after-draft s t (end_call now by s) h
apply-draft (holds held) s t h = state_after-draft s t (record_hold held s) h
apply-draft (transfers leg r target) s t h = state_after-draft s t (mark_transfer leg r target s) h
apply-draft (fails target) s t h = state_after-draft s t (fail_transfer target s) h
apply-draft (agent_joins u leg) s t h = state_after-draft s t (decide_agent_joined u leg s) h
apply-draft (caller_joins leg) s t h = state_after-draft s t (join_caller leg s) h
apply-draft (external_joins leg) s t h = state_after-draft s t (join_external leg s) h
apply-draft (leg_ends p leg status) s t h =
    state_after-draft s t (decide_leg_ended p leg status s) h
apply-draft goes_to_voicemail s t h = state_after-draft s t (voicemail_instead s) h
apply-draft moves_to_voicemail s t h = state_after-draft s t (route_to_voicemail s) h
apply-draft finalizes s t h = state_after-draft s t (finalize s) h
apply-draft (takes_turn index) s t h = state_after-draft s t (take_turn index s) h
apply-draft (registers legs) s t h = state_after-draft s t (register_agent_legs legs s) h
apply-draft (dials_external leg) s t h = state_after-draft s t (record_external_leg leg s) h
apply-draft (references sid) s t h = state_after-draft s t (ensure_conference_reference sid s) h

run-none : (ws : List Write) → run ws none ≡ none
unfolding run
run-none [] = refl
run-none (w ∷ ws) = run-none ws

pub run_nil : (s t : CallState) → run [] (some s) ≡ some t → t ≡ s
unfolding run
run_nil s t h = ground arith

-- A first write that leaves a state, and the others from it.
pub run_cons :
    (w : Write) (ws : List Write) (s t : CallState)
    → run (w ∷ ws) (some s) ≡ some t
    → (u : CallState) × (apply w s ≡ some u) × (run ws (some u) ≡ some t)
unfolding run
run_cons w ws s t h = elim (Option-cases (apply w s)) [
  | inl e ↦ cc (run-none ws, ap (run ws) e, h)
  | inr (u, e) ↦ (u, e, sym (ap (run ws) e) ∙ h)
]
