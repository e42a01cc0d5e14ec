-- ===== src/Controller/Once/Writes.antt =====
-- The writes of the handlers and the reports that they pay for
-- (apps/call-controller/src/calls/call-flow.ts, telephony.service.ts).
use iziphone.Prelude.{
  ℕ, Dict, Bool, true, false, Option, none, some, ◌≡◌, inl, inr, sym, arith, Option-cases, ap, ◌∙◌,
}
use mathlib.Core.Path.{subst}
use iziphone.Domain.{Text}
use iziphone.CallControl.{CallControlRequest}
use iziphone.CallState.{CallState, LegMetadata}
use iziphone.CallStore.{CallStateChange, state_after, is_unchanged, after_change}
use iziphone.CallFlow.Writes.{
  Write, apply, ends, holds, transfers, fails, caller_joins, goes_to_voicemail, moves_to_voicemail,
  takes_turn, registers, dials_external, references,
}
use iziphone.CallFlow.Transfers.{end_call, record_hold, mark_transfer, fail_transfer}
use iziphone.CallFlow.Answers.{join_caller}
use iziphone.CallFlow.Teardown.{voicemail_instead, route_to_voicemail}
use iziphone.CallFlow.Ringing.{
  take_turn, register_agent_legs, record_external_leg, ensure_conference_reference,
}
use iziphone.CallFlow.Drafts.{state_after-draft}
use iziphone.CallFlow.Continuity.{Continues, apply-Continues}
use iziphone.Controller.Actions.{Outside, change_call, update_call}
use iziphone.Controller.Actions.Reports.{IsLasting, Keeps, Saves}
use iziphone.Controller.Actions.Reports.Changes.{Keeps-change_call, Keeps-update_call}

Continues-Saves : (s t : CallState) → Continues s t → Saves 0 0 s (some t)
Continues-Saves s t c =
    let a = c.stays_answered in record { of_end = omega arith; of_start = ground arith }

pub apply-Saves : (w : Write) (s : CallState) → Saves 0 0 s (apply w s)
apply-Saves w s = elim (Option-cases (apply w s)) [
  | inl e ↦ subst (Saves 0 0 s) (sym e) (record { of_end = omega arith; of_start = ground arith })
  | inr (t, e) ↦ subst (Saves 0 0 s) (sym e) (Continues-Saves s t (apply-Continues w s t e).0)
]

module _ {o : Outside} (lasting : IsLasting o) where
  pub Keeps-end_call : (now : Text) (by : Option Text) → Keeps (change_call o (end_call now by))
  unfolding apply
  Keeps-end_call now by = Keeps-change_call o lasting (end_call now by) (apply-Saves (ends now by))

  pub Keeps-record_hold : (held : Bool) → Keeps (change_call o (record_hold held))
  unfolding apply
  Keeps-record_hold held = Keeps-change_call o lasting (record_hold held) (apply-Saves (holds held))

  pub Keeps-mark_transfer :
      (leg : LegMetadata) (r : CallControlRequest) (target : Text)
      → Keeps (change_call o (mark_transfer leg r target))
  unfolding apply
  Keeps-mark_transfer leg r target =
      Keeps-change_call o lasting (mark_transfer leg r target)
        (apply-Saves (transfers leg r target))

  pub Keeps-fail_transfer : (target : Text) → Keeps (change_call o (fail_transfer target))
  unfolding apply
  Keeps-fail_transfer target =
      Keeps-change_call o lasting (fail_transfer target) (apply-Saves (fails target))

  pub Keeps-join_caller : (leg : Text) → Keeps (change_call o (join_caller leg))
  unfolding apply
  Keeps-join_caller leg =
      Keeps-change_call o lasting (join_caller leg) (apply-Saves (caller_joins leg))

  pub Keeps-voicemail_instead : Keeps (change_call o voicemail_instead)
  unfolding apply
  Keeps-voicemail_instead =
      Keeps-change_call o lasting voicemail_instead (apply-Saves goes_to_voicemail)

  pub Keeps-route_to_voicemail : Keeps (change_call o route_to_voicemail)
  unfolding apply
  Keeps-route_to_voicemail =
      Keeps-change_call o lasting route_to_voicemail (apply-Saves moves_to_voicemail)

  pub Keeps-take_turn : (index : ℕ) → Keeps (change_call o (take_turn index))
  unfolding apply
  Keeps-take_turn index =
      Keeps-change_call o lasting (take_turn index) (apply-Saves (takes_turn index))

  pub Keeps-register_agent_legs : (legs : Dict) → Keeps (update_call o (register_agent_legs legs))
  unfolding apply
  Keeps-register_agent_legs legs =
      Keeps-update_call o lasting (register_agent_legs legs) (apply-Saves (registers legs))

  pub Keeps-record_external_leg : (leg : Text) → Keeps (update_call o (record_external_leg leg))
  unfolding apply
  Keeps-record_external_leg leg =
      Keeps-update_call o lasting (record_external_leg leg) (apply-Saves (dials_external leg))

  pub Keeps-ensure_conference_reference :
      (sid : Text) → Keeps (update_call o (ensure_conference_reference sid))
  unfolding apply
  Keeps-ensure_conference_reference sid =
      Keeps-update_call o lasting (ensure_conference_reference sid) (apply-Saves (references sid))

pub ruleset write_rules = (
  Keeps-end_call, Keeps-record_hold, Keeps-mark_transfer, Keeps-fail_transfer, Keeps-join_caller,
  Keeps-voicemail_instead, Keeps-route_to_voicemail, Keeps-take_turn, Keeps-register_agent_legs,
  Keeps-record_external_leg, Keeps-ensure_conference_reference,
)

-- A write that answers the call pays for the report of its start.
pub Saves-answer :
    {R : Type 0} (s : CallState) (c : CallStateChange R)
    → s.answered ≡ false
    → c.draft.answered ≡ true
    → Saves 0 1 s (state_after s c)
Saves-answer s c a d = elim (Option-cases (state_after s c)) [
  | inl e ↦ subst (Saves 0 1 s) (sym e) (record { of_end = omega arith; of_start = ground arith })
  | inr (t, e) ↦
      let f : t.answered ≡ true = ap (λ x. x.answered) (state_after-draft s t c e).from_draft ∙ d in
      subst (Saves 0 1 s) (sym e) (record { of_end = omega arith; of_start = ground arith })
]

-- A write that removes the call pays for the report of its end.
pub Saves-removed :
    {R : Type 0} (s : CallState) (c : CallStateChange R)
    → c.remove ≡ true
    → Saves 1 0 s (state_after s c)
unfolding state_after is_unchanged after_change
Saves-removed s c h =
    let e : state_after s c ≡ none = ground arith in
    subst (Saves 1 0 s) (sym e) (record { of_end = omega arith; of_start = ground arith })
