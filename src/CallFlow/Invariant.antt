-- ===== src/CallFlow/Invariant.antt =====
-- The invariant of a call's state (call-state.ts), and what does not touch it.
pub mod Preserved
use iziphone.Prelude.{
  ℕ, zero, suc, Bool, true, false, not, ◌&&◌, ◌||◌, ◌≡◌, refl, ◌⊎◌, inl, inr, sym, ap, ◌∙◌, Option,
  none, some, List, [], ◌∷◌, ◌++◌, arith, ◌==◌, if◌then◌else◌, filter, elem, unique, Distinct, Dict,
  keys, erase, insert, elem-append, elem-filter, elem-unique, Distinct-filter, Distinct-unique,
  keys-erase, elem-keys-insert, Distinct-keys-insert, Bool-cases, Option-cases,
}
use mathlib.Core.Path.{subst}
use iziphone.Domain.{Text, is, CallEndStatus}
use iziphone.CallState.{CallState, CallParticipant, LegMetadata, remove_leg}
use iziphone.CallControl.{CallControlRequest, refuse_transfer}
use iziphone.CallStore.{CallStateChange, after_change, is_unchanged, state_after}
use iziphone.CallFlow.Transfers.{
  mark_transfer, mark_unless, remove_legs, legs_of_user, end_call, record_hold, fail_transfer,
}
use iziphone.CallFlow.Answers.{decide_agent_joined, join_caller, join_external}
use iziphone.CallFlow.LegEnds.{decide_leg_ended}
use iziphone.CallFlow.Teardown.{voicemail_instead, route_to_voicemail, finalize}
use iziphone.CallFlow.Ringing.{
  record_legs, take_turn, register_agent_legs, record_external_leg, ensure_conference_reference,
}
use iziphone.CallFlow.Writes.{
  Write, ends, holds, transfers, fails, agent_joins, caller_joins, external_joins, leg_ends,
  goes_to_voicemail, moves_to_voicemail, finalizes, takes_turn, registers, dials_external,
  references, apply, apply_to, run,
}

-- Every element of `xs` is one of `ys`.
abbrev pub Within : List Text → List Text → Type 0
Within [] ys = Unit {0}
Within (x ∷ xs) ys = (elem x ys ≡ true) × Within xs ys

-- No transfer is pending: its three marks are clear together.
pub record IsSettled (s : CallState) : Type 0 where
  pub no_target : s.pending_transfer_to_user_id ≡ none
  pub no_initiator : s.transfer_initiated_by ≡ none
  pub no_origin : s.transfer_origin_leg_uuid ≡ none

-- A transfer is pending: somebody asked for it, on an answered call that is not ending.
pub record IsHandingOver (s : CallState) : Type 0 where
  pub target : Text
  pub marked : s.pending_transfer_to_user_id ≡ some target
  pub initiator : Text
  pub asked : s.transfer_initiated_by ≡ some initiator
  pub on_answered : s.answered ≡ true
  pub not_ending : s.ending ≡ false

-- The legs of the agents: each is recorded once, and each that rings is recorded.
pub record AreLegsKept (s : CallState) : Type 0 where
  pub recorded_once : Distinct (keys s.agent_legs)
  pub rings_once : Distinct s.pending_agent_leg_uuids
  pub rings_recorded : Within s.pending_agent_leg_uuids (keys s.agent_legs)

pub record IsValid (s : CallState) : Type 0 where
  pub transfer : IsSettled s ⊎ IsHandingOver s
  pub legs : AreLegsKept s

abbrev pub AfterIsValid : Option CallState → Type 0
AfterIsValid none = Unit {0}
AfterIsValid (some s) = IsValid s

pub Within-elem :
    (x : Text) (xs ys : List Text) → Within xs ys → elem x xs ≡ true → elem x ys ≡ true
Within-elem x [] ys w h = cc
Within-elem x (y ∷ xs) ys w h = ground (arith, Within-elem x xs ys w.1)

pub Within-without :
    (leg : Text) (xs ys : List Text)
    → Within xs ys
    → Within (filter (λ l. not (l == leg)) xs) (filter (λ l. not (l == leg)) ys)
Within-without leg [] ys w = tt
Within-without leg (x ∷ xs) ys w =
    ground (arith, Within-without leg xs ys w.1, elem-filter (λ l. not (l == leg)) x ys)

pub Within-filter : (p : Text → Bool) (xs ys : List Text) → Within xs ys → Within (filter p xs) ys
Within-filter p [] ys w = tt
Within-filter p (x ∷ xs) ys w = ground (arith, Within-filter p xs ys w.1)

pub remove_leg-AreLegsKept :
    (s : CallState) (leg : Text) → AreLegsKept s → AreLegsKept (remove_leg s leg)
unfolding remove_leg
remove_leg-AreLegsKept s leg k = record {
  recorded_once =
      rw (keys-erase leg s.agent_legs)
        (Distinct-filter (λ l. not (l == leg)) (keys s.agent_legs) k.recorded_once);
  rings_once = Distinct-filter (λ l. not (l == leg)) s.pending_agent_leg_uuids k.rings_once;
  rings_recorded =
      rw (keys-erase leg s.agent_legs)
        (Within-without leg s.pending_agent_leg_uuids (keys s.agent_legs) k.rings_recorded);
}

pub remove_legs-AreLegsKept :
    (s : CallState) (legs : List Text) → AreLegsKept s → AreLegsKept (remove_legs s legs)
unfolding remove_legs
remove_legs-AreLegsKept s [] k = k
remove_legs-AreLegsKept s (leg ∷ legs) k =
    remove_legs-AreLegsKept (remove_leg s leg) legs (remove_leg-AreLegsKept s leg k)

-- Forgetting a leg leaves a pending transfer as it is, but for the leg it came from.
pub remove_leg-transfer :
    (s : CallState) (leg : Text)
    → IsSettled s ⊎ IsHandingOver s
    → IsSettled (remove_leg s leg) ⊎ IsHandingOver (remove_leg s leg)
unfolding remove_leg
remove_leg-transfer s leg (inl t) = inl (ground arith)
remove_leg-transfer s leg (inr t) = inr (record {
  target = t.target;
  marked = t.marked;
  initiator = t.initiator;
  asked = t.asked;
  on_answered = t.on_answered;
  not_ending = t.not_ending;
})

pub remove_leg-IsValid : (s : CallState) (leg : Text) → IsValid s → IsValid (remove_leg s leg)
remove_leg-IsValid s leg v = record {
  transfer = remove_leg-transfer s leg v.transfer;
  legs = remove_leg-AreLegsKept s leg v.legs;
}

-- A state that differs from a valid one in other fields than the invariant's is valid.
pub transfer_frame :
    (s t : CallState)
    → t.pending_transfer_to_user_id ≡ s.pending_transfer_to_user_id
    → t.transfer_initiated_by ≡ s.transfer_initiated_by
    → t.transfer_origin_leg_uuid ≡ s.transfer_origin_leg_uuid
    → t.answered ≡ (s.answered || t.answered)
    → t.ending ≡ s.ending
    → IsSettled s ⊎ IsHandingOver s
    → IsSettled t ⊎ IsHandingOver t
transfer_frame s t a b c d e (inl h) = inl (ground arith)
transfer_frame s t a b c d e (inr h) = inr (record {
  target = h.target;
  marked = a ∙ h.marked;
  initiator = h.initiator;
  asked = b ∙ h.asked;
  on_answered = ground arith;
  not_ending = e ∙ h.not_ending;
})

pub legs_frame :
    (s t : CallState)
    → t.agent_legs ≡ s.agent_legs
    → t.pending_agent_leg_uuids ≡ s.pending_agent_leg_uuids
    → AreLegsKept s
    → AreLegsKept t
legs_frame s t a b k = record {
  recorded_once = rw a k.recorded_once;
  rings_once = rw b k.rings_once;
  rings_recorded = rw (a, b) k.rings_recorded;
}

pub IsValid-frame :
    (s t : CallState)
    → t.pending_transfer_to_user_id ≡ s.pending_transfer_to_user_id
    → t.transfer_initiated_by ≡ s.transfer_initiated_by
    → t.transfer_origin_leg_uuid ≡ s.transfer_origin_leg_uuid
    → t.answered ≡ (s.answered || t.answered)
    → t.ending ≡ s.ending
    → t.agent_legs ≡ s.agent_legs
    → t.pending_agent_leg_uuids ≡ s.pending_agent_leg_uuids
    → IsValid s
    → IsValid t
IsValid-frame s t a b c d e f g v = record {
  transfer = transfer_frame s t a b c d e v.transfer;
  legs = legs_frame s t f g v.legs;
}

pub or_idem : (b : Bool) → b ≡ (b || b)
or_idem true = refl
or_idem false = refl

pub or_true : (b : Bool) → true ≡ (b || true)
or_true true = refl
or_true false = refl

after_change-IsValid :
    {R : Type 0} (s : CallState) (c : CallStateChange R)
    → IsValid c.draft
    → AfterIsValid (after_change s c)
unfolding after_change
after_change-IsValid s c v = elim (Bool-cases c.remove) [
  | inl e ↦ rw e tt
  | inr e ↦ rw e (IsValid-frame c.draft _ refl refl refl (or_idem _) refl refl refl v)
]

pub state_after-IsValid :
    {R : Type 0} (s : CallState) (c : CallStateChange R)
    → IsValid s
    → IsValid c.draft
    → AfterIsValid (state_after s c)
unfolding state_after
state_after-IsValid s c v d = elim (Bool-cases (is_unchanged s c)) [
  | inl u ↦ rw u v
  | inr u ↦ rw u (after_change-IsValid s c d)
]
