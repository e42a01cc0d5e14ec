-- ===== src/Softphone/CallLine/Choice.antt =====
-- Which line each choice of call-line.ts ends on.
use iziphone.Prelude.{
  Bool, true, false, not, ◌≡◌, inl, inr, refl, Option, none, some, List, [], ◌∷◌, arith, ◌==◌,
  Option-cases, find, any,
}
use iziphone.Domain.{Text, is}
use iziphone.Softphone.CallLine.{
  OutboundCallLine, loaded, CallLinesAnswer, Session, call_lines_of, next_call_lines_answer,
  can_call, default_call_line, call_from_chosen_line, call_from_conversation_line,
  call_back_from_line, is_own,
}

module _ {A : Type 0} where
  find-any :
      (p q : A → Bool) (xs : List A) (x : A) → find p xs ≡ some x → q x ≡ true → any q xs ≡ true
  find-any p q [] x h hq = cc
  find-any p q (y ∷ xs) x h hq = ground (arith, find-any p q xs x)

  find_holds : (p : A → Bool) (xs : List A) (x : A) → find p xs ≡ some x → p x ≡ true
  find_holds p [] x h = cc
  find_holds p (y ∷ xs) x h = ground (arith, find_holds p xs x)

  find-none : (p : A → Bool) (xs : List A) → find p xs ≡ none → any p xs ≡ false
  find-none p [] h = refl
  find-none p (y ∷ xs) h = ground (arith, find-none p xs)

-- The line a call leaves from by default is one that is offered, and it is a line of the user's
-- own whenever one is offered.
pub default_call_line_own :
    (lines : List OutboundCallLine) (line : OutboundCallLine)
    → default_call_line lines ≡ some line
    → is_own line ≡ any is_own lines
unfolding default_call_line
default_call_line_own lines line h = elim (Option-cases (find is_own lines)) [
  | inl e ↦
      ground (arith, find-none is_own lines, find_holds (λ option. not (is_own option)) lines line)
  | inr (x, e) ↦ ground (arith, find_holds is_own lines line, find-any is_own is_own lines line)
]

-- A call that a loaded list of lines allows leaves from one of them: whatever holds of the line of
-- the call holds of a line that is offered.
pub call_from_chosen_line_offered :
    (lines : List OutboundCallLine) (chosen : Option Text) (line : OutboundCallLine)
    (q : OutboundCallLine → Bool)
    → call_from_chosen_line (loaded lines) chosen ≡ can_call line
    → q line ≡ true
    → any q lines ≡ true
unfolding call_from_chosen_line default_call_line
call_from_chosen_line_offered lines chosen line q h hq = ground (
  arith,
  find-any (λ option. is chosen option.id) q lines line,
  find-any is_own q lines line,
  find-any (λ option. not (is_own option)) q lines line,
)

-- A call from a choice that is offered leaves from a line with the chosen id.
pub call_from_chosen_line_chosen :
    (lines : List OutboundCallLine) (chosen : Text) (line : OutboundCallLine)
    → any (λ option. chosen == option.id) lines ≡ true
    → call_from_chosen_line (loaded lines) (some chosen) ≡ can_call line
    → line.id ≡ chosen
unfolding call_from_chosen_line
call_from_chosen_line_chosen lines chosen line o h = ground (
  arith,
  find-none (λ option. chosen == option.id) lines,
  find_holds (λ option. chosen == option.id) lines line,
)

-- A call back that a conversation's line can carry leaves from a line of that number.
pub call_back_from_line_number :
    (lines : List OutboundCallLine) (number : Text) (chosen : Option Text) (line : OutboundCallLine)
    → any (λ option. option.phone_number == number) lines ≡ true
    → call_back_from_line (loaded lines) number chosen ≡ can_call line
    → line.phone_number ≡ number
unfolding call_back_from_line call_from_conversation_line
call_back_from_line_number [] number chosen line o h = cc
call_back_from_line_number (l ∷ lines) number chosen line o h = ground (
  arith,
  find-none (λ option. option.phone_number == number) (l ∷ lines),
  find_holds (λ option. option.phone_number == number) (l ∷ lines) line,
)

-- After an answer settles, lines are shown only to the user whose answer it was: a list that an
-- earlier answer left is never shown to another user.
call_lines_of_user :
    (session : Session) (previous : Option CallLinesAnswer) (settled : CallLinesAnswer)
    (lines : List OutboundCallLine)
    → call_lines_of session (some (next_call_lines_answer previous settled)) ≡ loaded lines
    → is session.user_id settled.user_id ≡ true
unfolding call_lines_of next_call_lines_answer
call_lines_of_user session none settled lines h = ground arith
call_lines_of_user session (some previous) settled lines h = ground arith
