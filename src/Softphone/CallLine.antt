-- ===== src/Softphone/CallLine.antt =====
-- Which of the user's numbers an outbound call leaves from
-- (apps/web/src/lib/telephony/call-line.ts).
pub mod Choice
use iziphone.Prelude.{
  ℕ, Bool, true, false, not, ◌&&◌, ◌||◌, Option, none, some, List, [], ◌∷◌, ◌==◌, if◌then◌else◌,
  find,
}
use iziphone.Domain.{Text, truthy, is, or_else}
use iziphone.PhoneNumber.{is_dialable_phone_number}

pub data OwnerType : Type 0 where
  user_owner department_owner : OwnerType

pub record OutboundCallLine : Type 0 where
  pub id : Text
  pub phone_number : Text
  pub label : Option Text
  pub owner_type : OwnerType
  pub owner_id : Text
  pub owner_name : Text
  pub is_primary : Bool

pub data CallLines : Type 0 where
  loading signed_out failed : CallLines
  loaded : List OutboundCallLine → CallLines

pub record CallLinesAnswer : Type 0 where
  pub user_id : Text
  pub lines : Option (List OutboundCallLine)

-- What is known of the session.
pub record Session : Type 0 where
  pub user_id : Option Text
  pub is_loading : Bool

abbrev pub lines_of_answer : Text → Option CallLinesAnswer → CallLines
lines_of_answer u none = loading
lines_of_answer u (some answer) =
    if not (answer.user_id == u)
    then loading
    else elim answer.lines [ none ↦ failed | some lines ↦ loaded lines ]

abbrev pub lines_of_user : Option Text → Bool → Option CallLinesAnswer → CallLines
lines_of_user none is_loading answer = if is_loading then loading else signed_out
lines_of_user (some u) is_loading answer =
    if u == 0 then (if is_loading then loading else signed_out) else lines_of_answer u answer

-- `callLinesOf`
unfoldable pub call_lines_of : Session → Option CallLinesAnswer → CallLines
call_lines_of session answer = lines_of_user session.user_id session.is_loading answer

abbrev pub has_lines : Option (List OutboundCallLine) → Bool
has_lines none = false
has_lines (some lines) = true

-- `nextCallLinesAnswer`
unfoldable pub next_call_lines_answer : Option CallLinesAnswer → CallLinesAnswer → CallLinesAnswer
next_call_lines_answer none settled = settled
next_call_lines_answer (some previous) settled =
    if not (has_lines settled.lines)
      && (has_lines previous.lines && previous.user_id == settled.user_id)
    then previous
    else settled

pub record CallLineChoice : Type 0 where
  pub user_id : Text
  pub line_id : Text

-- `chosenLineIdFor`
unfoldable pub chosen_line_id_for : Option CallLineChoice → Option Text → Option Text
chosen_line_id_for none u = none
chosen_line_id_for (some choice) u = if is u choice.user_id then some choice.line_id else none

-- Why a call cannot leave: the message that the reader is given.
pub data Reason : Type 0 where
  why_loading why_signed_out why_failed no_lines not_from_conversation not_callable : Reason

pub data CallEligibility : Type 0 where
  can_call : OutboundCallLine → CallEligibility
  cannot_call : Reason → CallEligibility

abbrev pub is_own : OutboundCallLine → Bool
is_own line = elim line.owner_type [ user_owner ↦ true | department_owner ↦ false ]

-- `defaultCallLine`
unfoldable pub default_call_line : List OutboundCallLine → Option OutboundCallLine
default_call_line lines = or_else (find is_own lines) (find (λ line. not (is_own line)) lines)

abbrev pub on_line : Option OutboundCallLine → Reason → CallEligibility
on_line none reason = cannot_call reason
on_line (some line) reason = can_call line

-- `callFromChosenLine`
unfoldable pub call_from_chosen_line : CallLines → Option Text → CallEligibility
unfolding default_call_line
call_from_chosen_line loading chosen = cannot_call why_loading
call_from_chosen_line signed_out chosen = cannot_call why_signed_out
call_from_chosen_line failed chosen = cannot_call why_failed
call_from_chosen_line (loaded lines) chosen =
    on_line (or_else (find (λ line. is chosen line.id) lines) (default_call_line lines)) no_lines

-- `callFromConversationLine`
unfoldable pub call_from_conversation_line : CallLines → Text → CallEligibility
call_from_conversation_line loading number = cannot_call why_loading
call_from_conversation_line signed_out number = cannot_call why_signed_out
call_from_conversation_line failed number = cannot_call why_failed
call_from_conversation_line (loaded []) number = cannot_call no_lines
call_from_conversation_line (loaded (line ∷ lines)) number =
    on_line (find (λ option. option.phone_number == number) (line ∷ lines)) not_from_conversation

abbrev pub or_call : CallEligibility → CallEligibility → CallEligibility
or_call (can_call line) other = can_call line
or_call (cannot_call reason) other = other

-- `callBackFromLine`
unfoldable pub call_back_from_line : CallLines → Text → Option Text → CallEligibility
unfolding call_from_conversation_line call_from_chosen_line
call_back_from_line lines number chosen =
    or_call (call_from_conversation_line lines number) (call_from_chosen_line lines chosen)

-- `callToContact`, of a contact's number as the text it is.
unfoldable pub call_to_contact : CallEligibility → List ℕ → CallEligibility
unfolding is_dialable_phone_number
call_to_contact eligibility contact =
    if not (is_dialable_phone_number contact) then cannot_call not_callable else eligibility
