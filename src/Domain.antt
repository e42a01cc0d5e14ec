-- ===== src/Domain.antt =====
-- The enumerations that the call controller, the softphone and the wire formats share
-- (packages/dto/src/common/domain.ts, packages/events/src/messages.ts).
use iziphone.Prelude.{ℕ, Bool, true, false, not, Option, none, some, ◌==◌}

-- Identifiers, phone numbers and times of the call path are strings that the code compares for
-- equality and tests for being blank, and nothing else. A string is given by a number, the blank
-- string by 0.
abbrev pub Text : Type 0
Text = ℕ

-- A value of type `string | undefined` as a condition.
abbrev pub truthy : Option Text → Bool
truthy none = false
truthy (some t) = not (t == 0)

-- `a ?? b`
abbrev pub or_else {ℓ} : {A : Type ℓ} → Option A → Option A → Option A
or_else none b = b
or_else (some a) b = some a

-- `a ?? b`, where `b` is there.
abbrev pub get_or {ℓ} : {A : Type ℓ} → Option A → A → A
get_or none b = b
get_or (some a) b = a

-- `a === b`, for a value that may be undefined and one that is not.
abbrev pub is : Option Text → Text → Bool
is none b = false
is (some a) b = a == b

-- `a === b`, for two values that may be undefined.
abbrev pub same : Option Text → Option Text → Bool
same none none = true
same none (some b) = false
same (some a) none = false
same (some a) (some b) = a == b

pub data CallDirection : Type 0 where
  inbound outbound : CallDirection

abbrev pub is_inbound : CallDirection → Bool
is_inbound inbound = true
is_inbound outbound = false

abbrev pub is_outbound : CallDirection → Bool
is_outbound inbound = false
is_outbound outbound = true

-- `RoutingTargetType | 'OUTBOUND'`
pub data RoutingType : Type 0 where
  department user outbound_routing : RoutingType

pub data OpenHoursRoutingType : Type 0 where
  simultaneous fixed_order : OpenHoursRoutingType

pub data ClosedHoursRoutingType : Type 0 where
  voicemail_routing external_number : ClosedHoursRoutingType

pub data CallEndStatus : Type 0 where
  completed busy canceled failed no_answer : CallEndStatus

pub data CallParticipantType : Type 0 where
  caller agent external : CallParticipantType

pub data UnavailableReason : Type 0 where
  reason_busy reason_dnd reason_offline : UnavailableReason

pub data TransferFailureReason : Type 0 where
  declined unanswered unavailable cancelled : TransferFailureReason

-- `CallControlRefusal` (packages/dto/src/calls/voice.schemas.ts)
pub data CallControlRefusal : Type 0 where
  leg_not_found not_on_call not_connected transfer_pending no_transfer_pending : CallControlRefusal
  transfer_to_self target_on_call target_busy target_dnd target_offline call_gone :
      CallControlRefusal
  provider_error : CallControlRefusal
