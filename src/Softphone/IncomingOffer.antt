-- ===== src/Softphone/IncomingOffer.antt =====
-- What becomes of a call the controller offered (apps/web/src/lib/telephony/incoming-offer.ts). An
-- offer is an object of its own and is known by its identity, a number.
pub mod Fates
use iziphone.Prelude.{
  ℕ, ◌+◌, ◌*◌, Bool, true, false, not, ◌&&◌, ◌||◌, Option, none, some, List, [], ◌∷◌, ◌==◌,
  if◌then◌else◌,
}
use iziphone.Domain.{is, same, or_else}

abbrev pub Offer : Type 0
Offer = ℕ

pub data CallStatus : Type 0 where
  idle ringing connecting connected disconnecting disconnected : CallStatus

pub data DeviceStatus : Type 0 where
  offline device_connecting device_ready device_error : DeviceStatus

pub data OfferFate : Type 0 where
  show hold dismiss : OfferFate

pub data PhonePhase : Type 0 where
  free rung busy : PhonePhase

pub record OfferMemory : Type 0 where
  pub phase : PhonePhase
  pub offer : Option Offer
  pub held_offer : Option Offer
  pub rung_offer : Option Offer

unfoldable pub no_offer_memory : OfferMemory
no_offer_memory = record { phase = free; offer = none; held_offer = none; rung_offer = none }

pub record OfferFateInput : Type 0 where
  pub memory : OfferMemory
  pub call_status : CallStatus
  pub offer : Option Offer
  pub answered_offer : Option Offer
  pub expired_offer : Option Offer

pub record OfferDecision : Type 0 where
  pub fate : Option OfferFate
  pub memory : OfferMemory

abbrev pub is_busy : PhonePhase → Bool
is_busy busy = true
is_busy free = false
is_busy rung = false

abbrev pub is_rung_phase : PhonePhase → Bool
is_rung_phase rung = true
is_rung_phase free = false
is_rung_phase busy = false

-- `phaseOf`
abbrev pub phase_of : CallStatus → PhonePhase → PhonePhase
phase_of idle last = free
phase_of disconnected last = free
phase_of connecting last = busy
phase_of connected last = busy
phase_of disconnecting last = busy
phase_of ringing last = if is_busy last then busy else rung

-- `fateIn`
abbrev pub fate_in : PhonePhase → Offer → OfferMemory → Option Offer → Option Offer → OfferFate
fate_in rung offer memory answered expired = show
fate_in busy offer memory answered expired =
    let was_held = is memory.held_offer offer in
    let was_ringing = is_rung_phase memory.phase in
    let rang_for_this = was_ringing && is memory.rung_offer offer in
    let was_on_screen = is memory.offer offer && not was_held in
    let was_answered_early = not was_ringing && is answered offer in
    if is expired offer
    then dismiss
    else if was_on_screen && (rang_for_this || was_answered_early)
    then dismiss
    else hold
fate_in free offer memory answered expired =
    let was_held = is memory.held_offer offer in
    let rang_for_this = is_rung_phase memory.phase && is memory.rung_offer offer in
    if rang_for_this || (is expired offer && not (is answered offer))
    then dismiss
    else if was_held
    then hold
    else show

abbrev pub fate_of : PhonePhase → Option Offer → OfferFateInput → Option OfferFate
fate_of phase none i = none
fate_of phase (some offer) i = some (fate_in phase offer i.memory i.answered_offer i.expired_offer)

abbrev pub held_by : Option OfferFate → Option Offer → Option Offer
held_by (some hold) offer = offer
held_by _ offer = none

-- `offerFate`
unfoldable pub offer_fate : OfferFateInput → OfferDecision
offer_fate i =
    let phase = phase_of i.call_status i.memory.phase in
    let fate = fate_of phase i.offer i in
    record {
      fate = fate;
      memory = record {
        phase = phase;
        offer = i.offer;
        held_offer = held_by fate i.offer;
        rung_offer = if is_rung_phase phase then or_else i.memory.rung_offer i.offer else none;
      };
    }

pub data EarlyAnswer : Type 0 where
  answer_connecting phone_not_ready : EarlyAnswer

-- `earlyAnswerOf`
unfoldable pub early_answer_of : Option Offer → Option Offer → DeviceStatus → Option EarlyAnswer
early_answer_of none answered device = none
early_answer_of (some offer) answered device =
    if not (is answered offer)
    then none
    else some (elim device [ device_ready ↦ answer_connecting | _ ↦ phone_not_ready ])

-- The answers, one after the other, each with the memory that the last one came with.
pub record Question : Type 0 where
  pub call_status : CallStatus
  pub offer : Option Offer
  pub answered_offer : Option Offer
  pub expired_offer : Option Offer

abbrev pub ask : OfferMemory → Question → OfferFateInput
ask memory q = record {
  memory = memory;
  call_status = q.call_status;
  offer = q.offer;
  answered_offer = q.answered_offer;
  expired_offer = q.expired_offer;
}

unfoldable pub memory_after : OfferMemory → List Question → OfferMemory
unfolding offer_fate
memory_after memory [] = memory
memory_after memory (q ∷ qs) = memory_after (offer_fate (ask memory q)).memory qs
