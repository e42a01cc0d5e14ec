-- ===== src/Examples/Phones.antt =====
-- Offers on a softphone, and the lines it calls from.
use iziphone.Prelude.{
  ◌≡◌, refl, none, some, true, false, not, ◌&&◌, ◌||◌, List, [], ◌∷◌, if◌then◌else◌,
}
use iziphone.Domain.{is}
use iziphone.Softphone.IncomingOffer.{
  OfferFateInput, OfferMemory, Question, free, rung, idle, ringing, show, hold, dismiss, offer_fate,
  phase_of, is_busy, is_rung_phase, memory_after,
}
use iziphone.Softphone.IncomingOffer.Fates.{
  is_dismissed, is_free, offer_fate_expired, offer_fate_dismissed, memory_after_ringing,
}
use iziphone.Softphone.CallLine.{
  OutboundCallLine, CallLinesAnswer, Session, user_owner, department_owner, loaded, call_lines_of,
  next_call_lines_answer,
}

-- Offer 5 is on screen, and the phone is free or rings for it.
abbrev seen : OfferMemory
seen = record { phase = free; offer = some 5; held_offer = none; rung_offer = none }

abbrev ringing_for : OfferMemory
ringing_for = record { phase = rung; offer = some 5; held_offer = none; rung_offer = some 5 }

abbrev expires : OfferFateInput
expires = record {
  memory = seen;
  call_status = idle;
  offer = some 5;
  answered_offer = some 5;
  expired_offer = some 5;
}

offer_fate_expired_example : (offer_fate expires).fate ≡ (
    if is expires.answered_offer 5
      && not (is_busy (phase_of expires.call_status expires.memory.phase))
      && not (is_rung_phase expires.memory.phase && is expires.memory.rung_offer 5)
    then (if is expires.memory.held_offer 5 then some hold else some show)
    else some dismiss)
offer_fate_expired_example = offer_fate_expired expires 5 refl refl refl

abbrev stops_to_ring : OfferFateInput
stops_to_ring = record {
  memory = ringing_for;
  call_status = idle;
  offer = some 5;
  answered_offer = none;
  expired_offer = none;
}

offer_fate_dismissed_example :
    let d = offer_fate stops_to_ring in
    let rang = is_rung_phase stops_to_ring.memory.phase in
    let rang_for_it = rang && is stops_to_ring.memory.rung_offer 5 in
    let on_screen = is stops_to_ring.memory.offer 5 && not (is stops_to_ring.memory.held_offer 5) in
    is_dismissed d.fate ≡ (
      is_free d.memory.phase && rang_for_it
      || is_busy d.memory.phase
        && (on_screen && (rang_for_it || not rang && is stops_to_ring.answered_offer 5)))
offer_fate_dismissed_example = offer_fate_dismissed stops_to_ring 5 refl refl

-- The offer goes and another one comes, while the phone rings.
abbrev other_offers : List Question
other_offers =
    record { call_status = ringing; offer = none; answered_offer = none; expired_offer = none }
    ∷ record {
      call_status = ringing;
      offer = some 6;
      answered_offer = some 6;
      expired_offer = none;
    }
    ∷ []

memory_after_ringing_example :
    ((memory_after ringing_for other_offers).phase ≡ rung)
    × ((memory_after ringing_for other_offers).rung_offer ≡ some 5)
memory_after_ringing_example = memory_after_ringing other_offers ringing_for 5 refl refl refl

abbrev department_line : OutboundCallLine
department_line = record {
  id = 41;
  phone_number = 601;
  label = none;
  owner_type = department_owner;
  owner_id = 7;
  owner_name = 8;
  is_primary = true;
}

abbrev own_line : OutboundCallLine
own_line = record {
  id = 42;
  phone_number = 602;
  label = none;
  owner_type = user_owner;
  owner_id = 1;
  owner_name = 9;
  is_primary = false;
}

abbrev lines : List OutboundCallLine
lines = department_line ∷ own_line ∷ []

abbrev session : Session
session = record { user_id = some 1; is_loading = false }

abbrev earlier : CallLinesAnswer
earlier = record { user_id = 1; lines = some lines }

abbrev failed_later : CallLinesAnswer
failed_later = record { user_id = 1; lines = none }

keeps_earlier :
    call_lines_of session (some (next_call_lines_answer (some earlier) failed_later)) ≡ loaded lines
unfolding call_lines_of next_call_lines_answer
keeps_earlier = refl
