-- ===== src/Softphone/IncomingOffer/Fates.antt =====
-- Which offers stay on screen (incoming-offer.ts).
use iziphone.Prelude.{
  Bool, true, false, not, ◌&&◌, ◌||◌, ◌≡◌, ◌≢◌, Option, none, some, List, [], ◌∷◌, arith,
  if◌then◌else◌,
}
use iziphone.Domain.{is}
use iziphone.Softphone.IncomingOffer.{
  Offer, OfferFate, CallStatus, ringing, show, hold, dismiss, PhonePhase, free, rung, busy,
  OfferMemory, OfferFateInput, offer_fate, phase_of, is_rung_phase, is_busy, Question, ask,
  memory_after,
}

-- On a phone that is not being rung, an expired offer is dismissed, but for one whose early answer
-- still waits on a free phone for the device to ring, and whose ring has not stopped: that one stays
-- held or on screen.
pub offer_fate_expired :
    (i : OfferFateInput) (offer : Offer)
    → i.offer ≡ some offer
    → i.expired_offer ≡ some offer
    → is_rung_phase (phase_of i.call_status i.memory.phase) ≡ false
    → (offer_fate i).fate ≡ (
        if is i.answered_offer offer
          && not (is_busy (phase_of i.call_status i.memory.phase))
          && not (is_rung_phase i.memory.phase && is i.memory.rung_offer offer)
        then (if is i.memory.held_offer offer then some hold else some show)
        else some dismiss)
unfolding offer_fate
offer_fate_expired i offer o e p = ground arith

-- A phone that is being rung shows whatever offer there is, held before or expired.
pub offer_fate_rung :
    (i : OfferFateInput) (offer : Offer)
    → i.offer ≡ some offer
    → i.call_status ≡ ringing
    → is_busy i.memory.phase ≡ false
    → ((offer_fate i).fate ≡ some show)
      × ((offer_fate i).memory.rung_offer ≢ none)
      × ((offer_fate i).memory.held_offer ≡ none)
unfolding offer_fate
offer_fate_rung i offer o c t = (ground arith, λ h. ground arith, ground arith)

abbrev pub is_dismissed : Option OfferFate → Bool
is_dismissed (some dismiss) = true
is_dismissed _ = false

abbrev pub is_free : PhonePhase → Bool
is_free free = true
is_free rung = false
is_free busy = false

-- An offer is dismissed before its expiry exactly if the phone rang for it and either rings no more,
-- the phone being free, or is busy now with the offer that it rang for on screen; or if the phone,
-- which did not ring, is busy now with an offer that was on screen and answered. On a phone that is
-- being rung no offer is dismissed.
pub offer_fate_dismissed :
    (i : OfferFateInput) (offer : Offer)
    → i.offer ≡ some offer
    → is i.expired_offer offer ≡ false
    → let d = offer_fate i in
      let rang = is_rung_phase i.memory.phase in
      let rang_for_it = rang && is i.memory.rung_offer offer in
      let on_screen = is i.memory.offer offer && not (is i.memory.held_offer offer) in
      is_dismissed d.fate ≡ (
        is_free d.memory.phase && rang_for_it
        || is_busy d.memory.phase
          && (on_screen && (rang_for_it || not rang && is i.answered_offer offer)))
unfolding offer_fate
offer_fate_dismissed i offer o e = ground arith

-- Every question is asked while the session says "ringing".
abbrev pub all_ringing : List Question → Bool
all_ringing [] = true
all_ringing (q ∷ qs) = is_ringing q.call_status && all_ringing qs
  where
    is_ringing : CallStatus → Bool
    is_ringing ringing = true
    is_ringing _ = false

-- While a phone rings, with the session saying so at every question, the ring is taken to be for one
-- and the same offer, whatever offers come, go, are answered or expire meanwhile.
pub memory_after_ringing :
    (qs : List Question) (memory : OfferMemory) (offer : Offer)
    → memory.phase ≡ rung
    → memory.rung_offer ≡ some offer
    → all_ringing qs ≡ true
    → ((memory_after memory qs).phase ≡ rung) × ((memory_after memory qs).rung_offer ≡ some offer)
unfolding memory_after
memory_after_ringing [] memory offer p r a = (p, r)
memory_after_ringing (q ∷ qs) memory offer p r a =
    memory_after_ringing qs (offer_fate (ask memory q)).memory offer (ground arith) (ground arith)
      (ground arith)

-- While a phone is busy, the ringing of the far end is not taken for a ring of its own.
pub memory_after_busy :
    (qs : List Question) (memory : OfferMemory)
    → memory.phase ≡ busy
    → all_ringing qs ≡ true
    → (memory_after memory qs).phase ≡ busy
unfolding memory_after
memory_after_busy [] memory p a = p
memory_after_busy (q ∷ qs) memory p a =
    memory_after_busy qs (offer_fate (ask memory q)).memory (ground arith) (ground arith)
