-- ===== src/Availability/Offers.antt =====
-- Who can be offered a call, and the claim that comes before the offer
-- (apps/call-controller/src/realtime/availability-rule.ts,
-- apps/call-controller/src/realtime/availability.service.ts).
pub mod Taken
use iziphone.Prelude.{
  ℕ, zero, suc, ◌+◌, Bool, true, false, not, Option, none, some, List, [], ◌∷◌, ◌++◌, ◌==◌,
  if◌then◌else◌, any, filter, elem, unique,
}
use iziphone.Domain.{Text, is, UnavailableReason, reason_busy, reason_dnd, reason_offline}
use iziphone.Availability.{UserEntry, StoredAvailability, read, claim, Change, apply_changes}

pub data AvailabilityState : Type 0 where
  available : AvailabilityState
  unavailable : UnavailableReason → AvailabilityState

abbrev pub is_none : List Text → Bool
is_none [] = true
is_none (x ∷ xs) = false

-- `decideAvailability`, of the user's connected sockets.
unfoldable pub decide_availability : List Text → Bool → List Text → Option Text → AvailabilityState
decide_availability sockets do_not_disturb calls for_call =
    if is_none sockets
    then unavailable reason_offline
    else if do_not_disturb
    then unavailable reason_dnd
    else if any (λ call. not (is for_call call)) calls
    then unavailable reason_busy
    else available

-- What an attempt meets: what happened to the user before it read them, when it read, the sockets
-- that presence knew then, what happened between the read and the claim, and when it claimed.
pub record Attempt : Type 0 where
  pub before : List Change
  pub read_at : ℕ
  pub socket_ids : List Text
  pub between : List Change
  pub claim_at : ℕ

pub data ClaimOutcome : Type 0 where
  claimed : List Text → Bool → ClaimOutcome
  refused : UnavailableReason → ClaimOutcome

abbrev pub claim_attempts : ℕ
claim_attempts = 5

module _ (lifetime : ℕ) (call : Text) where
  -- The user, as the attempt reads them and as its claim finds them.
  abbrev pub as_read : Attempt → UserEntry → UserEntry
  as_read a e = apply_changes lifetime a.before e

  abbrev pub as_claimed : Attempt → UserEntry → UserEntry
  as_claimed a e = apply_changes lifetime a.between (as_read a e)

  abbrev pub verdict : Attempt → UserEntry → AvailabilityState
  verdict a e =
      let stored = read lifetime a.read_at (as_read a e) in
      decide_availability a.socket_ids stored.do_not_disturb stored.calls (some call)

  -- The claim's answer: taken, or to be tried again.
  abbrev pub answer :
      Attempt
      → (UserEntry → ClaimOutcome × UserEntry)
      → UserEntry
      → Option (ℕ × Bool) × UserEntry
      → ClaimOutcome × UserEntry
  answer a retry found (some (revision, added), e) = (claimed a.socket_ids added, e)
  answer a retry found (none, e) = retry found

  abbrev pub act_on :
      AvailabilityState
      → Attempt
      → (UserEntry → ClaimOutcome × UserEntry)
      → UserEntry
      → ClaimOutcome × UserEntry
  act_on (unavailable reason) a retry e = (refused reason, as_read a e)
  act_on available a retry e =
      answer a retry (as_claimed a e)
        (claim lifetime a.claim_at call (some (as_read a e).revision) (as_claimed a e))

  -- The attempts left, and the number of the next one.
  unfoldable pub attempt_claim : (ℕ → Attempt) → ℕ → ℕ → UserEntry → ClaimOutcome × UserEntry
  attempt_claim attempts zero n e = (refused reason_busy, e)
  attempt_claim attempts (suc left) n e =
      act_on (verdict (attempts n) e) (attempts n) (attempt_claim attempts left (suc n)) e

  -- `claimIfAvailable`
  unfoldable pub claim_if_available : (ℕ → Attempt) → UserEntry → ClaimOutcome × UserEntry
  unfolding attempt_claim
  claim_if_available attempts e = attempt_claim attempts claim_attempts 1 e

pub record CallOffer : Type 0 where
  pub offered : List Text
  pub refused : List (Text × UnavailableReason)

-- What an offer comes to: who is reached, on which sockets, and who is told that they are busy now.
pub record OfferMade : Type 0 where
  pub offer : CallOffer
  pub socket_ids : List Text
  pub claimed : List Text

abbrev pub add_outcome : Text → ClaimOutcome → OfferMade → OfferMade
add_outcome u (refused reason) made = record made {
  offer = record made.offer { refused = (u, reason) ∷ made.offer.refused };
}
add_outcome u (claimed socket_ids added) made = record {
  offer = record made.offer { offered = u ∷ made.offer.offered };
  socket_ids = socket_ids ++ made.socket_ids;
  claimed = if added then u ∷ made.claimed else made.claimed;
}

-- The sorting of the outcomes in `offerCall`, in the order of the users. `io.to` is asked only if
-- `socket_ids` is not empty.
unfoldable pub offer_of : List (Text × ClaimOutcome) → OfferMade
offer_of [] = record {
  offer = record { offered = []; refused = [] };
  socket_ids = [];
  claimed = [];
}
offer_of ((u, outcome) ∷ outcomes) = add_outcome u outcome (offer_of outcomes)
