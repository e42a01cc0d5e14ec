-- ===== src/Examples/Offers.antt =====
-- An offer that reads a user twice, at a lifetime of 90 seconds.
use iziphone.Prelude.{ℕ, ◌≡◌, refl, none, true, false, Bool, [], ◌∷◌, ◌==◌, arith}
use iziphone.Availability.{UserEntry, read, claim, marks, apply_changes, mark_changed}
use iziphone.Availability.Offers.{Attempt, claimed, decide_availability, claim_if_available}
use iziphone.Availability.Offers.Taken.{InOrder, Landed, claim_if_available-Landed}

-- Nothing claims the user but a call of long ago.
abbrev idle_user : UserEntry
idle_user = record {
  revision = 4;
  do_not_disturb = false;
  available_since = none;
  since_revision = none;
  claims = (12, 1000) ∷ [];
  claims_until = 91000;
}

-- The user changes within the first attempt.
abbrev attempt_of : Bool → Attempt
attempt_of true = record {
  before = [];
  read_at = 97000;
  socket_ids = 70 ∷ [];
  between = marks ∷ [];
  claim_at = 97100;
}
attempt_of false = record {
  before = marks ∷ [];
  read_at = 97500;
  socket_ids = 71 ∷ 72 ∷ [];
  between = [];
  claim_at = 97600;
}

abbrev attempts : ℕ → Attempt
attempts n = attempt_of (n == 1)

attempt_of-InOrder :
    (first : Bool) → let a = attempt_of first in InOrder a.read_at a.between a.claim_at
attempt_of-InOrder true = (omega arith, omega arith)
attempt_of-InOrder false = omega arith

takes_idle_user : (claim_if_available 90000 11 attempts idle_user).0 ≡ claimed (71 ∷ 72 ∷ []) true
unfolding claim_if_available claim read apply_changes decide_availability mark_changed
takes_idle_user = refl

claim_if_available-Landed_example :
    Landed 90000 11 attempts idle_user 5
      (71 ∷ 72 ∷ [])
      (claim_if_available 90000 11 attempts idle_user).1
claim_if_available-Landed_example =
    claim_if_available-Landed 90000 11 attempts (λ n. attempt_of-InOrder (n == 1)) idle_user
      (71 ∷ 72 ∷ []) true takes_idle_user
