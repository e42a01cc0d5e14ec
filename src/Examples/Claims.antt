-- ===== src/Examples/Claims.antt =====
-- A user whom two calls want, at a lifetime of 90 seconds.
use iziphone.Prelude.{◌≡◌, refl, none, some, true, false, List, [], ◌∷◌}
use iziphone.Availability.{UserEntry, claim, Change, marks, renews, releases, apply_changes}
use iziphone.Availability.Claims.{claim_once}

abbrev free_user : UserEntry
free_user = record {
  revision = 4;
  do_not_disturb = false;
  available_since = none;
  since_revision = none;
  claims = (12, 1000) ∷ [];
  claims_until = 91000;
}

claims_user : (claim 90000 95000 11 (some 4) free_user).0 ≡ some (5, true)
unfolding claim
claims_user = refl

abbrev meanwhile : List Change
meanwhile = marks ∷ renews 96000 11 ∷ releases 97000 11 ∷ []

claim_once_example :
    let f = apply_changes 90000 meanwhile (claim 90000 95000 11 (some 4) free_user).1 in
    claim 90000 98000 13 (some 4) f ≡ (none, f)
claim_once_example = claim_once 90000 95000 98000 4 11 13 meanwhile free_user 5 claims_user
