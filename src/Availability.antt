-- ===== src/Availability.antt =====
-- The calls that claim each user, and do not disturb
-- (apps/call-controller/src/realtime/availability-store.ts). Each operation is one script, which lands
-- whole or not at all; `now` is Redis's clock when it runs.
pub mod Claims
pub mod Offers
use iziphone.Prelude.{
  ℕ, zero, suc, ◌+◌, Bool, true, false, not, ◌&&◌, ◌||◌, Option, none, some, List, [], ◌∷◌, ◌++◌,
  ◌==◌, leb, ltb, if◌then◌else◌, elem, Dict, keys, lookup, erase,
}
use iziphone.Domain.{Text}

-- What Redis holds of a user: the fields of their hash, and the sorted set of the calls that claim
-- them, each with the time of its last renewal, with the time after which the set is gone.
pub record UserEntry : Type 0 where
  pub revision : ℕ
  pub do_not_disturb : Bool
  pub available_since : Option ℕ
  pub since_revision : Option ℕ
  pub claims : Dict
  pub claims_until : ℕ

pub record StoredAvailability : Type 0 where
  pub revision : ℕ
  pub do_not_disturb : Bool
  pub calls : List Text
  pub available_since : Option ℕ

-- The claims that Redis has not let expire.
abbrev pub kept_claims : UserEntry → ℕ → Dict
kept_claims e now = if leb now e.claims_until then e.claims else []

-- The claims renewed less than a lifetime ago: `ZRANGEBYSCORE`, from `(now - lifetime` on.
abbrev pub young : ℕ → ℕ → Dict → Dict
young lifetime now [] = []
young lifetime now ((call, renewed) ∷ claims) =
    if ltb now (renewed + lifetime)
    then (call, renewed) ∷ young lifetime now claims
    else young lifetime now claims

-- `ZADD`: the latest renewal comes last.
abbrev pub renewed_at : ℕ → Text → Dict → Dict
renewed_at now call claims = erase call claims ++ ((call, now) ∷ [])

module _ (lifetime : ℕ) where
  -- `READ_AVAILABILITY_SCRIPT`, of one user.
  unfoldable pub read : ℕ → UserEntry → StoredAvailability
  read now e = record {
    revision = e.revision;
    do_not_disturb = e.do_not_disturb;
    calls = keys (young lifetime now (kept_claims e now));
    available_since = e.available_since;
  }

  -- The claim is taken, with the older ones out of the way.
  abbrev pub take_claim : ℕ → Text → UserEntry → (ℕ × Bool) × UserEntry
  take_claim now call e =
      let claims = young lifetime now (kept_claims e now) in
      let added = not (elem call (keys claims)) in
      let revision = if added then e.revision + 1 else e.revision in
      (
        (revision, added),
        record e {
          revision = revision;
          claims = renewed_at now call claims;
          claims_until = now + lifetime;
        },
      )

  abbrev pub is_expected : Option ℕ → ℕ → Bool
  is_expected none revision = true
  is_expected (some expected) revision = expected == revision

  -- `claim`, by `CLAIM_SCRIPT`: the revision after it and whether it is new, if it was taken.
  unfoldable pub claim : ℕ → Text → Option ℕ → UserEntry → Option (ℕ × Bool) × UserEntry
  claim now call expected e =
      if is_expected expected e.revision
      then (some (take_claim now call e).0, (take_claim now call e).1)
      else (none, e)

  -- `release`, by `RELEASE_SCRIPT`: the revision after it, if the call held a claim.
  unfoldable pub release : ℕ → Text → UserEntry → Option ℕ × UserEntry
  release now call e =
      if elem call (keys (kept_claims e now))
      then (
        some (e.revision + 1),
        record e { revision = e.revision + 1; claims = erase call (kept_claims e now) },
      )
      else (none, e)

  -- `renew`, by `RENEW_SCRIPT`, of one user: whether the claim was taken again.
  unfoldable pub renew : ℕ → Text → UserEntry → Bool × UserEntry
  renew now call e =
      let claims = kept_claims e now in
      let restored = not (elem call (keys (young lifetime now claims))) in
      (
        restored,
        record e {
          revision = if restored then e.revision + 1 else e.revision;
          claims = renewed_at now call claims;
          claims_until = now + lifetime;
        },
      )

-- `markChanged`, by `MARK_CHANGED_SCRIPT`.
unfoldable pub mark_changed : UserEntry → ℕ × UserEntry
mark_changed e = (e.revision + 1, record e { revision = e.revision + 1 })

abbrev pub same_flag : Bool → Bool → Bool
same_flag true b = b
same_flag false b = not b

-- `setDoNotDisturb`, by `DO_NOT_DISTURB_SCRIPT`: the revision after it, and whether it changed anything.
unfoldable pub set_do_not_disturb : Bool → UserEntry → (ℕ × Bool) × UserEntry
set_do_not_disturb on e =
    if same_flag e.do_not_disturb on
    then ((e.revision, false), e)
    else ((e.revision + 1, true), record e { revision = e.revision + 1; do_not_disturb = on })

-- A decision of an older revision than the last one recorded.
abbrev pub is_stale : Option ℕ → ℕ → Bool
is_stale none revision = false
is_stale (some seen) revision = ltb revision seen

abbrev pub since : Bool → ℕ → Option ℕ → Option ℕ
since false now available = none
since true now none = some now
since true now (some from) = some from

-- `recordEligibility`, by `RECORD_ELIGIBILITY_SCRIPT`.
unfoldable pub record_eligibility : ℕ → ℕ → Bool → UserEntry → UserEntry
record_eligibility now revision eligible e =
    if is_stale e.since_revision revision then e else record e {
      since_revision = some revision;
      available_since = since eligible now e.available_since;
    }

-- The operations on a user, each with the time at which it runs.
pub data Change : Type 0 where
  claims_for : ℕ → Text → Option ℕ → Change
  releases : ℕ → Text → Change
  renews : ℕ → Text → Change
  marks : Change
  disturbs : Bool → Change
  records : ℕ → ℕ → Bool → Change

unfoldable pub apply_change : ℕ → Change → UserEntry → UserEntry
unfolding claim release renew mark_changed set_do_not_disturb record_eligibility
apply_change lifetime (claims_for now call expected) e = (claim lifetime now call expected e).1
apply_change lifetime (releases now call) e = (release lifetime now call e).1
apply_change lifetime (renews now call) e = (renew lifetime now call e).1
apply_change lifetime marks e = (mark_changed e).1
apply_change lifetime (disturbs on) e = (set_do_not_disturb on e).1
apply_change lifetime (records now revision eligible) e = record_eligibility now revision eligible e

unfoldable pub apply_changes : ℕ → List Change → UserEntry → UserEntry
unfolding apply_change
apply_changes lifetime [] e = e
apply_changes lifetime (c ∷ cs) e = apply_changes lifetime cs (apply_change lifetime c e)
