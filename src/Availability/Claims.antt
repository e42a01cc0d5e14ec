-- ===== src/Availability/Claims.antt =====
-- What a claim on a user is good for (availability-store.ts).
use iziphone.Prelude.{
  ℕ, ◌+◌, ◌≤◌, ◌<◌, ◌≡◌, refl, inl, inr, Bool-cases, Bool, true, false, not, ◌||◌, Option, none,
  some, List, [], ◌∷◌, ◌++◌, arith, leb, ltb, if◌then◌else◌, elem, Dict, keys, erase,
}
use iziphone.Domain.{Text}
use iziphone.Availability.{
  UserEntry, read, claim, release, renew, renewed_at, young, kept_claims, mark_changed,
  set_do_not_disturb, record_eligibility, Change, claims_for, releases, renews, marks, disturbs,
  records, apply_change, apply_changes,
}

pub apply_change-grows :
    (lifetime : ℕ) (c : Change) (e : UserEntry) → e.revision ≤ (apply_change lifetime c e).revision
unfolding apply_change claim release renew mark_changed set_do_not_disturb record_eligibility
apply_change-grows lifetime (claims_for now call expected) e = ground arith
apply_change-grows lifetime (releases now call) e = ground arith
apply_change-grows lifetime (renews now call) e = ground arith
apply_change-grows lifetime marks e = ground arith
apply_change-grows lifetime (disturbs on) e = ground arith
apply_change-grows lifetime (records now revision eligible) e = ground arith

pub apply_changes-grows :
    (lifetime : ℕ) (cs : List Change) (e : UserEntry)
    → e.revision ≤ (apply_changes lifetime cs e).revision
unfolding apply_changes
apply_changes-grows lifetime [] e = omega arith
apply_changes-grows lifetime (c ∷ cs) e =
    let one = apply_change-grows lifetime c e in
    let rest = apply_changes-grows lifetime cs (apply_change lifetime c e) in omega arith

-- Two calls never take a user on the same reading: once a call has newly claimed the user at the
-- revision that was read, a claim of any call at that revision is refused and changes nothing,
-- whatever else happens to the user in between.
pub claim_once :
    (lifetime now later revision : ℕ) (call other : Text) (cs : List Change) (e : UserEntry)
    (next : ℕ)
    → (claim lifetime now call (some revision) e).0 ≡ some (next, true)
    → let f = apply_changes lifetime cs (claim lifetime now call (some revision) e).1 in
      claim lifetime later other (some revision) f ≡ (none, f)
unfolding claim
claim_once lifetime now later revision call other cs e next h =
    let g = apply_changes-grows lifetime cs (claim lifetime now call (some revision) e).1 in
    let b : revision < (claim lifetime now call (some revision) e).1.revision = ground arith in
    refused (apply_changes lifetime cs (claim lifetime now call (some revision) e).1) (omega arith)
  where
    refused :
        (f : UserEntry)
        → revision < f.revision
        → claim lifetime later other (some revision) f ≡ (none, f)
    refused f l = ground arith

young-append :
    (lifetime t : ℕ) (c d : Dict)
    → young lifetime t (c ++ d) ≡ young lifetime t c ++ young lifetime t d
young-append lifetime t [] d = refl
young-append lifetime t ((k, v) ∷ c) d = ground (arith, young-append lifetime t c d)

elem-keys_append :
    (k : Text) (c d : Dict) → elem k (keys (c ++ d)) ≡ (elem k (keys c) || elem k (keys d))
elem-keys_append k [] d = refl
elem-keys_append k ((j, v) ∷ c) d = ground (arith, elem-keys_append k c d)

young-erase :
    (lifetime t : ℕ) (k : Text) (d : Dict) → elem k (keys (young lifetime t (erase k d))) ≡ false
young-erase lifetime t k [] = refl
young-erase lifetime t k ((j, v) ∷ d) = ground (arith, young-erase lifetime t k d)

young-elem :
    (lifetime t : ℕ) (k : Text) (d : Dict)
    → elem k (keys d) ≡ false
    → elem k (keys (young lifetime t d)) ≡ false
young-elem lifetime t k [] h = refl
young-elem lifetime t k ((j, v) ∷ d) h = ground (arith, young-elem lifetime t k d)

-- A renewed claim counts for a lifetime.
renewed_counts :
    (lifetime now later : ℕ) (call : Text) (d : Dict)
    → elem call (
        keys
          (young lifetime later (if leb later (now + lifetime) then renewed_at now call d else [])))
      ≡ ltb later (now + lifetime)
renewed_counts lifetime now later call d = elim (Bool-cases (leb later (now + lifetime))) [
  | inl e ↦ rw e (
      rw (young-append lifetime later (erase call d) ((call, now) ∷ [])) (
        rw
          (elem-keys_append call (young lifetime later (erase call d))
            (young lifetime later ((call, now) ∷ [])))
          (ground (arith, young-erase lifetime later call d))))
  | inr e ↦ rw e (ground arith)
]

-- A claim that was taken, whether it was new or not, is read as one of the user's calls for exactly a
-- lifetime from when it was taken, if nothing else happens to the user.
claim_counts :
    (lifetime now later : ℕ) (call : Text) (expected : Option ℕ) (e : UserEntry) (r : ℕ × Bool)
    → (claim lifetime now call expected e).0 ≡ some r
    → elem call (read lifetime later (claim lifetime now call expected e).1).calls
      ≡ ltb later (now + lifetime)
unfolding claim read
claim_counts lifetime now later call expected e r h =
    ground (arith, renewed_counts lifetime now later call (young lifetime now (kept_claims e now)))

-- Renewing a call's claim makes it count for a lifetime from then on, and says that it was taken
-- again, moving the user's revision on, exactly when it was not counted before.
renew_counts :
    (lifetime now later : ℕ) (call : Text) (e : UserEntry)
    → let r = renew lifetime now call e in
      (elem call (read lifetime later r.1).calls ≡ ltb later (now + lifetime))
      × (r.0 ≡ not (elem call (read lifetime now e).calls))
      × (r.1.revision ≡ (if r.0 then e.revision + 1 else e.revision))
unfolding renew read
renew_counts lifetime now later call e =
    (renewed_counts lifetime now later call (kept_claims e now), refl, refl)

-- A call that was let go is read as none of the user's calls from then on, and the revision moves on
-- exactly when Redis still had its claim.
release_frees :
    (lifetime now later : ℕ) (call : Text) (e : UserEntry)
    → now ≤ later
    → let r = release lifetime now call e in
      (elem call (read lifetime later r.1).calls ≡ false)
      × (r.1.revision
          ≡ (if elem call (keys (kept_claims e now)) then e.revision + 1 else e.revision))
unfolding release read
release_frees lifetime now later call e l = (
  ground (
    arith,
    young-erase lifetime later call (kept_claims e now),
    young-elem lifetime later call e.claims,
  ),
  ground arith,
)
