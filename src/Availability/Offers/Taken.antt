-- ===== src/Availability/Offers/Taken.antt =====
-- What a user was when an offer took them (availability.service.ts: `claimIfAvailable`).
use iziphone.Prelude.{
  ℕ, zero, suc, ◌+◌, ◌≤◌, ◌≡◌, ◌⊎◌, refl, sym, ap, ◌∙◌, inl, inr, Bool, true, false, not, Option,
  none, some, List, [], ◌∷◌, ◌++◌, arith, ◌==◌, elem, any, Dict, keys, erase,
}
use mathlib.Core.Path.{subst}
use iziphone.Domain.{Text, UnavailableReason}
use iziphone.Availability.{
  UserEntry, read, claim, release, renew, renewed_at, young, kept_claims, mark_changed,
  set_do_not_disturb, record_eligibility, Change, claims_for, releases, renews, marks, disturbs,
  records, apply_change, apply_changes,
}
use iziphone.Availability.Claims.{apply_change-grows, apply_changes-grows}
use iziphone.Availability.Offers.{
  Attempt, ClaimOutcome, claimed, AvailabilityState, available, unavailable, decide_availability,
  is_none, as_read, as_claimed, verdict, answer, act_on, claim_attempts, attempt_claim,
  claim_if_available,
}

-- When a change runs that runs after `t`.
abbrev pub moment : ℕ → Change → ℕ
moment t (claims_for now call expected) = now
moment t (releases now call) = now
moment t (renews now call) = now
moment t marks = t
moment t (disturbs on) = t
moment t (records now revision eligible) = now

-- The changes run one after the other, from `t` on and until `t'`.
abbrev pub InOrder : ℕ → List Change → ℕ → Type 0
InOrder t [] t' = t ≤ t'
InOrder t (c ∷ cs) t' = (t ≤ moment t c) × InOrder (moment t c) cs t'

State-cases :
    (v : AvailabilityState) → (v ≡ available) ⊎ ((r : UnavailableReason) × (v ≡ unavailable r))
State-cases available = inl refl
State-cases (unavailable r) = inr (r, refl)

module _ (lifetime : ℕ) (call : Text) where
  abbrev other_claim : ℕ → Dict → Bool
  other_claim t d = any (λ c. not (call == c)) (keys (young lifetime t d))

  -- Another call claims the user at `t`.
  abbrev pub is_wanted : UserEntry → ℕ → Bool
  is_wanted e t = any (λ c. not (call == c)) (read lifetime t e).calls

  other_claim_earlier :
      (d : Dict) (t t' : ℕ) → t ≤ t' → other_claim t' d ≡ true → other_claim t d ≡ true
  other_claim_earlier [] t t' l h = h
  other_claim_earlier ((c, r) ∷ d) t t' l h = ground (arith, other_claim_earlier d t t')

  other_claim-young :
      (d : Dict) (t t' : ℕ)
      → t ≤ t'
      → other_claim t' (young lifetime t d) ≡ true
      → other_claim t d ≡ true
  other_claim-young [] t t' l h = h
  other_claim-young ((c, r) ∷ d) t t' l h = ground (arith, other_claim-young d t t')

  other_claim-erase :
      (d : Dict) (c : Text) (t : ℕ) → other_claim t (erase c d) ≡ true → other_claim t d ≡ true
  other_claim-erase [] c t h = h
  other_claim-erase ((b, r) ∷ d) c t h = ground (arith, other_claim-erase d c t)

  other_claim-append :
      (d : Dict) (c : Text) (now t : ℕ)
      → other_claim t (d ++ ((c, now) ∷ [])) ≡ true
      → (other_claim t d ≡ true) ⊎ ((call == c) ≡ false)
  other_claim-append [] c now t h = ground arith
  other_claim-append ((b, r) ∷ d) c now t h = ground (arith, other_claim-append d c now t)

  other_claim-elem :
      (d : Dict) (c : Text) (t : ℕ)
      → elem c (keys (young lifetime t d)) ≡ true
      → (call == c) ≡ false
      → other_claim t d ≡ true
  other_claim-elem [] c t h n = cc
  other_claim-elem ((b, r) ∷ d) c t h n = ground (arith, other_claim-elem d c t)

  -- The renewal of a claim that counts brings no other claim about.
  other_claim-renewed :
      (d : Dict) (c : Text) (now t : ℕ)
      → now ≤ t
      → elem c (keys (young lifetime now d)) ≡ true
      → other_claim t (renewed_at now c d) ≡ true
      → other_claim now d ≡ true
  other_claim-renewed d c now t l m h = elim (other_claim-append (erase c d) c now t h) [
    | inl e ↦ other_claim_earlier d now t l (other_claim-erase d c t e)
    | inr n ↦ other_claim-elem d c now m n
  ]

  is_wanted_earlier :
      (e : UserEntry) (t t' : ℕ) → t ≤ t' → is_wanted e t' ≡ true → is_wanted e t ≡ true
  unfolding read
  is_wanted_earlier e t t' l h = ground (arith, other_claim_earlier e.claims t t')

  claim_keeps :
      (now t' : ℕ) (c : Text) (expected : Option ℕ) (e : UserEntry)
      → now ≤ t'
      → (claim lifetime now c expected e).1.revision ≡ e.revision
      → is_wanted (claim lifetime now c expected e).1 t' ≡ true
      → is_wanted e now ≡ true
  unfolding claim read
  claim_keeps now t' c expected e l r h = ground (
    arith,
    other_claim_earlier e.claims now t',
    other_claim-renewed (young lifetime now (kept_claims e now)) c now t',
    other_claim-young (kept_claims e now) now now,
    young_twice (kept_claims e now) c now,
  )
    where
      young_twice :
          (d : Dict) (c : Text) (now : ℕ)
          → elem c (keys (young lifetime now d)) ≡ true
          → elem c (keys (young lifetime now (young lifetime now d))) ≡ true
      young_twice [] c now h = h
      young_twice ((b, r) ∷ d) c now h = ground (arith, young_twice d c now)

  renew_keeps :
      (now t' : ℕ) (c : Text) (e : UserEntry)
      → now ≤ t'
      → (renew lifetime now c e).1.revision ≡ e.revision
      → is_wanted (renew lifetime now c e).1 t' ≡ true
      → is_wanted e now ≡ true
  unfolding renew read
  renew_keeps now t' c e l r h = ground (arith, other_claim-renewed (kept_claims e now) c now t')

  -- A change that leaves the revision alone makes nobody else want the user.
  apply_change_keeps :
      (c : Change) (e : UserEntry) (t t' : ℕ)
      → t ≤ moment t c
      → moment t c ≤ t'
      → (apply_change lifetime c e).revision ≡ e.revision
      → is_wanted (apply_change lifetime c e) t' ≡ true
      → is_wanted e t ≡ true
  unfolding apply_change release mark_changed set_do_not_disturb record_eligibility read
  apply_change_keeps (claims_for now c expected) e t t' l m r h =
      is_wanted_earlier e t now l (claim_keeps now t' c expected e m r h)
  apply_change_keeps (renews now c) e t t' l m r h =
      is_wanted_earlier e t now l (renew_keeps now t' c e m r h)
  apply_change_keeps (releases now c) e t t' l m r h = ground (arith, is_wanted_earlier e t t')
  apply_change_keeps marks e t t' l m r h = absurd (omega arith)
  apply_change_keeps (disturbs on) e t t' l m r h = ground (arith, is_wanted_earlier e t t')
  apply_change_keeps (records now revision eligible) e t t' l m r h =
      ground (arith, is_wanted_earlier e t t')

  apply_change_disturbs :
      (c : Change) (e : UserEntry)
      → (apply_change lifetime c e).revision ≡ e.revision
      → (apply_change lifetime c e).do_not_disturb ≡ e.do_not_disturb
  unfolding apply_change claim release renew mark_changed set_do_not_disturb record_eligibility
  apply_change_disturbs (claims_for now c expected) e r = ground arith
  apply_change_disturbs (renews now c) e r = ground arith
  apply_change_disturbs (releases now c) e r = ground arith
  apply_change_disturbs marks e r = absurd (omega arith)
  apply_change_disturbs (disturbs on) e r = ground arith
  apply_change_disturbs (records now revision eligible) e r = ground arith

  InOrder-le : (t t' : ℕ) (cs : List Change) → InOrder t cs t' → t ≤ t'
  InOrder-le t t' [] o = o
  InOrder-le t t' (c ∷ cs) o = omega (arith, InOrder-le (moment t c) t' cs o.1)

  -- A revision that is found again says that nothing happened that the rule of availability reads.
  apply_changes_keep :
      (cs : List Change) (e : UserEntry) (t t' : ℕ)
      → InOrder t cs t'
      → (apply_changes lifetime cs e).revision ≡ e.revision
      → (is_wanted e t ≡ false)
      → (is_wanted (apply_changes lifetime cs e) t' ≡ false)
        × ((apply_changes lifetime cs e).do_not_disturb ≡ e.do_not_disturb)
  unfolding apply_changes
  apply_changes_keep [] e t t' o r w = (ground (arith, is_wanted_earlier e t t'), refl)
  apply_changes_keep (c ∷ cs) e t t' o r w =
      let e' = apply_change lifetime c e in
      let a = apply_change-grows lifetime c e in
      let b = apply_changes-grows lifetime cs e' in
      let same : e'.revision ≡ e.revision = omega arith in
      let (calm, still) =
        apply_changes_keep cs e' (moment t c) t' o.1 (r ∙ sym same)
          (ground (arith, apply_change_keeps c e t (moment t c))) in
      (calm, still ∙ apply_change_disturbs c e same)

  -- The claim of the attempt lands on a user who is free for this call.
  pub record LandsOn (a : Attempt) (sockets : List Text) (found final : UserEntry) : Type 0 where
    pub reaches : sockets ≡ a.socket_ids
    pub connected : is_none a.socket_ids ≡ false
    pub not_disturbed : found.do_not_disturb ≡ false
    pub not_wanted : is_wanted found a.claim_at ≡ false
    pub taken : final ≡ (claim lifetime a.claim_at call none found).1

  verdict_free :
      (a : Attempt) (e : UserEntry)
      → verdict lifetime call a e ≡ available
      → (is_none a.socket_ids ≡ false)
        × ((as_read lifetime call a e).do_not_disturb ≡ false)
        × (is_wanted (as_read lifetime call a e) a.read_at ≡ false)
  unfolding decide_availability read
  verdict_free a e h = (ground arith, ground arith, ground arith)

  claim_taken :
      (now revision : ℕ) (e : UserEntry) (r : ℕ × Bool)
      → (claim lifetime now call (some revision) e).0 ≡ some r
      → (e.revision ≡ revision)
        × ((claim lifetime now call (some revision) e).1 ≡ (claim lifetime now call none e).1)
  unfolding claim
  claim_taken now revision e r h = (ground arith, ground arith)

  -- The user as the claim of an attempt finds them, when the attempts up to it are made one after the
  -- other, the first on the user `e`.
  abbrev pub met : (ℕ → Attempt) → UserEntry → ℕ → UserEntry
  met attempts e zero = e
  met attempts e (suc k) = as_claimed lifetime call (attempts (suc k)) (met attempts e k)

  -- One of the attempts landed, up to the `last`.
  abbrev pub Landed : (ℕ → Attempt) → UserEntry → ℕ → List Text → UserEntry → Type 0
  Landed attempts e last sockets final =
      (k : ℕ) × (suc k ≤ last) × LandsOn (attempts (suc k)) sockets (met attempts e (suc k)) final

  module _ (attempts : ℕ → Attempt) (first : UserEntry) (sockets : List Text) (added : Bool)
      (in_order : (n : ℕ)
        → InOrder (attempts n).read_at (attempts n).between (attempts n).claim_at) where
    answer-Landed :
        (k last : ℕ)
        → suc k ≤ last
        → (retry : UserEntry → ClaimOutcome × UserEntry) → (r : Option (ℕ × Bool)) (f : UserEntry)
        → verdict lifetime call (attempts (suc k)) (met attempts first k) ≡ available
        → claim lifetime
            (attempts (suc k)).claim_at
            call
            (some (as_read lifetime call (attempts (suc k)) (met attempts first k)).revision)
            (met attempts first (suc k))
          ≡ (r, f)
        → ((retry (met attempts first (suc k))).0 ≡ claimed sockets added
            → Landed attempts first last sockets (retry (met attempts first (suc k))).1)
        → (answer lifetime call (attempts (suc k)) retry (met attempts first (suc k)) (r, f)).0
          ≡ claimed sockets added
        → Landed attempts first last sockets
            (answer lifetime call (attempts (suc k)) retry (met attempts first (suc k)) (r, f)).1
    answer-Landed k last l retry none f v c again h = again h
    answer-Landed k last l retry (some (revision, new)) f v c again h =
        let a = attempts (suc k) in
        let e = met attempts first k in
        let (connected, calm, alone) = verdict_free a e v in
        let (same, taken) =
          claim_taken a.claim_at (as_read lifetime call a e).revision (as_claimed lifetime call a e)
            (revision, new) (ap (λ (x : Option (ℕ × Bool) × UserEntry). x.0) c) in
        let (lone, kept) =
          apply_changes_keep a.between (as_read lifetime call a e) a.read_at a.claim_at
            (in_order (suc k)) same alone in
        (
          k,
          l,
          record {
            reaches = ground arith;
            connected = connected;
            not_disturbed = kept ∙ calm;
            not_wanted = lone;
            taken = sym (ap (λ (x : Option (ℕ × Bool) × UserEntry). x.1) c) ∙ taken;
          },
        )

    attempt_claim-Landed :
        (left k last : ℕ)
        → left + k ≤ last
        → (attempt_claim lifetime call attempts left (suc k) (met attempts first k)).0
          ≡ claimed sockets added
        → Landed attempts first last sockets
            (attempt_claim lifetime call attempts left (suc k) (met attempts first k)).1
    unfolding attempt_claim
    attempt_claim-Landed zero k last l h = cc
    attempt_claim-Landed (suc left) k last l h =
        let a = attempts (suc k) in
        let e = met attempts first k in
        let retry = attempt_claim lifetime call attempts left (suc (suc k)) in
        elim (State-cases (verdict lifetime call a e)) [
          | inl free ↦
              subst
                (λ v.
                  (act_on lifetime call v a retry e).0 ≡ claimed sockets added
                  → Landed attempts first last sockets (act_on lifetime call v a retry e).1)
                (sym free)
                (answer-Landed k last (omega arith) retry _ _ free refl
                  (attempt_claim-Landed left (suc k) last (omega arith)))
                h
          | inr (reason, not_free) ↦
              absurd (cc (not_free, ap (λ v. (act_on lifetime call v a retry e).0) not_free, h))
        ]

  -- However a user's availability changes before and within the attempts of an offer, when the offer
  -- takes the user, then one of its attempts, at most the fifth, landed: the sockets that the call is
  -- offered to are those that presence knew as that very attempt read them, and there was one; and the
  -- user as its claim finds them, after all that happened in the attempts up to it, does not want to be
  -- left alone, no other call has a claim on them that counts, and what is stored then is the claim
  -- written over what was found. (Within an attempt, the times of the read, of the changes after it and
  -- of the claim are in order.)
  pub claim_if_available-Landed :
      (attempts : ℕ → Attempt)
      → ((n : ℕ) → InOrder (attempts n).read_at (attempts n).between (attempts n).claim_at)
      → (e : UserEntry) (sockets : List Text) (added : Bool)
      → (claim_if_available lifetime call attempts e).0 ≡ claimed sockets added
      → Landed attempts e 5 sockets (claim_if_available lifetime call attempts e).1
  unfolding claim_if_available
  claim_if_available-Landed attempts o e sockets added h =
      attempt_claim-Landed attempts e sockets added o claim_attempts 0 5 (omega arith) h
