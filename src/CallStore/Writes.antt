-- ===== src/CallStore/Writes.antt =====
-- A change under other writers: what `update_call_state` amounts to.
use iziphone.Prelude.{
  ℕ, zero, suc, ◌+◌, ◌≤◌, ◌<◌, ◌≡◌, ◌≢◌, ◌⊎◌, inl, inr, refl, sym, ap, ◌∙◌, true, false, Option,
  none, some, arith, Bool-cases, Option-cases,
}
use mathlib.Core.Path.{subst}
use iziphone.CallState.{CallState}
use iziphone.CallStore.{
  CallStateChange, CallStateUpdate, Slot, Reply, wrote, beaten, gone, write_call_state,
  after_change, is_unchanged, state_after, Outcome, updated, no_such_call, conflict, Others, answer,
  round, attempt, update_call_state, call_state_write_attempts,
}

-- A draft that is not written is the state it was copied from.
pub unchanged_draft :
    {R : Type 0} (before : CallState) (change : CallStateChange R)
    → is_unchanged before change ≡ true
    → record change.draft { version = before.version } ≡ before
unfolding is_unchanged
unchanged_draft before change h = ground arith

-- Another writer leaves a state alone, removes it, or replaces it by one of a later version.
pub data Follows (c : CallState) (slot : Slot) : Type 0 where
  keeps : slot.stored ≡ some c → Follows c slot
  removes : slot.stored ≡ none → Follows c slot
  replaces : (d : CallState) → slot.stored ≡ some d → c.version < d.version → Follows c slot

abbrev pub AreVersioned : Others → Type 0
AreVersioned others =
    (n : ℕ) (slot : Slot) (c : CallState) → slot.stored ≡ some c → Follows c (others n slot)

-- The store after the other writers' actions alone, of `m` attempts from the `n`-th on.
abbrev pub others_alone : Others → ℕ → ℕ → Slot → Slot
others_alone others n zero slot = slot
others_alone others n (suc m) slot = others_alone others (suc n) m (others n slot)

-- One change made with nobody in between.
abbrev pub Atomic :
    {R : Type 0} → (CallState → CallStateChange R) → Slot → CallStateUpdate R → Slot → Type 0
Atomic decide at u final =
    (at.stored ≡ some u.before)
    × (u.result ≡ (decide u.before).result)
    × (final.stored ≡ u.after)
    × (u.after ≡ state_after u.before (decide u.before))

-- What the outcome of a change says of the store that the other writers alone would have left after
-- some of the attempts.
abbrev pub Linearised :
    {R : Type 0} → (CallState → CallStateChange R) → Slot → Outcome R → Slot → Type 0
Linearised decide at (updated u) final = Atomic decide at u final
Linearised decide at no_such_call final = (at.stored ≡ none) × (final.stored ≡ none)
Linearised decide at conflict final = final ≡ at

-- The write goes to the state that it was decided on, or answers why not.
write_cases :
    (before : CallState) (after : Option CallState) (slot : Slot)
    → Follows before slot
    → ((final : Slot) × (slot.stored ≡ some before)
        × (write_call_state before.version after slot ≡ (wrote, final))
        × (final.stored ≡ after))
      ⊎ (((slot.stored ≡ none) × (write_call_state before.version after slot ≡ (gone, slot)))
          ⊎ (write_call_state before.version after slot ≡ (beaten, slot)))
unfolding write_call_state
write_cases before none slot (keeps e) =
    inl (record { stored = none; live = false }, e, ground arith, refl)
write_cases before (some a) slot (keeps e) =
    inl (record slot { stored = some a }, e, ground arith, refl)
write_cases before after slot (removes e) = inr (inl (e, ground arith))
write_cases before none slot (replaces d e h) = inr (inr (ground arith))
write_cases before (some a) slot (replaces d e h) = inr (inr (ground arith))

module _ {R : Type 0} (others : Others) (decide : CallState → CallStateChange R) where
  -- The update that leaves `after`.
  abbrev update_to : CallState → Option CallState → CallStateUpdate R
  update_to before after = record {
    result = (decide before).result;
    before = before;
    after = after;
  }

  attempt_on :
      (left n : ℕ) (slot : Slot) (stored : Option CallState)
      → slot.stored ≡ stored
      → attempt decide others (suc left) n slot
        ≡ round decide slot
            (others n slot)
            (attempt decide others left (suc n) (others n slot))
            stored
  unfolding attempt
  attempt_on left n slot stored e =
      ap (round decide slot (others n slot) (attempt decide others left (suc n) (others n slot))) e

  round_unchanged :
      (slot found : Slot) (retry : Outcome R × Slot) (before : CallState)
      → is_unchanged before (decide before) ≡ true
      → round decide slot found retry (some before)
        ≡ (updated (update_to before (some before)), slot)
  unfolding round
  round_unchanged slot found retry before u = rw u

  round_changed :
      (slot found : Slot) (retry : Outcome R × Slot) (before : CallState) (reply : Reply × Slot)
      → is_unchanged before (decide before) ≡ false
      → write_call_state before.version (after_change before (decide before)) found ≡ reply
      → round decide slot found retry (some before)
        ≡ answer (update_to before (after_change before (decide before))) retry reply
  unfolding round
  round_changed slot found retry before reply u e =
      rw u (ap (answer (update_to before (after_change before (decide before))) retry) e)

  abbrev Explained : ℕ → ℕ → Slot → Outcome R × Slot → Type 0
  Explained left n slot r =
      (m : ℕ) × (m ≤ left) × Linearised decide (others_alone others n m slot) r.0 r.1

  written :
      (before : CallState)
      → is_unchanged before (decide before) ≡ false
      → after_change before (decide before) ≡ state_after before (decide before)
  unfolding state_after
  written before u = rw u

  left_alone :
      (before : CallState)
      → is_unchanged before (decide before) ≡ true
      → some before ≡ state_after before (decide before)
  unfolding state_after
  left_alone before u = rw u

  attempt-Linearised :
      AreVersioned others
      → (left n : ℕ) (slot : Slot) → Explained left n slot (attempt decide others left n slot)
  attempt-Linearised v zero n slot = unfold attempt in (0, omega arith, refl)
  attempt-Linearised v (suc left) n slot = elim (Option-cases slot.stored) [
    | inl e ↦
        subst (Explained (suc left) n slot) (sym (attempt_on left n slot none e))
          (unfold round in (0, omega arith, (e, e)))
    | inr (before, e) ↦
        let found = others n slot in
        let retry = attempt decide others left (suc n) found in
        let go : round decide slot found retry (some before)
            ≡ attempt decide others (suc left) n slot =
          sym (attempt_on left n slot (some before) e) in
        elim (Bool-cases (is_unchanged before (decide before))) [
          | inl u ↦
              subst (Explained (suc left) n slot)
                (sym (round_unchanged slot found retry before u) ∙ go)
                (0, omega arith, (e, refl, e, left_alone before u))
          | inr u ↦
              elim (write_cases before (after_change before (decide before)) found
                (v n slot before e)) [
                  | inl (final, at, w, stored) ↦
                      subst (Explained (suc left) n slot)
                        (sym (round_changed slot found retry before _ u w) ∙ go)
                        (1, omega arith, (at, refl, stored, written before u))
                  | inr (inl (at, w)) ↦
                      subst (Explained (suc left) n slot)
                        (sym (round_changed slot found retry before _ u w) ∙ go)
                        (1, omega arith, (at, at))
                  | inr (inr w) ↦
                      let (m, le, rest) = attempt-Linearised v left (suc n) (others n slot) in
                      subst (Explained (suc left) n slot)
                        (sym (round_changed slot found retry before _ u w) ∙ go)
                        (suc m, omega arith, rest)
                ]
        ]
  ]

  write_own :
      (before : CallState) (after : Option CallState) (slot : Slot)
      → slot.stored ≡ some before
      → (final : Slot) × (write_call_state before.version after slot ≡ (wrote, final))
  unfolding write_call_state
  write_own before none slot e = (record { stored = none; live = false }, ground arith)
  write_own before (some a) slot e = (record slot { stored = some a }, ground arith)

  round_quiet :
      (slot : Slot) (retry : Outcome R × Slot) (stored : Option CallState)
      → slot.stored ≡ stored
      → (round decide slot slot retry stored).0 ≢ conflict
  unfolding round
  round_quiet slot retry none e h = cc
  round_quiet slot retry (some before) e h =
      elim (Bool-cases (is_unchanged before (decide before))) [
        | inl u ↦ cc (ap (λ (r : Outcome R × Slot). r.0) (round_unchanged slot slot retry before u))
        | inr u ↦
            let (final, w) = write_own before (after_change before (decide before)) slot e in
            cc (ap (λ (r : Outcome R × Slot). r.0) (round_changed slot slot retry before _ u w))
      ]

  round_retry :
      (slot found : Slot) (retry : Outcome R × Slot) (stored : Option CallState)
      → retry.0 ≢ conflict
      → (round decide slot found retry stored).0 ≢ conflict
  unfolding round
  round_retry slot found retry none r h = cc
  round_retry slot found retry (some before) r h = ground arith

  attempt_quiet :
      (left n k i : ℕ) (slot : Slot)
      → k < left
      → i ≡ n + k
      → ((s : Slot) → others i s ≡ s)
      → (attempt decide others left n slot).0 ≢ conflict
  attempt_quiet zero n k i slot l e q h = elim l [ ]
  attempt_quiet (suc left) n zero i slot l e q h =
      let still : others n slot ≡ slot = subst (λ j. others j slot ≡ slot) (omega arith) (q slot) in
      round_quiet slot (attempt decide others left (suc n) (others n slot)) slot.stored refl (
        sym (
          ap (λ r. r.0)
            (attempt_on left n slot slot.stored refl
              ∙ ap
                  (λ found.
                    round decide slot found (attempt decide others left (suc n) (others n slot))
                      slot.stored)
                  still))
        ∙ h)
  attempt_quiet (suc left) n (suc k) i slot l e q h =
      round_retry slot (others n slot) (attempt decide others left (suc n) (others n slot))
        slot.stored (attempt_quiet left (suc n) k i (others n slot) (omega arith) (omega arith) q)
        (sym (ap (λ r. r.0) (attempt_on left n slot slot.stored refl)) ∙ h)

module _ {R : Type 0} (decide : CallState → CallStateChange R) where
  -- However other writers act on the store during the attempts, provided that each of their writes
  -- that replaces a state gives it a later version, a change has the outcome of one made with nobody
  -- in between, at a moment between two of their actions: an update was decided on the state stored
  -- at that moment, and the store holds what it decided, at the next version or as it was if nothing
  -- changed; a missing call was missing then; and a change that gave up left no trace.
  pub update_call_state-Linearised :
      (others : Others) (slot : Slot)
      → AreVersioned others
      → let r = update_call_state decide others slot in
        (m : ℕ) × (m ≤ call_state_write_attempts)
        × Linearised decide (others_alone others 1 m slot) r.0 r.1
  unfolding update_call_state
  update_call_state-Linearised others slot v =
      attempt-Linearised others decide v call_state_write_attempts 1 slot

  -- A change does not give up if the other writers leave the store alone during one of its ten
  -- attempts.
  pub update_call_state-ne-conflict :
      (others : Others) (slot : Slot) (k : ℕ)
      → k < call_state_write_attempts
      → ((s : Slot) → others (suc k) s ≡ s)
      → (update_call_state decide others slot).0 ≢ conflict
  unfolding update_call_state
  update_call_state-ne-conflict others slot k l q =
      attempt_quiet others decide call_state_write_attempts 1 k (suc k) slot l (omega arith) q
