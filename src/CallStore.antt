-- ===== src/CallStore.antt =====
-- The store of call states and the versioned write
-- (apps/call-controller/src/calls/telephony.service.ts: `getCallState`, `createCallState`, `updateCallState` and the script behind it). The store is what
-- Redis holds of one conversation; entries do not expire while a change is being written.
pub mod Writes
use mathlib.Core.Logic.{ite}
use iziphone.Prelude.{
  ℕ, zero, suc, ◌+◌, Bool, true, false, Option, none, some, ◌==◌, if◌then◌else◌, ℕ_discrete,
}
use iziphone.CallState.{CallState}

-- What a change to a call decided: `CallStateChange`, with the draft that it changed in place.
pub record CallStateChange (R : Type 0) : Type 0 where
  pub result : R
  pub draft : CallState
  pub remove : Bool

pub record CallStateUpdate (R : Type 0) : Type 0 where
  pub result : R
  pub before : CallState
  pub after : Option CallState

unfoldable pub CallState-discrete : Discrete CallState
unfolding ℕ_discrete
CallState-discrete = hlevel ℕ_discrete

-- The state under the conversation's key, and whether the live set has the conversation.
pub record Slot : Type 0 where
  pub stored : Option CallState
  pub live : Bool

-- `getCallState`. A state with no version reads as version 0, which the record has already.
abbrev pub get_call_state : Slot → Option CallState
get_call_state slot = slot.stored

-- `createCallState`
unfoldable pub create_call_state : CallState → Slot → CallState × Slot
create_call_state s slot =
    let created = record s { version = 1 } in
    (created, record { stored = some created; live = true })

-- What `WRITE_CALL_STATE_SCRIPT` answers: 1, 0 and -1.
pub data Reply : Type 0 where
  wrote beaten gone : Reply

write_over : CallState → ℕ → Option CallState → Slot → Reply × Slot
write_over current version none slot =
    if current.version == version
    then (wrote, record { stored = none; live = false })
    else (beaten, slot)
write_over current version (some after) slot =
    if current.version == version
    then (wrote, record slot { stored = some after })
    else (beaten, slot)

-- `WRITE_CALL_STATE_SCRIPT`: write `after`, or forget the call, at the version that was read.
pub write_call_state : ℕ → Option CallState → Slot → Reply × Slot
unfolding write_over
write_call_state version after slot = elim slot.stored [
  | none ↦ (gone, slot)
  | some current ↦ write_over current version after slot
]

-- The state that a change leaves, `none` when it removes the call.
unfoldable pub after_change : {R : Type 0} → CallState → CallStateChange R → Option CallState
after_change before change =
    if change.remove then none else some (record change.draft { version = before.version + 1 })

-- The draft is the state that it was copied from.
unfoldable pub is_unchanged : {R : Type 0} → CallState → CallStateChange R → Bool
unfolding CallState-discrete
is_unchanged before change =
    if change.remove
    then false
    else ite (CallState-discrete (record change.draft { version = before.version }) before) true
        false

-- The state that the store holds once a change is made: a change that changed nothing is not written,
-- and any other leaves the next version.
unfoldable pub state_after : {R : Type 0} → CallState → CallStateChange R → Option CallState
unfolding after_change is_unchanged
state_after before change =
    if is_unchanged before change then some before else after_change before change

pub data Outcome (R : Type 0) : Type 0 where
  updated : CallStateUpdate R → Outcome R
  no_such_call : Outcome R
  conflict : Outcome R

abbrev pub call_state_write_attempts : ℕ
call_state_write_attempts = 10

-- What other writers do to the store between the read and the write of an attempt, by the number of
-- the attempt. What they do during the pause after it counts with it.
abbrev pub Others : Type 0
Others = ℕ → Slot → Slot

-- What an attempt answers for the script's reply.
abbrev pub answer :
    {R : Type 0} → CallStateUpdate R → Outcome R × Slot → Reply × Slot → Outcome R × Slot
answer update retry (wrote, slot) = (updated update, slot)
answer update retry (beaten, slot) = retry
answer update retry (gone, slot) = (no_such_call, slot)

module _ {R : Type 0} (decide : CallState → CallStateChange R) where
  -- One attempt, on the store as it was read, as the write finds it, and the attempts that follow.
  pub round : Slot → Slot → Outcome R × Slot → Option CallState → Outcome R × Slot
  round slot found retry none = (no_such_call, slot)
  round slot found retry (some before) =
      let change = decide before in
      let after = after_change before change in
      if is_unchanged before change
      then (updated (record { result = change.result; before = before; after = some before }), slot)
      else answer (record { result = change.result; before = before; after = after }) retry
          (write_call_state before.version after found)

  -- The attempts left, the number of the next one, and the store as it finds it.
  pub attempt : Others → ℕ → ℕ → Slot → Outcome R × Slot
  attempt others zero n slot = (conflict, slot)
  attempt others (suc left) n slot =
      let retry = attempt others left (suc n) (others n slot) in
      round slot (others n slot) retry (get_call_state slot)

  -- `updateCallState`
  unfoldable pub update_call_state : Others → Slot → Outcome R × Slot
  unfolding attempt round after_change is_unchanged write_call_state
  update_call_state others slot = attempt others call_state_write_attempts 1 slot
