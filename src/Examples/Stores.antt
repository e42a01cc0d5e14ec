-- ===== src/Examples/Stores.antt =====
-- A store that another writer changes between the first read and the first write.
use iziphone.Prelude.{ℕ, suc, zero, ◌+◌, ◌≤◌, ◌≢◌, refl, ap, Option, none, some, true, arith}
use iziphone.CallState.{CallState}
use iziphone.CallStore.{Slot, Others, update_call_state, conflict, call_state_write_attempts}
use iziphone.CallStore.Writes.{
  keeps, replaces, AreVersioned, Linearised, others_alone, update_call_state-Linearised,
  update_call_state-ne-conflict,
}
use iziphone.CallFlow.Transfers.{end_call}
use iziphone.Examples.Calls.{talks}

-- The next version of a state that is there.
abbrev bump : Option CallState → Option CallState
bump none = none
bump (some s) = some (record s { version = s.version + 1; held = some true })

abbrev one_writer : Others
one_writer zero slot = slot
one_writer (suc zero) slot = record slot { stored = bump slot.stored }
one_writer (suc (suc n)) slot = slot

one_writer-versioned : AreVersioned one_writer
one_writer-versioned zero slot c h = keeps h
one_writer-versioned (suc zero) slot c h =
    replaces (record c { version = c.version + 1; held = some true }) (ap bump h) (omega arith)
one_writer-versioned (suc (suc n)) slot c h = keeps h

abbrev store : Slot
store = record { stored = some talks; live = true }

update_call_state-Linearised_example :
    let r = update_call_state (end_call 95 (some 1)) one_writer store in
    (m : ℕ) × (m ≤ call_state_write_attempts)
    × Linearised (end_call 95 (some 1)) (others_alone one_writer 1 m store) r.0 r.1
update_call_state-Linearised_example =
    update_call_state-Linearised (end_call 95 (some 1)) one_writer store one_writer-versioned

update_call_state-ne-conflict_example :
    (update_call_state (end_call 95 (some 1)) one_writer store).0 ≢ conflict
update_call_state-ne-conflict_example =
    update_call_state-ne-conflict (end_call 95 (some 1)) one_writer store 1 (omega arith)
      (λ s. refl)
