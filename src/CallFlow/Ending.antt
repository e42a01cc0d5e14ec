-- ===== src/CallFlow/Ending.antt =====
-- A call that is ending (call-flow.ts: `endCall` and the guards of the other writes).
use iziphone.Prelude.{false, not, ◌&&◌, ◌||◌, ◌≡◌, Option, arith, ◌==◌}
use iziphone.Domain.{Text, is}
use iziphone.CallState.{CallState}
use iziphone.CallState.Occupancy.{is_occupied}
use iziphone.CallControl.{end_call as end_plan}
use iziphone.CallFlow.Transfers.{end_call}

-- Asking for the end of a call occupies nobody who was not occupied, and keeps everybody but the
-- teammate a transfer was ringing. Asked for again, it changes nothing.
end_call_occupancy :
    (now later : Text) (by again : Option Text) (s : CallState) (u : Text)
    → s.ending ≡ false
    → let t = (end_call now by s).draft in
      (is_occupied s u ≡ (
        is_occupied t u
        || (not s.voicemail && (not (u == 0) && is s.pending_transfer_to_user_id u))))
      × ((end_call later again t).draft ≡ t)
unfolding end_call
end_call_occupancy now later by again s u e = (ground arith, ground arith)
