-- ===== src/CallFlow/Transfers.antt =====
-- The writes of hold and transfer (call-flow.ts: `recordHold`, `transferCall`, `failPendingTransfer`)
-- and of the end of a call (`endCall`).
pub mod Settlement
use iziphone.Prelude.{
  ℕ, Bool, true, false, not, ◌&&◌, ◌||◌, Option, none, some, List, [], ◌∷◌, ◌==◌, if◌then◌else◌,
  Dict,
}
use iziphone.Domain.{Text, is, CallControlRefusal}
use iziphone.CallState.{CallState, LegMetadata, users_where, remove_leg}
use iziphone.CallControl.{
  CallControlRequest, refuse_transfer, TransferFailurePlan, plan_transfer_failure,
}
use iziphone.CallStore.{CallStateChange}

abbrev pub changed : {R : Type 0} → R → CallState → CallStateChange R
changed result draft = record { result = result; draft = draft; remove = false }

-- A transfer that is no longer pending.
abbrev pub clear_transfer : CallState → CallState
clear_transfer s = record s {
  pending_transfer_to_user_id = none;
  transfer_initiated_by = none;
  transfer_origin_leg_uuid = none;
}

-- The write of `endCall`: the call is ending, by whom and since when.
unfoldable pub end_call : Text → Option Text → CallState → CallStateChange (Unit {0})
end_call now initiated_by s =
    if s.ending
    then changed tt s
    else changed tt (record (clear_transfer s) {
      ending = true;
      ending_requested_at = some now;
      ending_requested_by = initiated_by;
    })

abbrev pub is_on : Option Bool → Bool
is_on none = false
is_on (some b) = b

abbrev pub same_bool : Bool → Bool → Bool
same_bool true b = b
same_bool false b = not b

-- The write of `recordHold`, and whether it changed the flag.
unfoldable pub record_hold : Bool → CallState → CallStateChange Bool
record_hold held s =
    if s.ending || same_bool (is_on s.held) held
    then changed false s
    else changed true (record s { held = some held })

-- The legs of a user, in order.
abbrev pub legs_of_user : Text → Dict → List Text
legs_of_user u [] = []
legs_of_user u ((leg, w) ∷ legs) = if w == u then leg ∷ legs_of_user u legs else legs_of_user u legs

unfoldable pub remove_legs : CallState → List Text → CallState
remove_legs s [] = s
remove_legs s (leg ∷ legs) = remove_legs (remove_leg s leg) legs

pub record TransferMark : Type 0 where
  pub refusal : Option CallControlRefusal
  pub lost_ring_leg_uuids : List Text

abbrev pub mark_unless :
    CallControlRequest → Text → CallState → Option CallControlRefusal → CallStateChange TransferMark
mark_unless r target s (some refusal) =
    changed (record { refusal = some refusal; lost_ring_leg_uuids = [] }) s
mark_unless r target s none =
    let lost = legs_of_user target s.agent_legs in
    changed (record { refusal = none; lost_ring_leg_uuids = lost })
      (record (remove_legs s lost) {
        pending_transfer_to_user_id = some target;
        transfer_initiated_by = some r.user_id;
        transfer_origin_leg_uuid = some r.leg_uuid;
      })

-- The write of `transferCall`: checked and marked in one.
unfoldable pub mark_transfer :
    LegMetadata → CallControlRequest → Text → CallState → CallStateChange TransferMark
mark_transfer leg r target s = mark_unless r target s (refuse_transfer s leg r target)

pub record SettledTransfer : Type 0 where
  pub plan : TransferFailurePlan
  pub initiated_by : Option Text
  pub ringing_leg_uuids : List Text

-- The legs of the user but the one that the agent talks on.
abbrev pub ringing_legs : Text → Option Text → Dict → List Text
ringing_legs target talking [] = []
ringing_legs target talking ((leg, w) ∷ legs) =
    if w == target && not (is talking leg)
    then leg ∷ ringing_legs target talking legs
    else ringing_legs target talking legs

-- The write of `failPendingTransfer`, undefined when somebody else has settled the transfer.
unfoldable pub fail_transfer : Text → CallState → CallStateChange (Option SettledTransfer)
fail_transfer target s =
    if s.ending || not (is s.pending_transfer_to_user_id target)
    then changed none s
    else changed
        (some (record {
          plan = plan_transfer_failure s;
          initiated_by = s.transfer_initiated_by;
          ringing_leg_uuids = ringing_legs target s.agent_leg_uuid s.agent_legs;
        }))
        (clear_transfer s)
