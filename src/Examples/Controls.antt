-- ===== src/Examples/Controls.antt =====
-- An agent's controls, and a hangup.
use iziphone.Prelude.{ℕ, ◌≡◌, ◌≢◌, none, some}
use iziphone.CallControl.{
  end_call as end_plan, refuse_hold, refuse_transfer, refuse_transfer_cancel,
}
use iziphone.CallControl.Rules.{IsNamed, IsOnCall, control_admission}
use iziphone.CallFlow.Transfers.{end_call}
use iziphone.Examples.Calls.{hands_over, leg_of_one, asked_by_one}

control_admission_example :
    let s = hands_over in
    let leg = leg_of_one in
    let r = asked_by_one in
    (refuse_hold s leg r ≡ none
      → IsOnCall s leg r × ((t : ℕ) → s.pending_transfer_to_user_id ≡ some t → t ≡ 0))
    × (IsOnCall s leg r
        → ((t : ℕ) → s.pending_transfer_to_user_id ≡ some t → t ≡ 0)
        → refuse_hold s leg r ≡ none)
    × (refuse_transfer s leg r 3 ≡ none → (refuse_hold s leg r ≡ none) × (3 ≢ r.user_id))
    × (refuse_transfer_cancel s leg r ≡ none
        → IsOnCall s leg r
          × IsNamed s.pending_transfer_to_user_id
          × (s.transfer_initiated_by ≡ some r.user_id))
    × (IsOnCall s leg r
        → IsNamed s.pending_transfer_to_user_id
        → s.transfer_initiated_by ≡ some r.user_id
        → refuse_transfer_cancel s leg r ≡ none)
control_admission_example = control_admission hands_over leg_of_one asked_by_one 3
