-- ===== src/Controller/Once/Life.antt =====
-- How often the start and the end of a call are reported over its life
-- (apps/call-controller/src/calls/call-flow.ts).
use iziphone.Prelude.{◌≤◌, false, none, some, List, [], ◌∷◌, ◌≡◌, ap, arith}
use iziphone.CallState.{CallState}
use iziphone.CallFlow.Writes.{Naming}
use iziphone.Controller.Actions.{Outside, World}
use iziphone.Controller.Actions.Reports.{
  IsLasting, Keeps, Spends, keeps_rules, Spends-bind, Keeps-pure, Spends-catch, ended_count,
  started_count, ended_left, started_left, ended_budget, started_budget,
}
use iziphone.Controller.Once.Teardown.{Keeps-end_the_call}
use iziphone.Controller.Once.Rings.{Keeps-forward_to_external_number, Keeps-dial_outside_number}
use iziphone.Controller.Once.Webhooks.{
  Keeps-handle_conference_event, Keeps-handle_call_status, Keeps-handle_recording_ready,
  Keeps-renew_call, Keeps-reconcile_legs,
}
use iziphone.Controller.Once.Beginnings.{Spends-start_outbound_call, Spends-accept_inbound_call}
use iziphone.Controller.Once.Requests.{
  Keeps-hold_call, Keeps-transfer_call, Keeps-cancel_transfer, Keeps-decline_offered_call,
}
use iziphone.Controller.Service.{
  Beginning, dialed, received, Occasion, conference_event, call_status, recording, asks_hold,
  asks_transfer, asks_cancel, asks_end, asks_decline, renewal, reconciliation, forwarding, dialing,
  begin, handle, serve, live_call,
}

module _ {o : Outside} (lasting : IsLasting o) where
  Keeps-handle : (x : Occasion) → Keeps (handle o x)
  unfolding handle
  Keeps-handle (conference_event notice) = Keeps-handle_conference_event lasting notice
  Keeps-handle (call_status notice) = Keeps-handle_call_status lasting notice
  Keeps-handle (recording context) = Keeps-handle_recording_ready lasting context
  Keeps-handle (asks_hold r hold) = search (keeps_rules, Keeps-hold_call)
  Keeps-handle (asks_transfer r target) = search (keeps_rules, Keeps-transfer_call)
  Keeps-handle (asks_cancel r) = search (keeps_rules, Keeps-cancel_transfer)
  Keeps-handle (asks_end by) = search (keeps_rules, Keeps-end_the_call)
  Keeps-handle (asks_decline u) = Keeps-decline_offered_call lasting u
  Keeps-handle renewal = Keeps-renew_call lasting
  Keeps-handle (reconciliation legs) = Keeps-reconcile_legs lasting legs
  Keeps-handle (forwarding number) = Keeps-forward_to_external_number lasting number
  Keeps-handle (dialing number) = Keeps-dial_outside_number lasting number

  Keeps-serve : (xs : List Occasion) → Keeps (serve o xs)
  unfolding serve
  Keeps-serve [] = search keeps_rules
  Keeps-serve (x ∷ xs) =
      Spends-bind _ _ (Spends-catch _ _ (Keeps-handle x) (Keeps-pure tt)) (λ _. Keeps-serve xs)

  Spends-begin : (name : Naming) (b : Beginning) → Spends 1 1 (begin o name b)
  unfolding begin
  Spends-begin name (dialed call_sid from grant now) =
      Spends-bind _ _ (Spends-start_outbound_call lasting name call_sid from grant now)
        (λ _. Keeps-pure tt)
  Spends-begin name (received clock call_sid from to greeting instant routing) =
      Spends-bind _ _
        (Spends-accept_inbound_call lasting name clock call_sid from to greeting instant routing)
        (λ _. Keeps-pure tt)

  Spends-live_call :
      (name : Naming) (b : Beginning) (xs : List Occasion) → Spends 1 1 (live_call o name b xs)
  unfolding live_call
  Spends-live_call name b xs =
      Spends-bind _ _ (Spends-catch _ _ (Spends-begin name b) (Keeps-pure tt)) (λ _. Keeps-serve xs)

-- What is reported of a call, against what is stored of it.
pub record IsReportedOnce (w : World) : Type 0 where
  pub end_at_most_once : ended_count w.trace ≤ 1
  pub start_at_most_once : started_count w.trace ≤ 1
  pub no_end_while_stored : (s : CallState) → w.slot.stored ≡ some s → ended_count w.trace ≡ 0
  pub no_start_while_unanswered :
      (s : CallState) → w.slot.stored ≡ some s → s.answered ≡ false → started_count w.trace ≡ 0

IsReportedOnce-budget : (w : World) → ended_budget w ≤ 1 → started_budget w ≤ 1 → IsReportedOnce w
unfolding ended_budget started_budget
IsReportedOnce-budget w e s = record {
  end_at_most_once = omega arith;
  start_at_most_once = omega arith;
  no_end_while_stored = λ t h. let k = ap ended_left h in omega arith;
  no_start_while_unanswered = λ t h a. let k = ap started_left h in ground arith;
}

-- A call that is begun while nothing is stored or reported of it, and then goes through any list of
-- webhooks, requests, renewals and background work, whatever the outside answers, fails or throws and
-- however others change the call between the steps, as long as they neither bring a removed call back
-- nor take an answer back: its end is reported at most once and its start at most once; no end is
-- reported of a call that is still stored, and no start of one that is stored without an answer.
pub live_call-IsReportedOnce :
    (o : Outside) (name : Naming) (b : Beginning) (xs : List Occasion) (w : World)
    → IsLasting o
    → w.slot.stored ≡ none
    → w.trace ≡ []
    → IsReportedOnce (live_call o name b xs w).1
unfolding ended_budget started_budget ended_count started_count
live_call-IsReportedOnce o name b xs w lasting s t =
    let c = (Spends-live_call lasting name b xs).at w in
    let x = c.of_end in
    let y = c.of_start in
    let e = ap ended_count t in
    let f = ap started_count t in
    let g = ap ended_left s in
    let h = ap started_left s in IsReportedOnce-budget _ (omega arith) (omega arith)

-- Once a call is gone from the store, no list of webhooks, requests, renewals and background work reports
-- its start or its end again, as long as others do not bring it back.
pub serve_after_the_end :
    (o : Outside) (xs : List Occasion) (w : World)
    → IsLasting o
    → w.slot.stored ≡ none
    → let v = (serve o xs w).1 in
      (ended_count v.trace ≤ ended_count w.trace) × (started_count v.trace ≤ started_count w.trace)
unfolding ended_budget started_budget
serve_after_the_end o xs w lasting s =
    let c = (Keeps-serve lasting xs).at w in
    let x = c.of_end in
    let y = c.of_start in
    let g = ap ended_left s in let h = ap started_left s in (omega arith, omega arith)
