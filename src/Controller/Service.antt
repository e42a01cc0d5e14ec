-- ===== src/Controller/Service.antt =====
-- The life of a call at a controller (apps/call-controller/src/calls/call-flow.ts): how it begins, and
-- the webhooks, the requests and the background work that come to it, one after the other. What other
-- controllers do meanwhile is in what the outside answers.
use iziphone.Prelude.{ℕ, Bool, Option, List, [], ◌∷◌}
use iziphone.Domain.{Text}
use iziphone.CallControl.{CallControlRequest}
use iziphone.CallFlow.Writes.{Naming}
use iziphone.Routing.BusinessHours.{Clock}
use iziphone.Routing.InboundPlan.{CachedRouting}
use iziphone.Routing.OutboundGrant.{OutboundCallGrant, Caller}
use iziphone.Controller.Effects.{RecordingContext}
use iziphone.Controller.Actions.{Outside, Act, pure, ◌>>=◌, ◌>>◌, tolerate}
use iziphone.Controller.Teardown.{end_the_call}
use iziphone.Controller.Rings.{forward_to_external_number, dial_outside_number}
use iziphone.Controller.Webhooks.{
  ConferenceNotice, CallStatusNotice, LegStatus, handle_conference_event, handle_call_status,
  handle_recording_ready, renew_call, reconcile_legs,
}
use iziphone.Controller.Beginnings.{start_outbound_call, accept_inbound_call}
use iziphone.Controller.Requests.{hold_call, transfer_call, cancel_transfer, decline_offered_call}

-- What `startOutboundCall` and `acceptInboundCall` are called with.
pub data Beginning : Type 0 where
  dialed : Text → Option Caller → Option OutboundCallGrant → ℕ → Beginning
  received : Clock → Text → Text → Text → Option Text → ℕ → Option CachedRouting → Beginning

pub data Occasion : Type 0 where
  conference_event : ConferenceNotice → Occasion
  call_status : CallStatusNotice → Occasion
  recording : Option RecordingContext → Occasion
  asks_hold : CallControlRequest → Bool → Occasion
  asks_transfer : CallControlRequest → Text → Occasion
  asks_cancel : CallControlRequest → Occasion
  asks_end : Option Text → Occasion
  asks_decline : Text → Occasion
  renewal : Occasion
  reconciliation : List LegStatus → Occasion
  forwarding : Text → Occasion
  dialing : Text → Occasion

abbrev pub ignore : {A : Type 0} → A → Act (Unit {0})
ignore a = pure tt

module _ (o : Outside) where
  unfoldable pub begin : Naming → Beginning → Act (Unit {0})
  begin name (dialed call_sid from grant now) =
      start_outbound_call o name call_sid from grant now >>= ignore
  begin name (received clock call_sid from to greeting instant routing) =
      accept_inbound_call o name clock call_sid from to greeting instant routing >>= ignore

  unfoldable pub handle : Occasion → Act (Unit {0})
  handle (conference_event notice) = handle_conference_event o notice
  handle (call_status notice) = handle_call_status o notice
  handle (recording context) = handle_recording_ready o context
  handle (asks_hold r hold) = hold_call o r hold >>= ignore
  handle (asks_transfer r target) = transfer_call o r target >>= ignore
  handle (asks_cancel r) = cancel_transfer o r >>= ignore
  handle (asks_end by) = end_the_call o by >>= ignore
  handle (asks_decline u) = decline_offered_call o u
  handle renewal = renew_call o
  handle (reconciliation legs) = reconcile_legs o legs
  handle (forwarding number) = forward_to_external_number o number
  handle (dialing number) = dial_outside_number o number

  -- A handler that throws answers an error, and the next one is called all the same.
  unfoldable pub serve : List Occasion → Act (Unit {0})
  serve [] = pure tt
  serve (x ∷ xs) = tolerate (handle x) >> serve xs

  -- A call from its beginning on.
  unfoldable pub live_call : Naming → Beginning → List Occasion → Act (Unit {0})
  live_call name b xs = tolerate (begin name b) >> serve xs
