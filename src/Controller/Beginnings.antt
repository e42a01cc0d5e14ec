-- ===== src/Controller/Beginnings.antt =====
-- How a call begins (apps/call-controller/src/calls/call-flow.ts: `startOutboundCall`,
-- `acceptInboundCall`).
use iziphone.Prelude.{ℕ, Bool, true, false, Option, none, some, List, [], ◌∷◌, if◌then◌else◌}
use iziphone.Domain.{
  Text, inbound, outbound, agent, caller, OpenHoursRoutingType, simultaneous, fixed_order,
}
use iziphone.CallState.{CallState}
use iziphone.CallStore.{create_call_state}
use iziphone.Routing.BusinessHours.{Clock}
use iziphone.Routing.InboundPlan.{
  CachedRouting, InboundCallPlan, to_voicemail, forward, ring, VoicemailReason, missing_routing,
  plan_inbound_call,
}
use iziphone.Routing.OutboundGrant.{
  OutboundCallGrant, Caller, OutboundCallAdmission, not_admitted, admitted, OutboundCallRefusal,
  admit_outbound_call,
}
use iziphone.CallFlow.Writes.{Naming, outbound_call, unrouted_call, routed_call}
use iziphone.Controller.Effects.{CallIncoming, incoming, occupies, tracks, describes}
use iziphone.Controller.Actions.{
  Outside, done, thrown, Act, pure, throw, ◌>>=◌, ◌>>◌, catch, found, past, ask_now, emit, let_go,
}
use iziphone.Controller.Teardown.{voicemail_instead_of_ringing}
use iziphone.Controller.Rings.{ring_all_at_once, ring_next_in_order}

-- What a leg is told to do.
pub data Answer : Type 0 where
  joins_conference : Answer
  leaves_voicemail : VoicemailReason → Answer
  is_refused : OutboundCallRefusal → Answer

abbrev pub outbound_event : Text → OutboundCallGrant → CallIncoming
outbound_event call_sid grant = record {
  conversation_uuid = call_sid;
  from = grant.from_number;
  to = grant.to;
  direction = outbound;
  caller_leg_uuid = none;
  agent_leg_uuid = some call_sid;
  department_id = grant.department_id;
  user_id = some grant.user_id;
}

abbrev pub inbound_event : Text → Text → Text → Option Text → Option Text → CallIncoming
inbound_event call_sid from to department user = record {
  conversation_uuid = call_sid;
  from = from;
  to = to;
  direction = inbound;
  caller_leg_uuid = some call_sid;
  agent_leg_uuid = none;
  department_id = department;
  user_id = user;
}

module _ (o : Outside) where
  -- The state is stored, and the call is not among the live ones for it.
  unfoldable pub store_call : CallState → Act (Unit {0})
  store_call s w = if o.fails w.step then (thrown, past o w) else (
    done tt,
    record (past o w) {
      slot = record (create_call_state s (found o w)).1 { live = (found o w).live };
    },
  )

  -- The call is put among the live ones.
  unfoldable pub list_call : Act (Unit {0})
  list_call w =
      if o.fails w.step
      then (thrown, past o w)
      else (done tt, record (past o w) { slot = record (found o w) { live = true } })

  -- `createCallState`, where either of its two writes may fail.
  unfoldable pub create_call : CallState → Act (Unit {0})
  create_call s = store_call s >> list_call

  abbrev pub place : Naming → Text → OutboundCallAdmission → Act Answer
  place name call_sid (not_admitted reason) = pure (is_refused reason)
  place name call_sid (admitted grant) =
      emit o (occupies (grant.user_id ∷ []))
      >> (ask_now o >>= λ now.
          catch (create_call (outbound_call name call_sid grant now))
            (let_go o (grant.user_id ∷ []) >> throw))
      >> emit o (
          describes call_sid (record {
            participant = record { participant_type = agent; participant_id = grant.user_id };
            conversation_uuid = call_sid;
          }))
      >> emit o (tracks (grant.user_id ∷ []))
      >> emit o (incoming (outbound_event call_sid grant))
      >> pure joins_conference

  -- `startOutboundCall`, with the grant that was taken for it; the outside number is dialed in the
  -- background.
  unfoldable pub start_outbound_call :
      Naming → Text → Option Caller → Option OutboundCallGrant → ℕ → Act Answer
  start_outbound_call name call_sid from grant now =
      place name call_sid (admit_outbound_call grant from now)

  -- The first state, the caller's leg and the event of an inbound call.
  abbrev pub announce : CallState → Act (Unit {0})
  announce s =
      create_call s
      >> emit o (
          describes s.conversation_uuid (record {
            participant = record { participant_type = caller; participant_id = s.from };
            conversation_uuid = s.conversation_uuid;
          }))
      >> emit o (
          incoming (inbound_event s.conversation_uuid s.from s.to s.department_id s.target_user_id))

  abbrev pub answer_ring : CallState → VoicemailReason → Bool → Act Answer
  answer_ring s reason true = pure joins_conference
  answer_ring s reason false = voicemail_instead_of_ringing o s >> pure (leaves_voicemail reason)

  abbrev pub is_some_user : List Text → Act Bool
  is_some_user [] = pure false
  is_some_user (u ∷ users) = pure true

  abbrev pub ring_by : OpenHoursRoutingType → List Text → Act Bool
  ring_by fixed_order users = ring_next_in_order o
  ring_by simultaneous users = ring_all_at_once o users >>= is_some_user

  abbrev pub follow_inbound_plan : CallState → InboundCallPlan → Act Answer
  follow_inbound_plan s (to_voicemail reason) =
      voicemail_instead_of_ringing o s >> pure (leaves_voicemail reason)
  follow_inbound_plan s (forward number duration) = pure joins_conference
  follow_inbound_plan s (ring plan) =
      ring_by plan.strategy plan.user_ids >>= answer_ring s plan.when_nobody_is_available

  abbrev pub accept_routed : CallState → InboundCallPlan → Act Answer
  accept_routed s plan = announce s >> follow_inbound_plan s plan

  abbrev pub accept :
      Naming
      → Clock
      → Text
      → Text
      → Text
      → Option Text
      → ℕ
      → Option CachedRouting
      → Text
      → Act Answer
  accept name clock call_sid from to greeting instant none now =
      announce (unrouted_call name call_sid from to now) >> pure (leaves_voicemail missing_routing)
  accept name clock call_sid from to greeting instant (some routing) now =
      let plan = plan_inbound_call o.sort clock routing instant in
      accept_routed (routed_call name call_sid from to now routing plan greeting) plan

  -- `acceptInboundCall`, with the routing entry of the number that was called and the greeting that can
  -- be played; a call to an outside number is forwarded in the background.
  unfoldable pub accept_inbound_call :
      Naming → Clock → Text → Text → Text → Option Text → ℕ → Option CachedRouting → Act Answer
  accept_inbound_call name clock call_sid from to greeting instant routing =
      ask_now o >>= accept name clock call_sid from to greeting instant routing
