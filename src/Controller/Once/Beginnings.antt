-- ===== src/Controller/Once/Beginnings.antt =====
-- A new call brings one report of its start and one of its end
-- (apps/call-controller/src/calls/call-flow.ts).
use iziphone.Prelude.{ℕ, Bool, true, false, Option, none, some, List, [], ◌∷◌, arith}
use iziphone.Domain.{Text, OpenHoursRoutingType, simultaneous, fixed_order}
use iziphone.CallState.{CallState}
use iziphone.CallStore.{create_call_state}
use iziphone.CallFlow.Writes.{Naming}
use iziphone.Routing.BusinessHours.{Clock}
use iziphone.Routing.InboundPlan.{
  CachedRouting, InboundCallPlan, to_voicemail, forward, ring, VoicemailReason,
}
use iziphone.Routing.OutboundGrant.{
  OutboundCallGrant, Caller, OutboundCallAdmission, not_admitted, admitted,
}
use iziphone.Controller.Actions.{Outside, World, found, past}
use iziphone.Controller.Actions.Reports.{
  IsLasting, Keeps, Spends, Costs, keeps_rules, Spends-bind, Spends-weaken, Spends-catch,
  Keeps-pure, Costs-if, Costs-weaken, Costs-past, ended_budget, started_budget,
}
use iziphone.Controller.Actions.Reports.Changes.{Spends-last}
use iziphone.Controller.Once.Teardown.{Keeps-voicemail_instead_of_ringing}
use iziphone.Controller.Once.Rings.{Keeps-ring_all_at_once, Keeps-ring_next_in_order}
use iziphone.Controller.Beginnings.{
  store_call, list_call, create_call, place, start_outbound_call, announce, answer_ring,
  is_some_user, ring_by, follow_inbound_plan, accept, accept_inbound_call,
}

module _ {o : Outside} (lasting : IsLasting o) where
  Costs-create :
      (s : CallState) (w : World)
      → Costs 1 1 w (record (past o w) {
        slot = record (create_call_state s (found o w)).1 { live = (found o w).live };
      })
  unfolding create_call_state ended_budget started_budget
  Costs-create s w = record { of_end = ground arith; of_start = ground arith }

  Spends-store_call : (s : CallState) → Spends 1 1 (store_call o s)
  unfolding store_call
  Spends-store_call s = record {
    at = λ w.
        Costs-if o (o.fails w.step) _ _ (Costs-weaken (Costs-past lasting w)) (Costs-create s w);
  }

  Costs-list :
      (w : World)
      → Costs 0 0 w (past o w)
      → Costs 0 0 w (record (past o w) { slot = record (found o w) { live = true } })
  unfolding ended_budget started_budget
  Costs-list w c = record { of_end = c.of_end; of_start = c.of_start }

  Keeps-list_call : Keeps (list_call o)
  unfolding list_call
  Keeps-list_call = record {
    at = λ w.
        Costs-if o (o.fails w.step) _ _ (Costs-past lasting w)
          (Costs-list w (Costs-past lasting w));
  }

  Spends-create_call : (s : CallState) → Spends 1 1 (create_call o s)
  unfolding create_call
  Spends-create_call s = Spends-bind _ _ (Spends-store_call s) (λ _. Keeps-list_call)

  Spends-place :
      (name : Naming) (call_sid : Text) (x : OutboundCallAdmission)
      → Spends 1 1 (place o name call_sid x)
  Spends-place name call_sid (not_admitted reason) = Spends-weaken (Keeps-pure _)
  Spends-place name call_sid (admitted grant) =
      Spends-bind _ _
        (Spends-bind _ _
          (Spends-bind _ _
            (Spends-bind _ _
              (Spends-last _ _ (search keeps_rules) (λ _.
                Spends-last _ _ (search keeps_rules)
                  (λ now. Spends-catch _ _ (Spends-create_call _) (search keeps_rules))))
              (λ _. search keeps_rules))
            (λ _. search keeps_rules))
          (λ _. search keeps_rules))
        (λ _. search keeps_rules)

  pub Spends-start_outbound_call :
      (name : Naming) (call_sid : Text) (from : Option Caller) (grant : Option OutboundCallGrant)
      (now : ℕ)
      → Spends 1 1 (start_outbound_call o name call_sid from grant now)
  unfolding start_outbound_call
  Spends-start_outbound_call name call_sid from grant now = Spends-place name call_sid _

  Spends-announce : (s : CallState) → Spends 1 1 (announce o s)
  Spends-announce s =
      Spends-bind _ _ (Spends-bind _ _ (Spends-create_call s) (λ _. search keeps_rules))
        (λ _. search keeps_rules)

  Keeps-answer_ring :
      (s : CallState) (reason : VoicemailReason) (rung : Bool) → Keeps (answer_ring o s reason rung)
  Keeps-answer_ring s reason true = search keeps_rules
  Keeps-answer_ring s reason false = search (keeps_rules, Keeps-voicemail_instead_of_ringing)

  Keeps-is_some_user : (users : List Text) → Keeps (is_some_user o users)
  Keeps-is_some_user [] = search keeps_rules
  Keeps-is_some_user (u ∷ users) = search keeps_rules

  Keeps-ring_by : (r : OpenHoursRoutingType) (users : List Text) → Keeps (ring_by o r users)
  Keeps-ring_by fixed_order users = Keeps-ring_next_in_order lasting
  Keeps-ring_by simultaneous users =
      search (keeps_rules, Keeps-ring_all_at_once, Keeps-is_some_user)

  Keeps-follow_inbound_plan :
      (s : CallState) (plan : InboundCallPlan) → Keeps (follow_inbound_plan o s plan)
  Keeps-follow_inbound_plan s (to_voicemail reason) =
      search (keeps_rules, Keeps-voicemail_instead_of_ringing)
  Keeps-follow_inbound_plan s (forward number duration) = search keeps_rules
  Keeps-follow_inbound_plan s (ring plan) = search (keeps_rules, Keeps-ring_by, Keeps-answer_ring)

  Spends-accept :
      (name : Naming) (clock : Clock) (call_sid from to : Text) (greeting : Option Text)
      (instant : ℕ) (routing : Option CachedRouting) (now : Text)
      → Spends 1 1 (accept o name clock call_sid from to greeting instant routing now)
  Spends-accept name clock call_sid from to greeting instant none now =
      Spends-bind _ _ (Spends-announce _) (λ _. search keeps_rules)
  Spends-accept name clock call_sid from to greeting instant (some routing) now =
      Spends-bind _ _ (Spends-announce _) (λ _. Keeps-follow_inbound_plan _ _)

  pub Spends-accept_inbound_call :
      (name : Naming) (clock : Clock) (call_sid from to : Text) (greeting : Option Text)
      (instant : ℕ) (routing : Option CachedRouting)
      → Spends 1 1 (accept_inbound_call o name clock call_sid from to greeting instant routing)
  unfolding accept_inbound_call
  Spends-accept_inbound_call name clock call_sid from to greeting instant routing =
      Spends-last _ _ (search keeps_rules)
        (λ now. Spends-accept name clock call_sid from to greeting instant routing now)
