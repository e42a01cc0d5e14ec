-- ===== src/Examples/Lifetimes.antt =====
-- A call from its beginning to its end, at a controller where nothing fails.
use iziphone.Prelude.{
  ℕ, ◌&&◌, elem, lookup, ◌+◌, ◌≤◌, ◌≡◌, refl, none, some, true, false, List, [], ◌∷◌, arith,
}
use iziphone.Domain.{is, external, completed}
use iziphone.Controller.Effects.{ended}
use iziphone.Controller.Requests.{decline_offered_call}
use iziphone.Controller.Requests.Declined.{stopped, decline_offered_call_stops}
use iziphone.Controller.Actions.{Outside, World}
use iziphone.Controller.Actions.Reports.{IsLasting, ended_count, started_count}
use iziphone.Controller.Once.Life.{IsReportedOnce, live_call-IsReportedOnce, serve_after_the_end}
use iziphone.Controller.Service.{
  Beginning, dialed, Occasion, conference_event, dialing, asks_end, live_call, serve,
}
use iziphone.Controller.Webhooks.{ConferenceNotice, participant_join, participant_leave}
use iziphone.Routing.OutboundGrant.{OutboundCallGrant, client}
use iziphone.Examples.Numbers.{number}
use iziphone.Examples.Sorting.{sort_by}
use iziphone.Examples.Calls.{name_of, rings_two}

-- Everything works, and nobody else is there. A user's new leg is their number and 20, an outside
-- number's too, and every number is spelled as the same one.
abbrev calm : Outside
calm = record {
  others = λ n slot. slot;
  conflicts = λ n. false;
  fails = λ n. false;
  sort = sort_by;
  characters = λ t. number;
  text_of = λ cs. 31;
  offers = λ n users. record { offered = users; refused = [] };
  dials = λ n who. some (who + 20);
  conference_sid = λ n. some 900;
  holds = λ n hold. some hold;
  metadata = λ n leg. none;
  now = λ n. 90;
}

calm-IsLasting : IsLasting calm
calm-IsLasting = record {
  stays_gone = λ n slot. omega arith;
  stays_answered = λ n slot. omega arith;
}

abbrev empty_world : World
empty_world = record { step = 0; slot = record { stored = none; live = false }; trace = [] }

abbrev granted : OutboundCallGrant
granted = record {
  user_id = 1;
  to = 31;
  from_number = 601;
  department_id = some 7;
  department_name = some 8;
  created_at = 1000;
}

abbrev joins : ConferenceNotice
joins = record {
  conference_sid = some 900;
  event = participant_join;
  leg_uuid = some 51;
  participant = some (record { participant_type = external; participant_id = 31 });
  duration = none;
}

abbrev leaves : ConferenceNotice
leaves = record joins { event = participant_leave; duration = some 12 }

abbrev beginning : Beginning
beginning = dialed 21 (some (client 1)) (some granted) 2000

abbrev occasions : List Occasion
occasions =
    dialing 31
    ∷ conference_event joins
    ∷ conference_event joins
    ∷ conference_event leaves
    ∷ conference_event leaves
    ∷ asks_end (some 1)
    ∷ []

abbrev ended_world : World
ended_world = (live_call calm name_of beginning occasions empty_world).1

live_call-IsReportedOnce_example : IsReportedOnce ended_world
live_call-IsReportedOnce_example =
    live_call-IsReportedOnce calm name_of beginning occasions empty_world calm-IsLasting refl refl

-- The end was reported already.
abbrev reported_world : World
reported_world = record empty_world {
  step = 40;
  trace =
      ended (record {
        conversation_uuid = 21;
        duration = 12;
        status = completed;
        caller_leg_uuid = none;
        agent_leg_uuid = some 21;
        external_leg_uuid = none;
      })
      ∷ [];
}

serve_after_the_end_example :
    let v = (serve calm occasions reported_world).1 in
    (ended_count v.trace ≤ ended_count reported_world.trace)
    × (started_count v.trace ≤ started_count reported_world.trace)
serve_after_the_end_example = serve_after_the_end calm occasions reported_world calm-IsLasting refl

-- Two agents ring, and the second of them turns the call down.
abbrev ringing_world : World
ringing_world = record empty_world { slot = record { stored = some rings_two; live = true } }

decline_offered_call_stops_example :
    let v = (decline_offered_call calm 2 ringing_world).1 in
    (legs : List ℕ) × ((leg : ℕ)
      → elem leg legs
        ≡ (elem leg rings_two.pending_agent_leg_uuids && is (lookup leg rings_two.agent_legs) 2))
    × (v.slot ≡ ringing_world.slot)
    × (v.trace ≡ stopped 2 legs [])
decline_offered_call_stops_example =
    decline_offered_call_stops calm 2 rings_two ringing_world (λ n. refl) refl refl
