-- ===== src/Controller/Once/Legs.antt =====
-- A leg that joins or leaves reports a start or an end only with the change that makes it so
-- (apps/call-controller/src/calls/call-flow.ts).
use iziphone.Prelude.{
  ℕ, Bool, true, false, Option, none, some, List, ◌≡◌, refl, arith, if◌then◌else◌,
}
use iziphone.Domain.{Text, CallEndStatus, CallParticipantType, caller, agent, external}
use iziphone.CallState.{CallState, CallParticipant}
use iziphone.CallStore.{state_after}
use iziphone.ParticipantStatus.{ParticipantStatus, ended as ended_status}
use iziphone.CallFlow.Writes.{apply, agent_joins, external_joins, leg_ends}
use iziphone.CallFlow.Answers.{
  TransferHandover, AgentJoin, intruder, joined, decide_agent_joined, join_external,
}
use iziphone.CallFlow.LegEnds.{
  LegEndPlan, ignored, forgotten, ended, ring_next, to_voicemail, transfer_fell_through,
  decide_leg_ended,
}
use iziphone.Controller.Effects.{started}
use iziphone.Controller.Actions.{Outside, Act, pure, ◌>>=◌}
use iziphone.Controller.Actions.Reports.{
  IsLasting, Keeps, Spends, Saves, Spends-bind, Spends-emit, Keeps-pure, Keeps-hang_up_all,
  ended_count, started_count, keeps_rules,
}
use iziphone.Controller.Actions.Reports.Changes.{Affords, Affords-Keeps, Keeps-change, Spends-last}
use iziphone.Controller.Once.Writes.{write_rules, Saves-answer, Saves-removed, apply-Saves}
use iziphone.Controller.Once.Teardown.{
  Keeps-forget_legs, Spends-report_ended, Keeps-route_caller_to_voicemail,
}
use iziphone.Controller.Once.Transfers.{Keeps-complete_transfer, Keeps-fail_pending_transfer}
use iziphone.Controller.Once.Rings.{Keeps-ring_next_in_order}
use iziphone.Controller.Legs.{
  resolve_participant, publish_participant_status, started_event, start_if, complete_if,
  follow_joined, start_outbound, join_as, on_participant_joined, voicemail_unless, follow_leg_end,
  on_leg_ended,
}

module _ {o : Outside} (lasting : IsLasting o) where
  pub Keeps-resolve_participant :
      (s : CallState) (leg : Text) (p : Option CallParticipant)
      → Keeps (resolve_participant o s leg p)
  unfolding resolve_participant
  Keeps-resolve_participant s leg none = search keeps_rules
  Keeps-resolve_participant s leg (some p) = search keeps_rules

  pub Keeps-publish_participant_status :
      (s : CallState) (leg : Text) (p : CallParticipant) (status : ParticipantStatus) (d : Option ℕ)
      → Keeps (publish_participant_status o s leg p status d)
  unfolding publish_participant_status
  Keeps-publish_participant_status s leg p status d = search keeps_rules

  -- Joining ------------------------------------------------------------------

  Spends-start_if :
      (u leg : Text) (losing : List Text) (s : CallState)
      → Spends 0 1 (start_if o true u leg losing s)
  unfolding ended_count started_count
  Spends-start_if u leg losing s =
      Spends-bind _ _
        (Spends-emit o (started (started_event s (some u) (some leg) s.external_leg_uuid)))
        (λ _. Keeps-hang_up_all o losing)

  Keeps-complete_if :
      (conversation : Text) (transfer : Option TransferHandover)
      → Keeps (complete_if o conversation transfer)
  Keeps-complete_if conversation none = search keeps_rules
  Keeps-complete_if conversation (some transfer) = Keeps-complete_transfer lasting _ _

  abbrev is_first : AgentJoin → Bool
  is_first intruder = false
  is_first (joined first losing transfer) = first

  Saves-first :
      (u leg : Text) (s : CallState)
      → is_first (decide_agent_joined u leg s).result ≡ true
      → Saves 0 1 s (state_after s (decide_agent_joined u leg s))
  unfolding decide_agent_joined
  Saves-first u leg s h = Saves-answer s (decide_agent_joined u leg s) (ground arith) (ground arith)

  Affords-follow_joined :
      (u leg : Text) (s : CallState) (join : AgentJoin) (after : Option CallState)
      → Saves 0 0 s after
      → (is_first join ≡ true → Saves 0 1 s after)
      → Affords s after (follow_joined o u leg join after)
  Affords-follow_joined u leg s join none h k = Affords-Keeps h (Keeps-pure tt)
  Affords-follow_joined u leg s intruder (some t) h k = Affords-Keeps h (search keeps_rules)
  Affords-follow_joined u leg s (joined true losing transfer) (some t) h k = record {
    ends = 0;
    starts = 1;
    saves = k refl;
    spends = Spends-bind _ _ (Spends-start_if u leg losing t) (λ _. Keeps-complete_if _ transfer);
  }
  Affords-follow_joined u leg s (joined false losing transfer) (some t) h k =
      Affords-Keeps h (search (keeps_rules, Keeps-complete_if))

  Spends-start_outbound :
      (leg : Text) (t : CallState) → Spends 0 1 (start_outbound o leg true (some t))
  unfolding ended_count started_count
  Spends-start_outbound leg t = Spends-emit o _

  Affords-start_outbound :
      (leg : Text) (s : CallState) (first : Bool) (after : Option CallState)
      → Saves 0 0 s after
      → (first ≡ true → Saves 0 1 s after)
      → Affords s after (start_outbound o leg first after)
  Affords-start_outbound leg s first none h k = Affords-Keeps h (Keeps-pure tt)
  Affords-start_outbound leg s true (some t) h k = record {
    ends = 0;
    starts = 1;
    saves = k refl;
    spends = Spends-start_outbound leg t;
  }
  Affords-start_outbound leg s false (some t) h k = Affords-Keeps h (Keeps-pure tt)

  Saves-external :
      (leg : Text) (s : CallState)
      → (join_external leg s).result ≡ true
      → Saves 0 1 s (state_after s (join_external leg s))
  unfolding join_external
  Saves-external leg s h = Saves-answer s (join_external leg s) (ground arith) refl

  Keeps-join_as : (t : CallParticipantType) (id leg : Text) → Keeps (join_as o t id leg)
  unfolding apply
  Keeps-join_as caller id leg = search (keeps_rules, write_rules)
  Keeps-join_as agent id leg =
      Keeps-change o lasting (decide_agent_joined id leg) _ (Keeps-pure tt) (λ s.
        Affords-follow_joined id leg s _ _ (apply-Saves (agent_joins id leg) s)
          (Saves-first id leg s))
  Keeps-join_as external id leg = Keeps-change o lasting (join_external leg) _ (Keeps-pure tt) (λ s.
      Affords-start_outbound leg s _ _ (apply-Saves (external_joins leg) s) (Saves-external leg s))

  pub Keeps-on_participant_joined :
      (p : CallParticipant) (leg : Text) → Keeps (on_participant_joined o p leg)
  unfolding on_participant_joined
  Keeps-on_participant_joined p leg = Keeps-join_as p.participant_type p.participant_id leg

  -- Leaving ------------------------------------------------------------------

  Keeps-voicemail_unless : (rung : Bool) → Keeps (voicemail_unless o rung)
  Keeps-voicemail_unless rung = search (keeps_rules, Keeps-route_caller_to_voicemail)

  abbrev is_end : LegEndPlan → Bool
  is_end (ended final legs) = true
  is_end _ = false

  is_end-remove :
      (p : CallParticipant) (leg : Text) (status : CallEndStatus) (s : CallState)
      → is_end (decide_leg_ended p leg status s).result ≡ true
      → (decide_leg_ended p leg status s).remove ≡ true
  unfolding decide_leg_ended
  is_end-remove p leg status s h = ground arith

  Affords-follow_leg_end :
      (s : CallState) (after : Option CallState) (m : Act (Unit {0})) (plan : LegEndPlan)
      (status : CallEndStatus) (duration : Option ℕ)
      → Keeps m
      → Saves 0 0 s after
      → (is_end plan ≡ true → Saves 1 0 s after)
      → Affords s after (m >>= λ _. follow_leg_end o plan status duration)
  Affords-follow_leg_end s after m ignored status duration km h k =
      Affords-Keeps h (search keeps_rules)
  Affords-follow_leg_end s after m forgotten status duration km h k =
      Affords-Keeps h (search keeps_rules)
  Affords-follow_leg_end s after m (ended final legs) status duration km h k = record {
    ends = 1;
    starts = 0;
    saves = k refl;
    spends = Spends-last _ m km (λ _.
        Spends-last _ _ (Keeps-hang_up_all o legs)
          (λ _. Spends-report_ended lasting final status _));
  }
  Affords-follow_leg_end s after m ring_next status duration km h k =
      Affords-Keeps h (search (keeps_rules, Keeps-ring_next_in_order, Keeps-voicemail_unless))
  Affords-follow_leg_end s after m (to_voicemail reason) status duration km h k =
      Affords-Keeps h (search (keeps_rules, Keeps-route_caller_to_voicemail))
  Affords-follow_leg_end s after m (transfer_fell_through target reason) status duration km h k =
      Affords-Keeps h (search (keeps_rules, Keeps-fail_pending_transfer))

  Affords-follow_end :
      (p : CallParticipant) (leg : Text) (status : CallEndStatus) (duration : Option ℕ)
      (before s : CallState) (plan : LegEndPlan) (after : Option CallState)
      → Saves 0 0 s after
      → (is_end plan ≡ true → Saves 1 0 s after)
      → (ig : Bool)
      → Affords s after (
          if ig
          then pure tt
          else publish_participant_status o before leg p (ended_status status) duration >>= λ _.
              follow_leg_end o plan status duration)
  Affords-follow_end p leg status duration before s plan after h k true =
      Affords-Keeps h (Keeps-pure tt)
  Affords-follow_end p leg status duration before s plan after h k false =
      Affords-follow_leg_end s after _ plan status duration
        (Keeps-publish_participant_status before leg p (ended_status status) duration) h k

  pub Keeps-on_leg_ended :
      (p : CallParticipant) (leg : Text) (status : CallEndStatus) (duration : Option ℕ)
      → Keeps (on_leg_ended o p leg status duration)
  unfolding on_leg_ended apply
  Keeps-on_leg_ended p leg status duration = Spends-bind _ _ (Keeps-forget_legs lasting _) (λ _.
      Keeps-change o lasting (decide_leg_ended p leg status) _ (Keeps-pure tt) (λ s.
        Affords-follow_end p leg status duration s s _ _ (apply-Saves (leg_ends p leg status) s)
          (λ e. Saves-removed s (decide_leg_ended p leg status s) (is_end-remove p leg status s e))
          _))
