-- ===== src/CallFlow/Answers/Winners.antt =====
-- First answers and repeated joins (call-flow.ts: `decideAgentJoined`; call-state.ts: `usersLetGo`).
use iziphone.Prelude.{
  Bool, true, false, not, ◌&&◌, ◌||◌, ◌≡◌, ◌≢◌, refl, ◌∙◌, none, some, List, [], ◌∷◌, arith, ◌==◌,
  if◌then◌else◌, filter, elem, Dict, elem-filter,
}
use iziphone.Domain.{Text, is, truthy, inbound}
use iziphone.CallState.{CallState, users_let_go}
use iziphone.CallState.Occupancy.{
  has_leg_where, has_joined, is_occupied, lost_leg, elem-users_let_go,
}
use iziphone.CallFlow.Transfers.{changed}
use iziphone.CallFlow.Answers.{intruder, joined, decide_agent_joined, is_intruder}

filter_idem :
    (leg : Text) (xs : List Text)
    → filter (λ p. not (p == leg)) (filter (λ p. not (p == leg)) xs)
      ≡ filter (λ p. not (p == leg)) xs
filter_idem leg [] = refl
filter_idem leg (x ∷ xs) = ground (arith, filter_idem leg xs)

-- Twilio may deliver the join of a leg twice. The second delivery changes nothing: a leg that was
-- turned away as an intruder's is turned away again, and of any other the second join is no first
-- answer, stops no ring and completes no transfer. (Left out is a call with a transfer pending to
-- the one who joins that nobody is the agent of.)
pub decide_agent_joined_twice :
    (u leg : Text) (s : CallState)
    → (is s.pending_transfer_to_user_id u && not (truthy s.active_agent_user_id)) ≡ false
    → let t = (decide_agent_joined u leg s).draft in
      decide_agent_joined u leg t
      ≡ changed (if is_intruder s u then intruder else joined false [] none) t
unfolding decide_agent_joined
decide_agent_joined_twice u leg s p = ground (arith, filter_idem leg s.pending_agent_leg_uuids)

-- A leg that is not `leg` rings after it joined exactly as before.
has_leg_where-joined :
    (w leg : Text) (pending : List Text) (d : Dict)
    → has_leg_where w (λ l. not (elem l pending)) d ≡ false
    → has_leg_where w (λ l. l == leg) d ≡ false
    → has_leg_where w (λ l. not (elem l (filter (λ p. not (p == leg)) pending))) d ≡ false
has_leg_where-joined w leg pending [] h n = refl
has_leg_where-joined w leg pending ((l, v) ∷ d) h n =
    ground
      (arith, has_leg_where-joined w leg pending d, elem-filter (λ p. not (p == leg)) l pending)

first_answer_frees :
    (u leg w : Text) (s : CallState)
    → s.answered ≡ false
    → s.direction ≡ inbound
    → w ≢ u
    → has_joined s w ≡ false
    → has_leg_where w (λ l. l == leg) s.agent_legs ≡ false
    → is s.pending_transfer_to_user_id w ≡ false
    → is_occupied (decide_agent_joined u leg s).draft w ≡ false
unfolding decide_agent_joined
first_answer_frees u leg w s a d n j l p =
    ground (arith, has_leg_where-joined w leg s.pending_agent_leg_uuids s.agent_legs j l)

-- The first answer of an inbound call lets everybody else go: a user that the call occupied only by
-- ringing them, whose leg is not the one that answered, and whom no transfer is pending for, is among
-- the users that the write lets go.
pub first_answer_releases :
    (u leg w : Text) (s : CallState)
    → s.answered ≡ false
    → s.direction ≡ inbound
    → w ≢ u
    → is_occupied s w ≡ true
    → has_joined s w ≡ false
    → has_leg_where w (λ l. l == leg) s.agent_legs ≡ false
    → is s.pending_transfer_to_user_id w ≡ false
    → elem w (users_let_go s (some (decide_agent_joined u leg s).draft)) ≡ true
first_answer_releases u leg w s a d n o j l p =
    let t = (decide_agent_joined u leg s).draft in
    elem-users_let_go s (some t) w
    ∙ free (is_occupied s w) (lost_leg s (some t) w) (is_occupied t w) o
        (first_answer_frees u leg w s a d n j l p)
  where
    free : (o lost f : Bool) → o ≡ true → f ≡ false → ((o || lost) && not f) ≡ true
    free o lost f h g = ground arith
