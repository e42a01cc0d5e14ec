-- ===== src/Controller/Requests/Declined.antt =====
-- What turning down an offered call does (apps/call-controller/src/calls/call-flow.ts:
-- `declineOfferedCall`).
use iziphone.Prelude.{
  ℕ, suc, ◌≡◌, refl, sym, Bool, true, false, Option, some, List, [], ◌∷◌, if◌then◌else◌, arith,
  ◌&&◌, elem, elem-filter, lookup,
}
use mathlib.Core.Path.{subst}
use iziphone.Domain.{Text, is}
use iziphone.CallState.{CallState}
use iziphone.Controller.Effects.{Effect, hangs_up, lets_go}
use iziphone.Controller.Actions.{
  Outside, World, Act, pure, ◌>>=◌, catch, get_call, emit, hang_up, hang_up_all, let_go, found,
  past,
}
use iziphone.Controller.Requests.{rings_of, stop_rings, decline_on, decline_offered_call}

-- The trace, once the legs are hung up in order.
abbrev pub hung_up : List Text → List Effect → List Effect
hung_up [] trace = trace
hung_up (leg ∷ legs) trace = hung_up legs (hangs_up leg ∷ trace)

-- The trace, once the rings of a user are stopped and the user is let go, if there were any.
abbrev pub stopped : Text → List Text → List Effect → List Effect
stopped u [] trace = trace
stopped u (leg ∷ legs) trace = lets_go (u ∷ []) ∷ hung_up (leg ∷ legs) trace

record Left (w v : World) (trace : List Effect) : Type 0 where
  same_slot : v.slot ≡ w.slot
  leaves : v.trace ≡ trace

module _ (o : Outside) (calm : (n : ℕ) → o.fails n ≡ false) where
  let_go_after :
      (u : Text) (legs : List Text) (w : World)
      → Left w
          ((hang_up_all o legs >>= λ _. let_go o (u ∷ [])) w).1
          (lets_go (u ∷ []) ∷ hung_up legs w.trace)
  unfolding hang_up_all hang_up let_go emit catch ◌>>=◌ pure
  let_go_after u [] w = ground (arith, calm w.step)
  let_go_after u (leg ∷ legs) w =
      let s =
        let_go_after u legs (record w { step = suc w.step; trace = hangs_up leg ∷ w.trace }) in
      record { same_slot = s.same_slot; leaves = s.leaves }

  stop_rings-Left :
      (u : Text) (legs : List Text) (w : World)
      → Left w (stop_rings o u legs w).1 (stopped u legs w.trace)
  unfolding pure
  stop_rings-Left u [] w = record { same_slot = refl; leaves = refl }
  stop_rings-Left u (leg ∷ legs) w = let_go_after u (leg ∷ legs) w

  unless_answered :
      (u : Text) (legs : List Text) (w : World) (c : Bool)
      → Left w
          ((if c then pure tt else stop_rings o u legs) w).1
          (if c then w.trace else stopped u legs w.trace)
  unfolding pure
  unless_answered u legs w true = record { same_slot = refl; leaves = refl }
  unless_answered u legs w false = stop_rings-Left u legs w

  otherwise :
      (b : Bool) (m n : Act (Unit {0})) (w : World) (trace : List Effect)
      → b ≡ false
      → Left w (n w).1 trace
      → Left w ((if b then m else n) w).1 trace
  otherwise true m n w trace h l = cc
  otherwise false m n w trace h l = l

  decline_on-Left :
      (u : Text) (s : CallState) (w : World)
      → is s.pending_transfer_to_user_id u ≡ false
      → Left w
          (decline_on o u (some s) w).1
          (if s.answered then w.trace else stopped u (rings_of o s u) w.trace)
  decline_on-Left u s w n =
      otherwise (is s.pending_transfer_to_user_id u) _ _ w _ n
        (unless_answered u (rings_of o s u) w s.answered)

  follow_state :
      (u : Text) (s : CallState) (w : World) (st : Option CallState)
      → st ≡ some s
      → is s.pending_transfer_to_user_id u ≡ false
      → Left w
          (decline_on o u st w).1
          (if s.answered then w.trace else stopped u (rings_of o s u) w.trace)
  follow_state u s w st e n =
      subst
        (λ x.
          Left w (decline_on o u x w).1
            (if s.answered then w.trace else stopped u (rings_of o s u) w.trace))
        (sym e) (decline_on-Left u s w n)

-- Turning down a call changes nothing of the call, and stops nobody else's ring: a user whom no transfer is
-- pending to, and whose request no publication fails, leaves the call as it is found; an answered call
-- goes on untouched, and of any other, the legs that ring and are recorded as this user's, and no other
-- leg, are hung up, and after them the user alone is let go, if there was such a leg.
pub decline_offered_call_stops :
    (o : Outside) (u : Text) (s : CallState) (w : World)
    → ((n : ℕ) → o.fails n ≡ false)
    → (found o w).stored ≡ some s
    → is s.pending_transfer_to_user_id u ≡ false
    → let v = (decline_offered_call o u w).1 in
      (legs : List Text) × ((leg : Text)
        → elem leg legs ≡ (elem leg s.pending_agent_leg_uuids && is (lookup leg s.agent_legs) u))
      × (v.slot ≡ found o w)
      × (v.trace ≡ (if s.answered then w.trace else stopped u legs w.trace))
unfolding decline_offered_call get_call ◌>>=◌
decline_offered_call_stops o u s w calm e n =
    let l = follow_state o calm u s (past o w) (found o w).stored e n in
    (
      rings_of o s u,
      λ leg. elem-filter (λ leg. is (lookup leg s.agent_legs) u) leg s.pending_agent_leg_uuids,
      l.same_slot,
      l.leaves,
    )
