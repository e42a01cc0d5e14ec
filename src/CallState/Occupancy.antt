-- ===== src/CallState/Occupancy.antt =====
-- Whom a call occupies, user by user, and whom a change lets go (call-state.ts: `occupantsOf`,
-- `usersLetGo`).
use iziphone.Prelude.{
  Bool, true, false, not, ◌&&◌, ◌||◌, ◌≡◌, refl, Option, none, some, List, [], ◌∷◌, ◌++◌, arith,
  ◌==◌, if◌then◌else◌, filter, elem, any, unique, Distinct, Dict, keys, lookup, erase, elem-append,
  elem-filter, elem-unique, Distinct-unique, Distinct-filter, lookup-erase,
}
use iziphone.Domain.{Text, is, truthy}
use iziphone.CallState.{
  CallState, occupants_of, occupants_after, legs_after, users_where, users_of_legs,
  users_losing_leg, users_let_go, present, present_option, remove_leg,
}

-- The user has a leg among the entries that satisfies `p`.
abbrev pub has_leg_where : Text → (Text → Bool) → Dict → Bool
has_leg_where u p [] = false
has_leg_where u p ((leg, w) ∷ legs) = (p leg && (u == w)) || has_leg_where u p legs

-- One of the listed legs is the user's.
abbrev pub is_rung : Text → Dict → List Text → Bool
is_rung u legs pending = any (λ leg. is (lookup leg legs) u) pending

-- The user's leg joined the call: it is recorded, and no longer ringing.
abbrev pub has_joined : CallState → Text → Bool
has_joined s u = has_leg_where u (λ leg. not (elem leg s.pending_agent_leg_uuids)) s.agent_legs

-- What it is to be occupied by a call, for one user.
abbrev pub is_occupied : CallState → Text → Bool
is_occupied s u =
    not s.voicemail
    && (not (u == 0)
        && ((truthy s.agent_leg_uuid && is s.active_agent_user_id u)
            || (has_joined s u
                || ((not s.answered && is_rung u s.agent_legs s.pending_agent_leg_uuids)
                    || is s.pending_transfer_to_user_id u))))

elem-users_where :
    (u : Text) (p : Text → Bool) (d : Dict) → elem u (users_where p d) ≡ has_leg_where u p d
elem-users_where u p [] = refl
elem-users_where u p ((leg, w) ∷ d) = ground (arith, elem-users_where u p d)

elem-present_option :
    (u : Text) (o : Option Text) → elem u (present_option o) ≡ (is o u && not (u == 0))
elem-present_option u none = refl
elem-present_option u (some t) = ground arith

elem-users_of_legs :
    (u : Text) (d : Dict) (pending : List Text)
    → elem u (users_of_legs d pending) ≡ (is_rung u d pending && not (u == 0))
elem-users_of_legs u d [] = refl
elem-users_of_legs u d (leg ∷ pending) = ground (
  arith,
  elem-append u (present_option (lookup leg d)) (users_of_legs d pending),
  elem-present_option u (lookup leg d),
  elem-users_of_legs u d pending,
)

elem-talking :
    (s : CallState) (u : Text)
    → elem u (present_option (if truthy s.agent_leg_uuid then s.active_agent_user_id else none))
      ≡ (truthy s.agent_leg_uuid && (is s.active_agent_user_id u && not (u == 0)))
elem-talking s u = ground (arith, elem-present_option u s.active_agent_user_id)

elem-ringing :
    (s : CallState) (u : Text)
    → elem u (if s.answered then [] else users_of_legs s.agent_legs s.pending_agent_leg_uuids)
      ≡ (not s.answered && (is_rung u s.agent_legs s.pending_agent_leg_uuids && not (u == 0)))
elem-ringing s u = ground (arith, elem-users_of_legs u s.agent_legs s.pending_agent_leg_uuids)

elem-joined :
    (s : CallState) (u : Text)
    → elem u (present (users_where (λ leg. not (elem leg s.pending_agent_leg_uuids)) s.agent_legs))
      ≡ (has_joined s u && not (u == 0))
elem-joined s u = ground (
  arith,
  elem-filter (λ t. not (t == 0)) u
      (users_where (λ leg. not (elem leg s.pending_agent_leg_uuids)) s.agent_legs),
  elem-users_where u (λ leg. not (elem leg s.pending_agent_leg_uuids)) s.agent_legs,
)

spread_blank :
    (v b t j r p : Bool)
    → (if v then false else ((t && b) || ((j && b) || ((r && b) || (p && b)))))
      ≡ (not v && (b && (t || (j || (r || p)))))
spread_blank v b t j r p = ground arith

and_assoc : (a b c : Bool) → (a && (b && c)) ≡ ((a && b) && c)
and_assoc a b c = ground arith

elem-if :
    (u : Text) (b : Bool) (xs : List Text)
    → elem u (if b then [] else xs) ≡ (if b then false else elem u xs)
elem-if u true xs = refl
elem-if u false xs = refl

-- A user is among the occupants exactly when the call occupies them.
pub elem-occupants_of : (s : CallState) (u : Text) → elem u (occupants_of s) ≡ is_occupied s u
unfolding occupants_of
elem-occupants_of s u =
    rw
      (
        elem-if u s.voicemail,
        elem-unique,
        elem-append,
        elem-append,
        elem-append,
        elem-talking s u,
        elem-joined s u,
        elem-ringing s u,
        elem-present_option u s.pending_transfer_to_user_id,
        and_assoc (truthy s.agent_leg_uuid),
        and_assoc (not s.answered),
      )
      (spread_blank s.voicemail (not (u == 0))
        (truthy s.agent_leg_uuid && is s.active_agent_user_id u) (has_joined s u)
        (not s.answered && is_rung u s.agent_legs s.pending_agent_leg_uuids)
        (is s.pending_transfer_to_user_id u))

abbrev pub is_occupied_after : Option CallState → Text → Bool
is_occupied_after none u = false
is_occupied_after (some s) u = is_occupied s u

-- The user had a leg before the change that is gone after it.
abbrev pub lost_leg : CallState → Option CallState → Text → Bool
lost_leg before after u =
    has_leg_where u (λ leg. not (elem leg (keys (legs_after after)))) before.agent_legs

elem-occupants_after :
    (after : Option CallState) (u : Text)
    → elem u (occupants_after after) ≡ is_occupied_after after u
elem-occupants_after none u = refl
elem-occupants_after (some s) u = elem-occupants_of s u

-- A change lets go exactly the users that the call occupied before it, or that lost a leg by it, and
-- that it does not occupy afterwards.
pub elem-users_let_go :
    (before : CallState) (after : Option CallState) (u : Text)
    → elem u (users_let_go before after)
      ≡ ((is_occupied before u || lost_leg before after u) && not (is_occupied_after after u))
unfolding users_let_go
elem-users_let_go before after u = rw (
  elem-filter,
  elem-unique,
  elem-append,
  elem-occupants_of before u,
  elem-users_where,
  elem-occupants_after after u,
)

-- Nobody is let go twice by one change.
pub users_let_go-Distinct :
    (before : CallState) (after : Option CallState) → Distinct (users_let_go before after)
unfolding users_let_go
users_let_go-Distinct before after =
    Distinct-filter (λ u. not (elem u (occupants_after after)))
      (unique (occupants_of before ++ users_losing_leg before after))
      (Distinct-unique (occupants_of before ++ users_losing_leg before after))

has_leg_where-erase :
    (u leg : Text) (pending : List Text) (d : Dict)
    → has_leg_where u (λ l. not (elem l (filter (λ p. not (p == leg)) pending))) (erase leg d)
      ≡ true
    → has_leg_where u (λ l. not (elem l pending)) d ≡ true
has_leg_where-erase u leg pending [] h = h
has_leg_where-erase u leg pending ((l, w) ∷ d) h =
    ground (arith, has_leg_where-erase u leg pending d, elem-filter (λ p. not (p == leg)) l pending)

is_rung-erase :
    (u leg : Text) (d : Dict) (pending : List Text)
    → is_rung u (erase leg d) (filter (λ p. not (p == leg)) pending) ≡ true
    → is_rung u d pending ≡ true
is_rung-erase u leg d [] h = h
is_rung-erase u leg d (p ∷ pending) h =
    ground (arith, is_rung-erase u leg d pending, lookup-erase p leg d)

-- Forgetting a leg occupies nobody who was not occupied before.
pub is_occupied-remove_leg :
    (s : CallState) (leg u : Text)
    → is_occupied (remove_leg s leg) u ≡ true
    → is_occupied s u ≡ true
unfolding remove_leg
is_occupied-remove_leg s leg u h = ground (
  arith,
  has_leg_where-erase u leg s.pending_agent_leg_uuids s.agent_legs,
  is_rung-erase u leg s.agent_legs s.pending_agent_leg_uuids,
)
