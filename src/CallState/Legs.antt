-- ===== src/CallState/Legs.antt =====
-- Forgetting a leg, against the list of the legs of a call (call-state.ts: `removeLeg`, `legUuidsOf`).
use iziphone.Prelude.{
  ℕ, Bool, not, ◌&&◌, ◌||◌, elem-append, elem-unique, ◌≡◌, refl, sym, ap, ◌∙◌, Option, none, some,
  List, [], ◌∷◌, ◌++◌, arith, ◌==◌, filter, elem, unique, Distinct, keys, filter-append,
  filter_comm, unique-filter, keys-erase, elem-filter, Distinct-unique,
}
use iziphone.Domain.{Text, is}
use iziphone.CallState.{CallState, leg_uuids_of, present_option, forget, remove_leg}

-- Everything but `leg`.
abbrev pub without : Text → List Text → List Text
without leg = filter (λ l. not (l == leg))

present_option-forget :
    (field : Option Text) (leg : Text)
    → present_option (forget field leg) ≡ without leg (present_option field)
present_option-forget none leg = refl
present_option-forget (some t) leg = ground arith

-- Forgetting a leg takes it, and nothing else, off the list of the call's legs, in order.
pub leg_uuids_of-remove_leg :
    (s : CallState) (leg : Text) → leg_uuids_of (remove_leg s leg) ≡ without leg (leg_uuids_of s)
unfolding leg_uuids_of remove_leg
leg_uuids_of-remove_leg s leg =
    rw
      (
        present_option-forget s.caller_leg_uuid leg,
        present_option-forget s.agent_leg_uuid leg,
        present_option-forget s.external_leg_uuid leg,
        keys-erase leg s.agent_legs,
        filter_comm (λ t. not (t == 0)) (λ l. not (l == leg)) (keys s.agent_legs),
        filter_comm (λ t. not (t == 0)) (λ l. not (l == leg)) s.pending_agent_leg_uuids,
      )
      (ap unique (
          ap (◌++◌ (without leg (present_option s.caller_leg_uuid))) (
            ap (◌++◌ (without leg (present_option s.agent_leg_uuid))) (
              ap (◌++◌ (without leg (present_option s.external_leg_uuid)))
                (sym (filter-append (λ l. not (l == leg)) _ _))
              ∙ sym (filter-append (λ l. not (l == leg)) _ _))
            ∙ sym (filter-append (λ l. not (l == leg)) _ _))
          ∙ sym (filter-append (λ l. not (l == leg)) _ _))
        ∙ unique-filter (λ l. not (l == leg)) _)

-- No leg is listed twice.
pub leg_uuids_of-Distinct : (s : CallState) → Distinct (leg_uuids_of s)
unfolding leg_uuids_of
leg_uuids_of-Distinct s = Distinct-unique _

pub elem-without :
    (x leg : Text) (xs : List Text) → elem x (without leg xs) ≡ (elem x xs && not (x == leg))
elem-without x leg xs = elem-filter (λ l. not (l == leg)) x xs

pub without_idem : (leg : Text) (xs : List Text) → without leg (without leg xs) ≡ without leg xs
without_idem leg [] = refl
without_idem leg (x ∷ xs) = ground (arith, without_idem leg xs)

-- A leg that was forgotten is not on the call.
pub elem-leg_uuids_of-remove_leg :
    (s : CallState) (x leg : Text)
    → elem x (leg_uuids_of (remove_leg s leg)) ≡ (elem x (leg_uuids_of s) && not (x == leg))
elem-leg_uuids_of-remove_leg s x leg =
    rw (leg_uuids_of-remove_leg s leg) (elem-without x leg (leg_uuids_of s))

-- The place in the queue has no part in the legs.
pub leg_uuids_of_queue :
    (s : CallState) (index : Option ℕ)
    → leg_uuids_of (record s { current_queue_index = index }) ≡ leg_uuids_of s
unfolding leg_uuids_of
leg_uuids_of_queue s index = refl

elem-present_option :
    (x : Text) (o : Option Text) → elem x (present_option o) ≡ (is o x && not (x == 0))
elem-present_option x none = refl
elem-present_option x (some t) = ground arith

-- What it is to be a leg of a call.
abbrev pub is_leg : CallState → Text → Bool
is_leg s x =
    not (x == 0)
    && (is s.caller_leg_uuid x
        || (is s.agent_leg_uuid x
            || (is s.external_leg_uuid x
                || (elem x (keys s.agent_legs) || elem x s.pending_agent_leg_uuids))))

spread_blank :
    (b c a e k p : Bool)
    → ((c && b) || ((a && b) || ((e && b) || ((k && b) || (p && b)))))
      ≡ (b && (c || (a || (e || (k || p)))))
spread_blank b c a e k p = ground arith

pub elem-leg_uuids_of : (s : CallState) (x : Text) → elem x (leg_uuids_of s) ≡ is_leg s x
unfolding leg_uuids_of
elem-leg_uuids_of s x =
    rw
      (
        elem-unique,
        elem-append,
        elem-append,
        elem-append,
        elem-append,
        elem-present_option x s.caller_leg_uuid,
        elem-present_option x s.agent_leg_uuid,
        elem-present_option x s.external_leg_uuid,
        elem-filter (λ t. not (t == 0)) x (keys s.agent_legs),
        elem-filter (λ t. not (t == 0)) x s.pending_agent_leg_uuids,
      )
      (spread_blank (not (x == 0)) (is s.caller_leg_uuid x) (is s.agent_leg_uuid x)
        (is s.external_leg_uuid x) (elem x (keys s.agent_legs)) (elem x s.pending_agent_leg_uuids))
