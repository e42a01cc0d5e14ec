-- ===== src/Routing/InboundPlan/Order.antt =====
-- The order in which a department is rung (inbound-plan.ts: the sort of `planInboundCall`).
use iziphone.Prelude.{
  ℕ, Bool, true, ◌≤◌, ◌≡◌, ◌⊎◌, inl, inr, some, List, [], ◌∷◌, arith, Option-cases,
}
use mathlib.Core.List.{Perm}
use iziphone.Domain.{fixed_order}
use iziphone.Routing.BusinessHours.{
  Clock, CachedRoutingSettings, check_business_hours, BusinessHoursStatus, opened, outside_hours,
  on_holiday,
}
use iziphone.Routing.InboundPlan.{
  CachedRouting, RingPlan, ring, OrderedUser, Sort, by_order, user_ids_of, plan_at,
  plan_inbound_call,
}

-- One of two users may always stay before the other, and so may the first of three.
pub record IsOrder (before : OrderedUser → OrderedUser → Bool) : Type 0 where
  pub total : (u v : OrderedUser) → (before u v ≡ true) ⊎ (before v u ≡ true)
  pub transitive : (u v w : OrderedUser) → before u v ≡ true → before v w ≡ true → before u w ≡ true

abbrev pub AllAfter : (OrderedUser → OrderedUser → Bool) → OrderedUser → List OrderedUser → Type 0
AllAfter before u [] = Unit {0}
AllAfter before u (v ∷ vs) = (before u v ≡ true) × AllAfter before u vs

abbrev pub IsSortedBy : (OrderedUser → OrderedUser → Bool) → List OrderedUser → Type 0
IsSortedBy before [] = Unit {0}
IsSortedBy before (u ∷ us) = AllAfter before u us × IsSortedBy before us

-- The contract of the built-in sort: for a comparison that is an order, it holds the same elements, and
-- every one of them may stay before those that follow.
abbrev pub IsSort : Sort → Type 0
IsSort sort =
    (before : OrderedUser → OrderedUser → Bool) (us : List OrderedUser)
    → IsOrder before
    → Perm (sort before us) us × IsSortedBy before (sort before us)

-- No user has a lower order than one before them.
abbrev pub Least : OrderedUser → List OrderedUser → Type 0
Least u [] = Unit {0}
Least u (v ∷ vs) = (u.order ≤ v.order) × Least u vs

abbrev pub Rises : List OrderedUser → Type 0
Rises [] = Unit {0}
Rises (u ∷ us) = Least u us × Rises us

by_order-IsOrder : IsOrder by_order
by_order-IsOrder = record { total = λ u v. ground arith; transitive = λ u v w h k. ground arith }

AllAfter-Least : (u : OrderedUser) (us : List OrderedUser) → AllAfter by_order u us → Least u us
AllAfter-Least u [] a = tt
AllAfter-Least u (v ∷ us) a = (let b = a.0 in ground arith, AllAfter-Least u us a.1)

IsSortedBy-Rises : (us : List OrderedUser) → IsSortedBy by_order us → Rises us
IsSortedBy-Rises [] s = tt
IsSortedBy-Rises (u ∷ us) s = (AllAfter-Least u us s.0, IsSortedBy-Rises us s.1)

-- The plan rings the users one after the other only in the sorted order.
plan_at-fixed :
    (sort : Sort) (routing : CachedRouting) (settings : CachedRoutingSettings)
    (status : BusinessHoursStatus) (r : RingPlan) (users : List OrderedUser)
    → plan_at sort routing settings status ≡ ring r
    → r.strategy ≡ fixed_order
    → routing.ordered_users ≡ some users
    → r.user_ids ≡ user_ids_of (sort by_order users)
plan_at-fixed sort routing settings opened r users e s o = ground arith
plan_at-fixed sort routing settings outside_hours r users e s o = absurd (ground arith)
plan_at-fixed sort routing settings (on_holiday h) r users e s o = absurd (ground arith)

plan_inbound_call-fixed :
    (sort : Sort) (clock : Clock) (routing : CachedRouting) (now : ℕ) (r : RingPlan)
    (users : List OrderedUser)
    → plan_inbound_call sort clock routing now ≡ ring r
    → r.strategy ≡ fixed_order
    → routing.ordered_users ≡ some users
    → r.user_ids ≡ user_ids_of (sort by_order users)
unfolding plan_inbound_call
plan_inbound_call-fixed sort clock routing now r users e s o =
    elim (Option-cases routing.settings) [
      | inl n ↦ absurd (ground arith)
      | inr (settings, n) ↦ ground (
        arith,
        plan_at-fixed sort routing settings (check_business_hours clock settings now) r users,
      )
    ]

-- Whenever a plan rings people one after the other, and the number has an order of its users, it rings
-- just these users, each as often as the order names them, and by rising order: nobody is rung after
-- somebody of a higher order. (The built-in sort is taken to sort by any comparison that is an order.)
pub plan_inbound_call-Rises :
    (sort : Sort) (clock : Clock) (routing : CachedRouting) (now : ℕ) (r : RingPlan)
    (users : List OrderedUser)
    → IsSort sort
    → plan_inbound_call sort clock routing now ≡ ring r
    → r.strategy ≡ fixed_order
    → routing.ordered_users ≡ some users
    → (us : List OrderedUser) × Perm us users × Rises us × (r.user_ids ≡ user_ids_of us)
plan_inbound_call-Rises sort clock routing now r users c e s o =
    let (same, sorted) = c by_order users by_order-IsOrder in
    (
      sort by_order users,
      same,
      IsSortedBy-Rises (sort by_order users) sorted,
      plan_inbound_call-fixed sort clock routing now r users e s o,
    )
