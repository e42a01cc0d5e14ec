-- ===== src/Examples/Sorting.antt =====
-- A sort of users by insertion, which keeps the contract of the built-in one.
use iziphone.Prelude.{Bool, true, false, ◌≡◌, inl, inr, List, [], ◌∷◌, if◌then◌else◌, Bool-cases}
use mathlib.Core.List.{Perm}
use mathlib.Core.List.Perm
use iziphone.Routing.InboundPlan.{OrderedUser, Sort}
use iziphone.Routing.InboundPlan.Order.{IsOrder, AllAfter, IsSortedBy, IsSort}
use iziphone.Routing.InboundPlan.Plans.{IsRearranging}

-- A sort by insertion.
unfoldable pub insert_by :
    (OrderedUser → OrderedUser → Bool) → OrderedUser → List OrderedUser → List OrderedUser
insert_by before u [] = u ∷ []
insert_by before u (v ∷ vs) = if before u v then u ∷ v ∷ vs else v ∷ insert_by before u vs

unfoldable pub sort_by : Sort
unfolding insert_by
sort_by before [] = []
sort_by before (u ∷ us) = insert_by before u (sort_by before us)

insert_by-perm :
    (before : OrderedUser → OrderedUser → Bool) (u : OrderedUser) (us : List OrderedUser)
    → Perm (insert_by before u us) (u ∷ us)
unfolding insert_by
insert_by-perm before u [] = Perm.refl (u ∷ [])
insert_by-perm before u (v ∷ us) = elim (Bool-cases (before u v)) [
  | inl e ↦ rw e (Perm.refl (u ∷ v ∷ us))
  | inr e ↦ rw e (Perm.trans (Perm.cons v (insert_by-perm before u us)) (Perm.swap u v us))
]

pub sort_by-IsRearranging : IsRearranging sort_by
unfolding sort_by
sort_by-IsRearranging before [] = Perm.refl []
sort_by-IsRearranging before (u ∷ us) =
    Perm.trans (insert_by-perm before u (sort_by before us))
      (Perm.cons u (sort_by-IsRearranging before us))

module _ (before : OrderedUser → OrderedUser → Bool) (o : IsOrder before) where
  AllAfter-trans :
      (u v : OrderedUser) (us : List OrderedUser)
      → before u v ≡ true
      → AllAfter before v us
      → AllAfter before u us
  AllAfter-trans u v [] h a = tt
  AllAfter-trans u v (w ∷ us) h a = (o.transitive u v w h a.0, AllAfter-trans u v us h a.1)

  AllAfter-insert_by :
      (w u : OrderedUser) (us : List OrderedUser)
      → before w u ≡ true
      → AllAfter before w us
      → AllAfter before w (insert_by before u us)
  unfolding insert_by
  AllAfter-insert_by w u [] h a = (h, tt)
  AllAfter-insert_by w u (v ∷ us) h a = elim (Bool-cases (before u v)) [
    | inl e ↦ rw e (h, a)
    | inr e ↦ rw e (a.0, AllAfter-insert_by w u us h a.1)
  ]

  other_way : (u v : OrderedUser) → before u v ≡ false → before v u ≡ true
  other_way u v e = elim (o.total u v) [ inl h ↦ absurd (cc (h, e)) | inr h ↦ h ]

  insert_by-IsSortedBy :
      (u : OrderedUser) (us : List OrderedUser)
      → IsSortedBy before us
      → IsSortedBy before (insert_by before u us)
  unfolding insert_by
  insert_by-IsSortedBy u [] s = (tt, tt)
  insert_by-IsSortedBy u (v ∷ us) s = elim (Bool-cases (before u v)) [
    | inl e ↦ rw e ((e, AllAfter-trans u v us e s.0), s)
    | inr e ↦ rw e (AllAfter-insert_by v u us (other_way u v e) s.0, insert_by-IsSortedBy u us s.1)
  ]

  sort_by-IsSortedBy : (us : List OrderedUser) → IsSortedBy before (sort_by before us)
  unfolding sort_by
  sort_by-IsSortedBy [] = tt
  sort_by-IsSortedBy (u ∷ us) = insert_by-IsSortedBy u (sort_by before us) (sort_by-IsSortedBy us)

pub sort_by-IsSort : IsSort sort_by
sort_by-IsSort before us o = (sort_by-IsRearranging before us, sort_by-IsSortedBy before o us)
