-- ===== src/History/Outcomes.antt =====
-- What the history says of a call in the end (call-event-subscriber.ts).
use iziphone.Prelude.{
  ℕ, ◌≡◌, refl, sym, ◌∙◌, Bool, true, false, not, ◌&&◌, ◌||◌, Option, none, some, List, [], ◌∷◌,
  arith, Distinct,
}
use mathlib.Core.Path.{subst}
use iziphone.Domain.{Text}
use iziphone.Controller.Effects.{CallEnded}
use iziphone.History.{
  CallRow, CallRowStatus, is_ringing, in_progress, is_missed, is_over, History, ReadLegs, CallEvent,
  told_incoming, told_started, told_ended, told_missed, find_call, update_row, with_found,
}
use iziphone.History.Handlers.{
  add_entry, ended_update, ended_entry, on_call_ended, change_of, Failure, no_failure, receive,
  receive_all,
}
use iziphone.History.Rows.{IsConsistent, ids, find_call-some}
use iziphone.History.Progress.{row_with, update_of, IsProgress, Each, receive_all-Reaches}

abbrev pub rings : CallRowStatus → Bool
rings is_ringing = true
rings in_progress = false
rings is_missed = false
rings (is_over status) = false

abbrev pub is_known : {A : Type 0} → Option A → Bool
is_known none = false
is_known (some a) = true

-- What `s` keeps of `r`.
pub record IsLater (r s : CallRow) : Type 0 where
  pub same_id : s.id ≡ r.id
  pub rings_no_more : (rings r.status || not (rings s.status)) ≡ true
  pub keeps_duration : (not (is_known r.duration) || is_known s.duration) ≡ true
  pub keeps_transcript : (not (is_known r.transcript) || is_known s.transcript) ≡ true

IsLater-IsProgress : IsProgress IsLater
IsLater-IsProgress = record {
  stays = λ r. ground arith;
  goes_on = λ r s t a b. ground arith;
  is_renamed = λ r c. ground arith;
}

update_of-IsLater : (e : CallEvent) (r : CallRow) → IsLater r (update_of e r)
update_of-IsLater (told_incoming e) r = ground arith
update_of-IsLater _ r = ground arith

Each-IsLater : (i : ℕ) (es : List (Failure × CallEvent)) → Each IsLater IsLater-IsProgress i es
Each-IsLater i [] = tt
Each-IsLater i ((f, e) ∷ es) = (update_of-IsLater e, Each-IsLater i es)

-- Over any events, whichever of their writes fail, and whatever legs the ends and the transfers read
-- before others changed them, a call's row is never lost: there is a row with its id, which does not
-- ring unless it rang, and which has a duration and a transcript where it had one.
pub receive_all_keeps :
    (es : List (Failure × CallEvent)) (h : History) (i : ℕ) (r : CallRow)
    → row_with i h.rows ≡ some r
    → (s : CallRow) × (row_with i (receive_all es h).rows ≡ some s) × IsLater r s
receive_all_keeps es h i r g =
    receive_all-Reaches IsLater IsLater-IsProgress i es h r (Each-IsLater i es) g

-- Ends -----------------------------------------------------------------------

IsSettled : CallRow → CallRow → Type 0
IsSettled r s = (s.status ≡ r.status) × (s.duration ≡ r.duration)

IsSettled-IsProgress : IsProgress IsSettled
unfolding IsSettled
IsSettled-IsProgress = record {
  stays = λ r. (refl, refl);
  goes_on = λ r s t a b. (b.0 ∙ a.0, b.1 ∙ a.1);
  is_renamed = λ r c. (refl, refl);
}

-- The event leaves the status of a call that has a row.
abbrev pub leaves_status : CallEvent → Bool
leaves_status (told_started e) = false
leaves_status (told_ended e existing) = false
leaves_status (told_missed e) = false
leaves_status _ = true

abbrev pub all_leave_status : List (Failure × CallEvent) → Bool
all_leave_status [] = true
all_leave_status ((f, e) ∷ es) = leaves_status e && all_leave_status es

update_of-IsSettled :
    (e : CallEvent) (r : CallRow) → leaves_status e ≡ true → IsSettled r (update_of e r)
unfolding IsSettled
update_of-IsSettled (told_started e) r h = cc
update_of-IsSettled (told_ended e existing) r h = cc
update_of-IsSettled (told_missed e) r h = cc
update_of-IsSettled _ r h = (refl, refl)

Each-IsSettled :
    (i : ℕ) (es : List (Failure × CallEvent))
    → all_leave_status es ≡ true
    → Each IsSettled IsSettled-IsProgress i es
Each-IsSettled i [] h = tt
Each-IsSettled i ((f, e) ∷ es) h =
    ((λ r. update_of-IsSettled e r (ground arith)), Each-IsSettled i es (ground arith))

row_with-find_call :
    (c : Text) (rows : List CallRow) (row : CallRow)
    → Distinct (ids rows)
    → find_call c rows ≡ some row
    → row_with row.id rows ≡ some row
row_with-find_call c [] row d h = cc
row_with-find_call c (r ∷ rows) row (n, d) h =
    ground (arith, row_with-find_call c rows row d, find_call-some c rows row)

row_with-update_row :
    (i : ℕ) (f : CallRow → CallRow) (rows : List CallRow) (row : CallRow)
    → ((r : CallRow) → (f r).id ≡ r.id)
    → row_with i rows ≡ some row
    → row_with i (update_row i f rows) ≡ some (f row)
row_with-update_row i f [] row same h = cc
row_with-update_row i f (r ∷ rows) row same h =
    ground (arith, same r, row_with-update_row i f rows row same)

ended_row :
    (e : CallEnded) (existing : ReadLegs) (h : History) (row : CallRow)
    → IsConsistent h
    → find_call e.conversation_uuid h.rows ≡ some row
    → row_with row.id (receive no_failure (told_ended e existing) h).rows
      ≡ some (ended_update e existing row)
unfolding receive change_of on_call_ended
ended_row e existing h row c g =
    subst
      (λ found.
        row_with row.id
          (add_entry no_failure (with_found h (ended_update e existing) (ended_entry e) found)
            h).rows
        ≡ some (ended_update e existing row))
      (sym g)
      (row_with-update_row row.id (ended_update e existing) h.rows row (λ r. refl)
        (row_with-find_call e.conversation_uuid h.rows row c.one_id_each g))

-- Once the end of a call that has a row is delivered, the row has the status and the duration of that
-- end, and keeps them over any events that follow, whichever of their writes fail, of any call, as long as
-- none of them tells of a start, a miss or an end; whatever legs that end read.
pub receive_end_stays :
    (e : CallEnded) (existing : ReadLegs) (es : List (Failure × CallEvent)) (h : History)
    (row : CallRow)
    → IsConsistent h
    → find_call e.conversation_uuid h.rows ≡ some row
    → all_leave_status es ≡ true
    → (s : CallRow) × (row_with row.id
          (receive_all ((no_failure, told_ended e existing) ∷ es) h).rows
        ≡ some s)
      × (s.status ≡ is_over e.status)
      × (s.duration ≡ some e.duration)
unfolding receive_all IsSettled
receive_end_stays e existing es h row c g q =
    let (s, a, (x, y)) =
      receive_all-Reaches IsSettled IsSettled-IsProgress row.id es
        (receive no_failure (told_ended e existing) h) (ended_update e existing row)
        (Each-IsSettled row.id es q) (ended_row e existing h row c g) in
    (s, a, x, y)
