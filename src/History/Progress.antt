-- ===== src/History/Progress.antt =====
-- What becomes of a call's row over the events that follow (call-event-subscriber.ts).
use iziphone.Prelude.{
  ℕ, ◌≡◌, refl, Bool, true, false, Bool-cases, inl, inr, ◌⊎◌, Option, none, some, List, [], ◌∷◌,
  ◌++◌, ◌==◌, if◌then◌else◌, find, arith,
}
use mathlib.Core.Path.{subst}
use iziphone.Domain.{Text}
use iziphone.History.{
  CallRow, TimelineEntry, History, CallEvent, update_row, upsert_found, with_found, unchanged_row,
  told_incoming, told_started, told_ended, told_missed, told_transferred, told_held, told_resumed,
  told_status, told_recording, told_transcription, told_migrated,
}
use iziphone.History.Handlers.{
  incoming_row, incoming_update, incoming_entry, on_call_incoming, started_row, started_update,
  started_entry, on_call_started, ended_update, ended_entry, on_call_ended, missed_row,
  missed_update, missed_entry, on_call_missed, transferred_update, transferred_entry,
  on_call_transferred, hold_entry, on_hold_changed, status_entry, on_participant_status,
  recording_entry, on_recording_ready, transcription_entry, transcript_update,
  on_transcription_ready, rename, migrate_unless, on_conversation_migrated, change_of, Failure,
  add_entry, receive, receive_all, row_fails, entry_fails, no_failure,
}

-- The row with an id.
abbrev pub row_with : ℕ → List CallRow → Option CallRow
row_with i = find (λ row. row.id == i)

-- What an event does to a row that the call has.
abbrev pub update_of : CallEvent → CallRow → CallRow
update_of (told_incoming e) = incoming_update e
update_of (told_started e) = started_update e
update_of (told_ended e existing) = ended_update e existing
update_of (told_missed e) = missed_update e
update_of (told_transferred e existing) = transferred_update e existing
update_of (told_held e) = unchanged_row
update_of (told_resumed e) = unchanged_row
update_of (told_status e) = unchanged_row
update_of (told_recording conversation context registered) = unchanged_row
update_of (told_transcription conversation transcript context) = transcript_update transcript
update_of (told_migrated previous conversation) = unchanged_row

-- A relation of a row to what it becomes.
pub record IsProgress (R : CallRow → CallRow → Type 0) : Type 0 where
  pub stays : (r : CallRow) → R r r
  pub goes_on : (r s t : CallRow) → R r s → R s t → R r t
  pub is_renamed : (r : CallRow) (c : Text) → R r (record r { conversation_uuid = c })

module _ (R : CallRow → CallRow → Type 0) (p : IsProgress R) (i : ℕ) where
  abbrev pub Reaches : CallRow → Option CallRow → Type 0
  Reaches r found = (s : CallRow) × (found ≡ some s) × R r s

  progress_if :
      (f : CallRow → CallRow)
      → ((r : CallRow) → R r (f r))
      → (x : CallRow) (b : Bool) → R x (if b then f x else x)
  progress_if f k x true = k x
  progress_if f k x false = p.stays x

  -- The row of the first place, or one of the others.
  first_row :
      (x : CallRow) (rows : List CallRow) (r : CallRow)
      → row_with i (x ∷ rows) ≡ some r
      → ((x.id == i) ≡ true) × (x ≡ r) ⊎ ((x.id == i) ≡ false) × (row_with i rows ≡ some r)
  first_row x rows r h = elim (Bool-cases (x.id == i)) [
    | inl a ↦ inl (a, ground arith)
    | inr a ↦ inr (a, ground arith)
  ]

  update_row-Reaches :
      (j : ℕ) (f : CallRow → CallRow)
      → ((r : CallRow) → R r (f r))
      → ((r : CallRow) → (f r).id ≡ r.id)
      → (rows : List CallRow) (r : CallRow) → row_with i rows ≡ some r
      → Reaches r (row_with i (update_row j f rows))
  update_row-Reaches j f k same [] r h = cc
  update_row-Reaches j f k same (x ∷ rows) r h = elim (first_row x rows r h) [
    | inl (a, e) ↦ (
      if x.id == j then f x else x,
      ground (arith, same x),
      subst (λ r. R r (if x.id == j then f x else x)) e (progress_if f k x (x.id == j)),
    )
    | inr (a, e) ↦
        let (s, g, q) = update_row-Reaches j f k same rows r e in (s, ground (arith, same x), q)
  ]

  append-Reaches :
      (rows : List CallRow) (x r : CallRow)
      → row_with i rows ≡ some r
      → Reaches r (row_with i (rows ++ (x ∷ [])))
  append-Reaches [] x r h = cc
  append-Reaches (y ∷ rows) x r h = elim (first_row y rows r h) [
    | inl (a, e) ↦ (y, ground arith, subst (λ r. R r y) e (p.stays y))
    | inr (a, e) ↦ let (s, g, q) = append-Reaches rows x r e in (s, ground arith, q)
  ]

  rename-Reaches :
      (previous c : Text) (rows : List CallRow) (r : CallRow)
      → row_with i rows ≡ some r
      → Reaches r (row_with i (rename previous c rows))
  rename-Reaches previous c [] r h = cc
  rename-Reaches previous c (x ∷ rows) r h =
      let f : CallRow → CallRow = λ y. record y { conversation_uuid = c } in
      elim (first_row x rows r h) [
        | inl (a, e) ↦ (
          if x.conversation_uuid == previous then f x else x,
          ground arith,
          subst (λ r. R r (if x.conversation_uuid == previous then f x else x)) e
              (progress_if f (λ y. p.is_renamed y c) x (x.conversation_uuid == previous)),
        )
        | inr (a, e) ↦ let (s, g, q) = rename-Reaches previous c rows r e in (s, ground arith, q)
      ]

  stays-Reaches :
      (rows : List CallRow) (r : CallRow) → row_with i rows ≡ some r → Reaches r (row_with i rows)
  stays-Reaches rows r h = (r, h, p.stays r)

  upsert_found-Reaches :
      (h : History) (create : ℕ → CallRow) (f : CallRow → CallRow) (entry : ℕ → TimelineEntry)
      → ((r : CallRow) → R r (f r))
      → ((r : CallRow) → (f r).id ≡ r.id)
      → (found : Option CallRow) (r : CallRow) → row_with i h.rows ≡ some r
      → Reaches r (row_with i (upsert_found h create f entry found).after.rows)
  upsert_found-Reaches h create f entry k same none r e = append-Reaches h.rows _ r e
  upsert_found-Reaches h create f entry k same (some row) r e =
      update_row-Reaches row.id f k same h.rows r e

  with_found-Reaches :
      (h : History) (f : CallRow → CallRow) (entry : ℕ → Option TimelineEntry)
      → ((r : CallRow) → R r (f r))
      → ((r : CallRow) → (f r).id ≡ r.id)
      → (found : Option CallRow) (r : CallRow) → row_with i h.rows ≡ some r
      → Reaches r (row_with i (with_found h f entry found).after.rows)
  with_found-Reaches h f entry k same none r e = stays-Reaches h.rows r e
  with_found-Reaches h f entry k same (some row) r e = update_row-Reaches row.id f k same h.rows r e

  migrate_unless-Reaches :
      (previous c : Text) (h : History) (found : Option CallRow) (r : CallRow)
      → row_with i h.rows ≡ some r
      → Reaches r (row_with i (migrate_unless previous c h found).after.rows)
  migrate_unless-Reaches previous c h none r e = rename-Reaches previous c h.rows r e
  migrate_unless-Reaches previous c h (some row) r e = stays-Reaches h.rows r e

  change_of-Reaches :
      (e : CallEvent) (h : History) (r : CallRow)
      → ((r : CallRow) → R r (update_of e r))
      → row_with i h.rows ≡ some r
      → Reaches r (row_with i (change_of e h).after.rows)
  unfolding change_of on_call_incoming on_call_started on_call_ended on_call_missed
      on_call_transferred on_hold_changed on_participant_status on_recording_ready
      on_transcription_ready on_conversation_migrated
  change_of-Reaches (told_incoming e) h r k g =
      upsert_found-Reaches h (incoming_row e) (incoming_update e) (incoming_entry e) k (λ _. refl) _
        r g
  change_of-Reaches (told_started e) h r k g =
      upsert_found-Reaches h (started_row e) (started_update e) (started_entry e) k (λ _. refl) _ r
        g
  change_of-Reaches (told_ended e existing) h r k g =
      with_found-Reaches h (ended_update e existing) (ended_entry e) k (λ _. refl) _ r g
  change_of-Reaches (told_missed e) h r k g =
      upsert_found-Reaches h (missed_row e) (missed_update e) (missed_entry e) k (λ _. refl) _ r g
  change_of-Reaches (told_transferred e existing) h r k g =
      with_found-Reaches h (transferred_update e existing) (transferred_entry e) k (λ _. refl) _ r g
  change_of-Reaches (told_held e) h r k g =
      with_found-Reaches h unchanged_row (hold_entry e true) k (λ _. refl) _ r g
  change_of-Reaches (told_resumed e) h r k g =
      with_found-Reaches h unchanged_row (hold_entry e false) k (λ _. refl) _ r g
  change_of-Reaches (told_status e) h r k g =
      with_found-Reaches h unchanged_row (status_entry e) k (λ _. refl) _ r g
  change_of-Reaches (told_recording conversation context registered) h r k g =
      with_found-Reaches h unchanged_row (recording_entry context registered) k (λ _. refl) _ r g
  change_of-Reaches (told_transcription conversation transcript context) h r k g =
      with_found-Reaches h (transcript_update transcript) (transcription_entry context) k
        (λ _. refl) _ r g
  change_of-Reaches (told_migrated previous conversation) h r k g =
      migrate_unless-Reaches previous conversation h _ r g

  add_entry-Reaches :
      (f : Failure) (after : History) (entry : Option TimelineEntry) (h : History) (r : CallRow)
      → row_with i h.rows ≡ some r
      → Reaches r (row_with i after.rows)
      → Reaches r (row_with i (add_entry f (record { after = after; entry = entry }) h).rows)
  add_entry-Reaches row_fails after entry h r e q = stays-Reaches h.rows r e
  add_entry-Reaches entry_fails after entry h r e q = q
  add_entry-Reaches no_failure after none h r e q = q
  add_entry-Reaches no_failure after (some entry) h r e q = q

  -- All the events update a row as the relation has it.
  abbrev pub Each : List (Failure × CallEvent) → Type 0
  Each [] = Unit
  Each ((f, e) ∷ es) = ((r : CallRow) → R r (update_of e r)) × Each es

  pub receive_all-Reaches :
      (es : List (Failure × CallEvent)) (h : History) (r : CallRow)
      → Each es
      → row_with i h.rows ≡ some r
      → Reaches r (row_with i (receive_all es h).rows)
  unfolding receive_all receive
  receive_all-Reaches [] h r k g = stays-Reaches h.rows r g
  receive_all-Reaches ((f, e) ∷ es) h r (k, ks) g =
      let c = change_of e h in
      let (s, a, q) = add_entry-Reaches f c.after c.entry h r g (change_of-Reaches e h r k g) in
      let (t, b, z) = receive_all-Reaches es (receive f e h) s ks a in (t, b, p.goes_on r s t q z)
