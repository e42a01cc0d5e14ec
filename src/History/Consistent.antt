-- ===== src/History/Consistent.antt =====
-- The tables of the history stay consistent over any events (call-event-subscriber.ts).
use iziphone.Prelude.{ℕ, ◌≡◌, refl, true, false, Option, none, some, List, [], ◌∷◌, elem, Distinct}
use mathlib.Core.Path.{subst, sym}
use iziphone.Domain.{Text}
use iziphone.Controller.Effects.{RecordingContext, voicemail_recording, conference_recording}
use iziphone.History.{
  unchanged_row, CallRow, History, TimelineEntry, CallEvent, told_incoming, told_started,
  told_ended, told_missed, told_transferred, told_held, told_resumed, told_status, told_recording,
  told_transcription, told_migrated, find_call,
}
use iziphone.History.Handlers.{
  incoming_row, incoming_update, incoming_entry, started_row, started_update, started_entry,
  ended_update, ended_entry, missed_row, missed_update, missed_entry, transferred_update,
  transferred_entry, hold_entry, status_entry, transcript_update, migrate_unless, recording_entry,
  transcription_entry, on_call_incoming, on_call_started, on_call_ended, on_call_missed,
  on_call_transferred, on_hold_changed, on_participant_status, on_recording_ready,
  on_transcription_ready, on_conversation_migrated, change_of, Failure, row_fails, entry_fails,
  no_failure, add_entry, receive, receive_all,
}
use iziphone.History.Rows.{
  IsConsistent, IsSound, KeepsName, entry_known, ids, with_found-IsSound, upsert_found-IsSound,
  ids-rename, Distinct-rename, below, of_rows, of_rows-snoc, find_call-none,
}

recording_entry_known :
    (context : RecordingContext) (r : Option Text) (i : ℕ) (is : List ℕ)
    → elem i is ≡ true
    → entry_known is (recording_entry context r i) ≡ true
recording_entry_known context none i is h = refl
recording_entry_known context (some sid) i is h = h

transcription_entry_known :
    (context : RecordingContext) (i : ℕ) (is : List ℕ)
    → elem i is ≡ true
    → entry_known is (transcription_entry context i) ≡ true
transcription_entry_known voicemail_recording i is h = h
transcription_entry_known conference_recording i is h = refl

migrate_unless-IsSound :
    (p c : Text) (h : History)
    → IsConsistent h
    → (found : Option CallRow) → find_call c h.rows ≡ found
    → IsSound (migrate_unless p c h found)
migrate_unless-IsSound p c h con (some row) e = record {
  after_consistent = con;
  entry_of_row = refl;
}
migrate_unless-IsSound p c h con none e =
    let s = sym (ids-rename p c h.rows) in
    record {
      after_consistent = record {
        one_row_each = Distinct-rename p c h.rows con.one_row_each (find_call-none c h.rows e);
        one_id_each = subst Distinct s con.one_id_each;
        ids_given = subst (λ is. below h.next_id is ≡ true) s con.ids_given;
        entries_of_rows = subst (λ is. of_rows is h.timeline ≡ true) s con.entries_of_rows;
      };
      entry_of_row = refl;
    }

keeps :
    (f : CallRow → CallRow)
    → ((row : CallRow) → (f row).id ≡ row.id)
    → ((row : CallRow) → (f row).conversation_uuid ≡ row.conversation_uuid)
    → KeepsName f
keeps f a b = record { same_id = a; same_conversation = b }

change_of-IsSound : (e : CallEvent) (h : History) → IsConsistent h → IsSound (change_of e h)
unfolding change_of on_call_incoming on_call_started on_call_ended on_call_missed
    on_call_transferred on_hold_changed on_participant_status on_recording_ready
    on_transcription_ready on_conversation_migrated
change_of-IsSound (told_incoming e) h c =
    upsert_found-IsSound h e.conversation_uuid (incoming_row e) (incoming_update e)
      (incoming_entry e) (keeps (incoming_update e) (λ _. refl) (λ _. refl)) (λ i. refl) (λ i. refl)
      (λ i. refl) c _ refl
change_of-IsSound (told_started e) h c =
    upsert_found-IsSound h e.conversation_uuid (started_row e) (started_update e) (started_entry e)
      (keeps (started_update e) (λ _. refl) (λ _. refl)) (λ i. refl) (λ i. refl) (λ i. refl) c _
      refl
change_of-IsSound (told_ended e existing) h c =
    with_found-IsSound h e.conversation_uuid (ended_update e existing) (ended_entry e)
      (keeps (ended_update e existing) (λ _. refl) (λ _. refl)) (λ i is k. k) c _ refl
change_of-IsSound (told_missed e) h c =
    upsert_found-IsSound h e.conversation_uuid (missed_row e) (missed_update e) (missed_entry e)
      (keeps (missed_update e) (λ _. refl) (λ _. refl)) (λ i. refl) (λ i. refl) (λ i. refl) c _ refl
change_of-IsSound (told_transferred e existing) h c =
    with_found-IsSound h e.conversation_uuid (transferred_update e existing) (transferred_entry e)
      (keeps (transferred_update e existing) (λ _. refl) (λ _. refl)) (λ i is k. k) c _ refl
change_of-IsSound (told_held e) h c =
    with_found-IsSound h e.conversation_uuid unchanged_row (hold_entry e true)
      (keeps unchanged_row (λ _. refl) (λ _. refl)) (λ i is k. k) c _ refl
change_of-IsSound (told_resumed e) h c =
    with_found-IsSound h e.conversation_uuid unchanged_row (hold_entry e false)
      (keeps unchanged_row (λ _. refl) (λ _. refl)) (λ i is k. k) c _ refl
change_of-IsSound (told_status e) h c =
    with_found-IsSound h e.conversation_uuid unchanged_row (status_entry e)
      (keeps unchanged_row (λ _. refl) (λ _. refl)) (λ i is k. k) c _ refl
change_of-IsSound (told_recording conversation context registered) h c =
    with_found-IsSound h conversation unchanged_row (recording_entry context registered)
      (keeps unchanged_row (λ _. refl) (λ _. refl)) (recording_entry_known context registered) c _
      refl
change_of-IsSound (told_transcription conversation transcript context) h c =
    with_found-IsSound h conversation (transcript_update transcript) (transcription_entry context)
      (keeps (transcript_update transcript) (λ _. refl) (λ _. refl))
      (transcription_entry_known context) c _ refl
change_of-IsSound (told_migrated p conversation) h c =
    migrate_unless-IsSound p conversation h c _ refl

add_entry-IsConsistent :
    (f : Failure) (after : History) (entry : Option TimelineEntry) (h : History)
    → IsConsistent h
    → IsConsistent after
    → entry_known (ids after.rows) entry ≡ true
    → IsConsistent (add_entry f (record { after = after; entry = entry }) h)
add_entry-IsConsistent row_fails after entry h c a k = c
add_entry-IsConsistent entry_fails after entry h c a k = a
add_entry-IsConsistent no_failure after none h c a k = a
add_entry-IsConsistent no_failure after (some entry) h c a k = record {
  one_row_each = a.one_row_each;
  one_id_each = a.one_id_each;
  ids_given = a.ids_given;
  entries_of_rows = of_rows-snoc (ids after.rows) after.timeline entry a.entries_of_rows k;
}

receive-IsConsistent :
    (f : Failure) (e : CallEvent) (h : History) → IsConsistent h → IsConsistent (receive f e h)
unfolding receive
receive-IsConsistent f e h c =
    let s = change_of-IsSound e h c in
    add_entry-IsConsistent f (change_of e h).after (change_of e h).entry h c s.after_consistent
      s.entry_of_row

-- Over any events in any order, each delivered whole, with the failure of its first write or with the
-- failure of its timeline entry, the tables stay consistent: a conversation has one row, also after
-- conversations were renamed, every id is given once and is below the next one, and every entry of the
-- timeline is of a row that there is.
pub receive_all-IsConsistent :
    (es : List (Failure × CallEvent)) (h : History)
    → IsConsistent h
    → IsConsistent (receive_all es h)
unfolding receive_all
receive_all-IsConsistent [] h c = c
receive_all-IsConsistent ((f, e) ∷ es) h c =
    receive_all-IsConsistent es (receive f e h) (receive-IsConsistent f e h c)
