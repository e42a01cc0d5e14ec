-- ===== src/Recordings/Deleted.antt =====
-- What is deleted stays so, and Twilio loses a recording only when it may
-- (recording.service.ts, recording-copy.ts).
use iziphone.Prelude.{
  ℕ, zero, suc, ◌≡◌, refl, Bool, true, false, not, ◌&&◌, Option, none, some, List, [], ◌∷◌,
  if◌then◌else◌, arith,
}
use mathlib.Core.Path.{subst, sym}
use iziphone.Domain.{Text}
use iziphone.Recordings.{
  RecordingRow, DeletionReason, is_deleted, is_none, playback_source, is_claimable, Attempt, plays,
  claims_played, plans_copy, claims, fetches, puts, records, discards, releases,
  deletes_at_provider, marks_provider, over, empties, marks_deleted, reads_again, Audio, Turn,
  empty_store, advance, Move, begins_copy, begins_play, begins_deletion, steps, dies, Scene,
  step_at, move, moves,
}

-- The recording was deleted then, for that reason, and its row names no copy.
pub record WasDeleted (at : ℕ) (reason : DeletionReason) (row : RecordingRow) : Type 0 where
  pub deleted_then : row.deleted_at ≡ some at
  pub for_reason : row.deletion_reason ≡ some reason
  pub names_no_copy : row.object_key ≡ none

module _ (at : ℕ) (reason : DeletionReason) where
  WasDeleted-if :
      (c : Bool) (p q : Attempt × Audio)
      → WasDeleted at reason p.1.row
      → WasDeleted at reason q.1.row
      → WasDeleted at reason (if c then p else q).1.row
  WasDeleted-if true p q f g = f
  WasDeleted-if false p q f g = g

  empty_store-WasDeleted :
      (t : Turn) (left : ℕ) (r : DeletionReason) (row : RecordingRow) (key : Option Text)
      (a : Audio)
      → WasDeleted at reason a.row
      → WasDeleted at reason (empty_store t left r row key a).1.row
  empty_store-WasDeleted t left r row none a d = d
  empty_store-WasDeleted t left r row (some key) a d = WasDeleted-if t.works _ _ d d

  discard_row :
      (c : Bool) (b a : Audio)
      → b.row ≡ a.row
      → WasDeleted at reason a.row
      → WasDeleted at reason (if c then b else a).row
  discard_row true b a e d = subst (WasDeleted at reason) (sym e) d
  discard_row false b a e d = d

  advance-WasDeleted :
      (t : Turn) (x : Attempt) (a : Audio)
      → WasDeleted at reason a.row
      → WasDeleted at reason (advance t x a).1.row
  unfolding advance is_claimable
  advance-WasDeleted t (plans_copy key row) a d = d
  advance-WasDeleted t (plays key) a d = WasDeleted-if (t.works && a.at_provider) _ _ d d
  advance-WasDeleted t (claims_played key) a d = ground arith
  advance-WasDeleted t (claims key) a d = ground arith
  advance-WasDeleted t (fetches key c) a d = WasDeleted-if (t.works && a.at_provider) _ _ d d
  advance-WasDeleted t (puts key c) a d = WasDeleted-if t.works _ _ d d
  advance-WasDeleted t (records key c) a d = ground arith
  advance-WasDeleted t (discards key c) a d = discard_row t.works _ a refl d
  advance-WasDeleted t (releases c) a d = ground arith
  advance-WasDeleted t deletes_at_provider a d = WasDeleted-if t.works _ _ d d
  advance-WasDeleted t marks_provider a d = ground arith
  advance-WasDeleted t (empties left r row) a d =
      WasDeleted-if (not (is_none row.deleted_at)) _ _ d
        (empty_store-WasDeleted t left r row row.object_key a d)
  advance-WasDeleted t (marks_deleted left r row) a d = ground arith
  advance-WasDeleted t (reads_again left r) a d = WasDeleted-if t.works _ _ d d
  advance-WasDeleted t over a d = d

  step_at-WasDeleted :
      (n : ℕ) (t : Turn) (xs : List Attempt) (a : Audio)
      → WasDeleted at reason a.row
      → WasDeleted at reason (step_at n t xs a).1.row
  step_at-WasDeleted n t [] a d = d
  step_at-WasDeleted zero t (x ∷ xs) a d = advance-WasDeleted t x a d
  step_at-WasDeleted (suc n) t (x ∷ xs) a d = step_at-WasDeleted n t xs a d

  play_row :
      (c : Bool) (s v : Scene)
      → v.audio ≡ s.audio
      → WasDeleted at reason s.audio.row
      → WasDeleted at reason (if c then v else s).audio.row
  play_row true s v e d = subst (λ x. WasDeleted at reason x.row) (sym e) d
  play_row false s v e d = d

  move-WasDeleted :
      (m : Move) (s : Scene)
      → WasDeleted at reason s.audio.row
      → WasDeleted at reason (move m s).audio.row
  unfolding move
  move-WasDeleted (begins_copy key) s d = d
  move-WasDeleted (begins_play key) s d = play_row _ s _ refl d
  move-WasDeleted (begins_deletion r) s d = d
  move-WasDeleted (steps n t) s d = step_at-WasDeleted n t s.attempts s.audio d
  move-WasDeleted (dies n) s d = d

  moves-WasDeleted :
      (ms : List Move) (s : Scene)
      → WasDeleted at reason s.audio.row
      → WasDeleted at reason (moves ms s).audio.row
  unfolding moves
  moves-WasDeleted [] s d = d
  moves-WasDeleted (m ∷ ms) s d = moves-WasDeleted ms (move m s) (move-WasDeleted m s d)

-- Once a recording's row says that it was deleted and names no copy, the row stays so, deleted at that
-- time and for that reason, whoever reads it then is told to answer that the recording was deleted, and
-- no play begins on it: no copy, play or deletion that was running as it was deleted, or begins later, brings it back, in
-- whatever order their steps come and whichever of them fail. (This is about the row. What a running play
-- has fetched by then is not taken from it.)
pub moves_stay_deleted :
    (at : ℕ) (reason : DeletionReason) (ms : List Move) (s : Scene)
    → WasDeleted at reason s.audio.row
    → WasDeleted at reason (moves ms s).audio.row
      × (playback_source (moves ms s).audio.row ≡ is_deleted (some reason))
      × ((key : Text) → move (begins_play key) (moves ms s) ≡ moves ms s)
unfolding playback_source move
moves_stay_deleted at reason ms s d =
    let e = moves-WasDeleted at reason ms s d in
    let x = e.deleted_then in let y = e.for_reason in (e, ground arith, λ key. ground arith)
