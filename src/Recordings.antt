-- ===== src/Recordings.antt =====
-- A recording between Twilio and the media store: its copies, its deletions and what is played
-- (apps/api/src/calls/recording.service.ts, recording-copy.ts, retention.ts). Attempts run side by side,
-- and each step of one is a write, a request or a read of the code.
pub mod Played
pub mod Deleted
pub mod Owed
use iziphone.Prelude.{
  ℕ, zero, suc, ◌+◌, ◌*◌, Bool, true, false, not, ◌&&◌, ◌||◌, Option, none, some, List, [], ◌∷◌,
  ◌++◌, ◌==◌, ltb, if◌then◌else◌, filter,
}
use iziphone.Domain.{Text}

pub data DeletionReason : Type 0 where
  retention_policy by_hand : DeletionReason

-- The columns of a recording's row that its copies and deletions turn on.
pub record RecordingRow : Type 0 where
  pub object_key : Option Text
  pub provider_deleted_at : Option ℕ
  pub deleted_at : Option ℕ
  pub deletion_reason : Option DeletionReason
  pub copy_started_at : Option ℕ

pub data PlaybackSource : Type 0 where
  from_store : Text → PlaybackSource
  from_provider : PlaybackSource
  is_deleted : Option DeletionReason → PlaybackSource
  is_gone : PlaybackSource

abbrev pub is_none : {A : Type 0} → Option A → Bool
is_none none = true
is_none (some a) = false

abbrev pub source_of : Option ℕ → Option Text → Option ℕ → Option DeletionReason → PlaybackSource
source_of (some at) key provider reason = is_deleted reason
source_of none (some key) provider reason = from_store key
source_of none none none reason = from_provider
source_of none none (some at) reason = is_gone

-- `playbackSource`
unfoldable pub playback_source : RecordingRow → PlaybackSource
playback_source row =
    source_of row.deleted_at row.object_key row.provider_deleted_at row.deletion_reason

pub data CopyPlan : Type 0 where
  fetch : CopyPlan
  skip : Bool → CopyPlan

-- `copyPlan`, where `skip` says whether the deletion at Twilio is owed.
unfoldable pub copy_plan : RecordingRow → CopyPlan
copy_plan row =
    if not (is_none row.deleted_at)
    then skip (is_none row.provider_deleted_at)
    else if is_none row.object_key
    then (if is_none row.provider_deleted_at then fetch else skip false)
    else skip (is_none row.provider_deleted_at)

abbrev pub copy_claim_stale_ms : ℕ
copy_claim_stale_ms = 10 * 60 * 1000

-- Whether a claim of then is stale now, `started < now - stale`.
abbrev pub is_free_claim : Option ℕ → ℕ → Bool
is_free_claim none now = true
is_free_claim (some started) now = ltb (started + copy_claim_stale_ms) now

-- `claimableCopyWhere`
unfoldable pub is_claimable : RecordingRow → ℕ → Bool
is_claimable row now =
    is_none row.object_key && (is_none row.deleted_at && is_free_claim row.copy_started_at now)

abbrev pub delete_attempts : ℕ
delete_attempts = 3

-- Where an attempt stands: what it does next, with what it read or was given before.
pub data Attempt : Type 0 where
  plans_copy : Text → RecordingRow → Attempt
  plays claims_played claims : Text → Attempt
  fetches puts records discards : Text → ℕ → Attempt
  releases : ℕ → Attempt
  deletes_at_provider marks_provider over : Attempt
  empties marks_deleted : ℕ → DeletionReason → RecordingRow → Attempt
  reads_again : ℕ → DeletionReason → Attempt

-- The row, the keys in the store, and whether Twilio has the recording.
pub record Audio : Type 0 where
  pub row : RecordingRow
  pub stored : List Text
  pub at_provider : Bool

-- Whether a step's request or write succeeds, and when it is made.
pub record Turn : Type 0 where
  pub works : Bool
  pub now : ℕ

abbrev pub with_row : Audio → RecordingRow → Audio
with_row a row = record a { row = row }

abbrev pub without_key : Text → List Text → List Text
without_key key = filter (λ k. not (k == key))

abbrev pub after_plan : Text → CopyPlan → Attempt
after_plan key fetch = claims key
after_plan key (skip owed) = if owed then deletes_at_provider else over

abbrev pub same_key : Option Text → Option Text → Bool
same_key none none = true
same_key none (some k) = false
same_key (some k) none = false
same_key (some j) (some k) = j == k

abbrev pub same_time : Option ℕ → ℕ → Bool
same_time none t = false
same_time (some s) t = s == t

-- The start of `deleteAudio`'s turn on the row that it has read.
abbrev pub empty_store :
    Turn → ℕ → DeletionReason → RecordingRow → Option Text → Audio → Attempt × Audio
empty_store t left reason row none a = (marks_deleted left reason row, a)
empty_store t left reason row (some key) a =
    if t.works
    then (marks_deleted left reason row, record a { stored = without_key key a.stored })
    else (over, a)

abbrev pub read_row : ℕ → DeletionReason → RecordingRow → Attempt
read_row zero reason row = over
read_row (suc left) reason row = empties left reason row

-- `claimCopy`, and what the attempt does once it has the claim.
abbrev pub claim_copy : (ℕ → Attempt) → Turn → Audio → Attempt × Audio
claim_copy next t a =
    if t.works && is_claimable a.row t.now
    then (next t.now, with_row a (record a.row { copy_started_at = some t.now }))
    else (over, a)

-- `releaseCopyClaim`
abbrev pub release_copy_claim : ℕ → Turn → Audio → Attempt × Audio
release_copy_claim claimed t a =
    if t.works && same_time a.row.copy_started_at claimed
    then (over, with_row a (record a.row { copy_started_at = none }))
    else (over, a)

-- `store`: the audio is put in the store, and then its key is written to the row.
abbrev pub put_audio : Text → ℕ → Turn → Audio → Attempt × Audio
put_audio key claimed t a =
    if t.works
    then (records key claimed, record a { stored = key ∷ a.stored })
    else (releases claimed, a)

abbrev pub record_copy : Text → ℕ → Turn → Audio → Attempt × Audio
record_copy key claimed t a =
    if not t.works
    then (releases claimed, a)
    else if is_none a.row.deleted_at
    then (deletes_at_provider, with_row a (record a.row { object_key = some key }))
    else (discards key claimed, a)

-- `discard`
abbrev pub discard : Text → Turn → Audio → Audio
discard key t a = if t.works then record a { stored = without_key key a.stored } else a

-- `deleteAtProvider`: the request, and the write that records it.
abbrev pub delete_at_provider : Turn → Audio → Attempt × Audio
delete_at_provider t a =
    if t.works then (marks_provider, record a { at_provider = false }) else (over, a)

abbrev pub mark_provider : Turn → Audio → Attempt × Audio
mark_provider t a =
    if t.works
    then (over, with_row a (record a.row { provider_deleted_at = some t.now }))
    else (over, a)

-- The guarded write of `deleteAudio`, on the row that it has read.
abbrev pub mark_deleted : ℕ → DeletionReason → RecordingRow → Turn → Audio → Attempt × Audio
mark_deleted left reason row t a =
    if not t.works
    then (over, a)
    else if is_none a.row.deleted_at && same_key a.row.object_key row.object_key
    then (
      if is_none row.provider_deleted_at then deletes_at_provider else over,
      with_row a (record a.row {
        deleted_at = some t.now;
        deletion_reason = some reason;
        object_key = none;
      }),
    )
    else (reads_again left reason, a)

-- The next step of an attempt: of `copy`, of the copy on the way of `open`, or of `deleteAudio`.
unfoldable pub advance : Turn → Attempt → Audio → Attempt × Audio
unfolding copy_plan is_claimable
advance t (plans_copy key row) a = (after_plan key (copy_plan row), a)
advance t (plays key) a = if t.works && a.at_provider then (claims_played key, a) else (over, a)
advance t (claims_played key) a = claim_copy (puts key) t a
advance t (claims key) a = claim_copy (fetches key) t a
advance t (fetches key claimed) a =
    if t.works && a.at_provider then (puts key claimed, a) else (releases claimed, a)
advance t (puts key claimed) a = put_audio key claimed t a
advance t (records key claimed) a = record_copy key claimed t a
advance t (discards key claimed) a = (releases claimed, discard key t a)
advance t (releases claimed) a = release_copy_claim claimed t a
advance t deletes_at_provider a = delete_at_provider t a
advance t marks_provider a = mark_provider t a
advance t (empties left reason row) a =
    if not (is_none row.deleted_at)
    then (over, a)
    else empty_store t left reason row row.object_key a
advance t (marks_deleted left reason row) a = mark_deleted left reason row t a
advance t (reads_again left reason) a =
    if t.works then (read_row left reason a.row, a) else (over, a)
advance t over a = (over, a)

-- What happens next: a copy, the play of a voicemail that Twilio has, or a deletion begins on the row as
-- it stands, an attempt takes its next step, or it dies where it stands.
pub data Move : Type 0 where
  begins_copy begins_play : Text → Move
  begins_deletion : DeletionReason → Move
  steps : ℕ → Turn → Move
  dies : ℕ → Move

pub record Scene : Type 0 where
  pub audio : Audio
  pub attempts : List Attempt

abbrev pub step_at : ℕ → Turn → List Attempt → Audio → List Attempt × Audio
step_at n t [] a = ([], a)
step_at zero t (x ∷ xs) a = let (y, b) = advance t x a in (y ∷ xs, b)
step_at (suc n) t (x ∷ xs) a = let (ys, b) = step_at n t xs a in (x ∷ ys, b)

abbrev pub die_at : ℕ → List Attempt → List Attempt
die_at n [] = []
die_at zero (x ∷ xs) = over ∷ xs
die_at (suc n) (x ∷ xs) = x ∷ die_at n xs

unfoldable pub move : Move → Scene → Scene
move (begins_copy key) s = record s { attempts = plans_copy key s.audio.row ∷ s.attempts }
move (begins_play key) s =
    if is_none s.audio.row.deleted_at && is_none s.audio.row.provider_deleted_at
    then record s { attempts = plays key ∷ s.attempts }
    else s
move (begins_deletion reason) s = record s {
  attempts = read_row delete_attempts reason s.audio.row ∷ s.attempts;
}
move (steps n t) s =
    let (xs, a) = step_at n t s.attempts s.audio in record { audio = a; attempts = xs }
move (dies n) s = record s { attempts = die_at n s.attempts }

unfoldable pub moves : List Move → Scene → Scene
moves [] s = s
moves (m ∷ ms) s = moves ms (move m s)
