-- ===== src/Recordings/Owed.antt =====
-- Twilio's recording is deleted only when it may be (recording.service.ts, recording-copy.ts).
use iziphone.Prelude.{
  ℕ, zero, suc, ◌≡◌, refl, Bool, true, false, not, ◌||◌, Option, none, some, List, [], ◌∷◌,
  if◌then◌else◌, arith,
}
use iziphone.Domain.{Text}
use iziphone.Recordings.{
  RecordingRow, DeletionReason, is_none, copy_plan, is_claimable, Attempt, plays, plans_copy,
  discards, deletes_at_provider, empties, reads_again, Audio, Turn, empty_store, read_row, advance,
  delete_attempts, Move, begins_copy, begins_play, begins_deletion, steps, dies, Scene, step_at,
  die_at, move, moves,
}
use iziphone.Recordings.Played.{announced}

-- The row names a copy, or says that the recording was deleted.
abbrev pub is_released : RecordingRow → Bool
is_released row = not (is_none row.object_key) || not (is_none row.deleted_at)

-- What an attempt relies on.
abbrev relies : Attempt → Audio → Bool
relies (plans_copy key row) a = not (is_released row) || is_released a.row
relies deletes_at_provider a = is_released a.row
relies _ a = true

record GoesOn (y : Attempt) (a b : Audio) : Type 0 where
  still : (b.at_provider || is_released b.row) ≡ true
  relied : relies y b ≡ true
  stays : (not (is_released a.row) || is_released b.row) ≡ true

empty_store-GoesOn :
    (t : Turn) (left : ℕ) (r : DeletionReason) (row : RecordingRow) (key : Option Text) (a : Audio)
    → (a.at_provider || is_released a.row) ≡ true
    → GoesOn (empty_store t left r row key a).0 a (empty_store t left r row key a).1
empty_store-GoesOn t left r row none a k = ground arith
empty_store-GoesOn t left r row (some key) a k = ground arith

read_row-relies :
    (left : ℕ) (r : DeletionReason) (row : RecordingRow) (a : Audio)
    → relies (read_row left r row) a ≡ true
read_row-relies zero r row a = refl
read_row-relies (suc left) r row a = refl

advance-GoesOn :
    (t : Turn) (x : Attempt) (a : Audio)
    → (a.at_provider || is_released a.row) ≡ true
    → relies x a ≡ true
    → GoesOn (advance t x a).0 a (advance t x a).1
unfolding advance copy_plan is_claimable
advance-GoesOn t (plans_copy key row) a k h = ground arith
advance-GoesOn t (empties left r row) a k h =
    ground (arith, empty_store-GoesOn t left r row row.object_key a k)
advance-GoesOn t (reads_again left r) a k h = ground (arith, read_row-relies left r a.row a)
advance-GoesOn t (discards key c) a k h = ground arith
advance-GoesOn t _ a k h = ground arith

relies_later :
    (x : Attempt) (a b : Audio)
    → (not (is_released a.row) || is_released b.row) ≡ true
    → relies x a ≡ true
    → relies x b ≡ true
relies_later (plans_copy key row) a b g h = ground arith
relies_later deletes_at_provider a b g h = ground arith
relies_later _ a b g h = h

abbrev AllRely : List Attempt → Audio → Type 0
AllRely [] a = Unit
AllRely (x ∷ xs) a = (relies x a ≡ true) × AllRely xs a

AllRely-later :
    (xs : List Attempt) (a b : Audio)
    → (not (is_released a.row) || is_released b.row) ≡ true
    → AllRely xs a
    → AllRely xs b
AllRely-later [] a b g h = tt
AllRely-later (x ∷ xs) a b g (h, hs) = (relies_later x a b g h, AllRely-later xs a b g hs)

record AllGoOn (ys : List Attempt) (a b : Audio) : Type 0 where
  still : (b.at_provider || is_released b.row) ≡ true
  relied : AllRely ys b
  stays : (not (is_released a.row) || is_released b.row) ≡ true

step_at-AllGoOn :
    (n : ℕ) (t : Turn) (xs : List Attempt) (a : Audio)
    → (a.at_provider || is_released a.row) ≡ true
    → AllRely xs a
    → AllGoOn (step_at n t xs a).0 a (step_at n t xs a).1
step_at-AllGoOn n t [] a k h = record { still = k; relied = tt; stays = ground arith }
step_at-AllGoOn zero t (x ∷ xs) a k (h, hs) =
    let s = advance-GoesOn t x a k h in
    record {
      still = s.still;
      relied = (s.relied, AllRely-later xs a _ s.stays hs);
      stays = s.stays;
    }
step_at-AllGoOn (suc n) t (x ∷ xs) a k (h, hs) =
    let s = step_at-AllGoOn n t xs a k hs in
    record { still = s.still; relied = (relies_later x a _ s.stays h, s.relied); stays = s.stays }

die_at-AllRely : (n : ℕ) (xs : List Attempt) (a : Audio) → AllRely xs a → AllRely (die_at n xs) a
die_at-AllRely n [] a h = tt
die_at-AllRely zero (x ∷ xs) a (h, hs) = (refl, hs)
die_at-AllRely (suc n) (x ∷ xs) a (h, hs) = (h, die_at-AllRely n xs a hs)

record IsReleasedFirst (s : Scene) : Type 0 where
  still : (s.audio.at_provider || is_released s.audio.row) ≡ true
  relied : AllRely s.attempts s.audio

play_when :
    (key : Text) (s : Scene) (c : Bool)
    → IsReleasedFirst s
    → IsReleasedFirst (if c then record s { attempts = plays key ∷ s.attempts } else s)
play_when key s true p = record { still = p.still; relied = (refl, p.relied) }
play_when key s false p = p

move-IsReleasedFirst : (m : Move) (s : Scene) → IsReleasedFirst s → IsReleasedFirst (move m s)
unfolding move
move-IsReleasedFirst (begins_copy key) s p = record {
  still = p.still;
  relied = (ground arith, p.relied);
}
move-IsReleasedFirst (begins_play key) s p = play_when key s _ p
move-IsReleasedFirst (begins_deletion r) s p = record {
  still = p.still;
  relied = (read_row-relies delete_attempts r s.audio.row s.audio, p.relied);
}
move-IsReleasedFirst (steps n t) s p =
    let k = step_at-AllGoOn n t s.attempts s.audio p.still p.relied in
    record { still = k.still; relied = k.relied }
move-IsReleasedFirst (dies n) s p = record {
  still = p.still;
  relied = die_at-AllRely n s.attempts s.audio p.relied;
}

moves-IsReleasedFirst :
    (ms : List Move) (s : Scene) → IsReleasedFirst s → IsReleasedFirst (moves ms s)
unfolding moves
moves-IsReleasedFirst [] s p = p
moves-IsReleasedFirst (m ∷ ms) s p =
    moves-IsReleasedFirst ms (move m s) (move-IsReleasedFirst m s p)

-- Deletions included, Twilio has an announced recording until its row names a copy or says that the
-- recording was deleted: whatever copies, plays and deletions run side by side, whichever of
-- their requests and writes fail, and wherever they die.
pub moves_release_first :
    (ms : List Move)
    → let a = (moves ms announced).audio in is_released a.row ≡ false → a.at_provider ≡ true
moves_release_first ms h =
    let p = (moves-IsReleasedFirst ms announced (record { still = refl; relied = tt })).still in
    ground arith
