-- ===== src/Recordings/Played.antt =====
-- A recording that nobody deletes can be played (recording.service.ts, recording-copy.ts).
use iziphone.Prelude.{
  ℕ, zero, suc, ◌≡◌, refl, Bool, true, false, not, ◌&&◌, ◌||◌, Option, none, some, List, [], ◌∷◌,
  if◌then◌else◌, elem, arith,
}
use iziphone.Domain.{Text}
use iziphone.Recordings.{
  RecordingRow, PlaybackSource, from_store, from_provider, is_deleted, is_gone, is_none,
  playback_source, copy_plan, is_claimable, Attempt, plays, claims_played, plans_copy, claims,
  fetches, puts, records, discards, releases, deletes_at_provider, marks_provider, over, empties,
  marks_deleted, reads_again, Audio, Turn, with_row, after_plan, same_time, advance, Move,
  begins_copy, begins_play, begins_deletion, steps, dies, Scene, step_at, die_at, move, moves,
}

abbrev pub is_audible : PlaybackSource → Audio → Bool
is_audible (from_store key) a = elem key a.stored
is_audible from_provider a = a.at_provider
is_audible (is_deleted reason) a = false
is_audible is_gone a = false

-- What is played is there: the copy in the store, or the recording at Twilio.
abbrev pub can_be_played : Audio → Bool
can_be_played a = is_audible (playback_source a.row) a

abbrev pub deletes_nothing : List Move → Bool
deletes_nothing [] = true
deletes_nothing (begins_deletion reason ∷ ms) = false
deletes_nothing (_ ∷ ms) = deletes_nothing ms

abbrev key_is_stored : Option Text → List Text → Bool
key_is_stored none keys = true
key_is_stored (some key) keys = elem key keys

record IsKept (a : Audio) : Type 0 where
  not_deleted : is_none a.row.deleted_at ≡ true
  copy_is_there : key_is_stored a.row.object_key a.stored ≡ true
  is_somewhere : (a.at_provider || not (is_none a.row.object_key)) ≡ true
  marked_once_gone : (is_none a.row.provider_deleted_at || not a.at_provider) ≡ true

-- What an attempt relies on.
abbrev is_fine : Attempt → Audio → Bool
is_fine (plans_copy key row) a =
    is_none row.deleted_at && (is_none row.object_key || not (is_none a.row.object_key))
is_fine (plays key) a = true
is_fine (claims_played key) a = true
is_fine (claims key) a = true
is_fine (fetches key claimed) a = true
is_fine (puts key claimed) a = true
is_fine (records key claimed) a = elem key a.stored
is_fine (discards key claimed) a = false
is_fine (releases claimed) a = true
is_fine deletes_at_provider a = not (is_none a.row.object_key)
is_fine marks_provider a = not a.at_provider
is_fine over a = true
is_fine (empties left reason row) a = false
is_fine (marks_deleted left reason row) a = false
is_fine (reads_again left reason) a = false

-- What the others may rely on over a step.
record Grows (a b : Audio) : Type 0 where
  keeps_keys : (key : Text) → elem key a.stored ≡ true → elem key b.stored ≡ true
  keeps_copy : (is_none a.row.object_key || not (is_none b.row.object_key)) ≡ true
  stays_gone : (a.at_provider || not b.at_provider) ≡ true

is_fine-Grows : (x : Attempt) (a b : Audio) → Grows a b → is_fine x a ≡ true → is_fine x b ≡ true
is_fine-Grows (records key claimed) a b g h = g.keeps_keys key h
is_fine-Grows (plans_copy key row) a b g h = let k = g.keeps_copy in ground arith
is_fine-Grows deletes_at_provider a b g h = let k = g.keeps_copy in ground arith
is_fine-Grows marks_provider a b g h = let k = g.stays_gone in ground arith
is_fine-Grows _ a b g h = h

record IsKeptBy (y : Attempt) (a b : Audio) : Type 0 where
  kept : IsKept b
  fine : is_fine y b ≡ true
  grows : Grows a b

Grows-refl : (a : Audio) → Grows a a
Grows-refl a = record {
  keeps_keys = λ key h. h;
  keeps_copy = ground arith;
  stays_gone = ground arith;
}

key_is_stored-cons :
    (o : Option Text) (key : Text) (keys : List Text)
    → key_is_stored o keys ≡ true
    → key_is_stored o (key ∷ keys) ≡ true
key_is_stored-cons none key keys h = refl
key_is_stored-cons (some k) key keys h = ground arith

module _ (a : Audio) where
  IsKeptBy-if :
      (c : Bool) (p q : Attempt × Audio)
      → (c ≡ true → IsKeptBy p.0 a p.1)
      → (c ≡ false → IsKeptBy q.0 a q.1)
      → IsKeptBy (if c then p else q).0 a (if c then p else q).1
  IsKeptBy-if true p q f g = f refl
  IsKeptBy-if false p q f g = g refl

  module _ (k : IsKept a) where
    same : (y : Attempt) → is_fine y a ≡ true → IsKeptBy y a a
    same y h = record { kept = k; fine = h; grows = Grows-refl a }

    -- The claim of a copy changes nothing that is relied on.
    claimed :
        (y : Attempt) (at : Option ℕ)
        → is_fine y a ≡ true
        → is_fine y (with_row a (record a.row { copy_started_at = at })) ≡ true
        → IsKeptBy y a (with_row a (record a.row { copy_started_at = at }))
    claimed y at h f = record {
      kept = record {
        not_deleted = k.not_deleted;
        copy_is_there = k.copy_is_there;
        is_somewhere = k.is_somewhere;
        marked_once_gone = k.marked_once_gone;
      };
      fine = f;
      grows = record {
        keeps_keys = λ key h. h;
        keeps_copy = ground arith;
        stays_gone = ground arith;
      };
    }

    stored_key :
        (key : Text) (claimed : ℕ)
        → IsKeptBy (records key claimed) a (record a { stored = key ∷ a.stored })
    stored_key key claimed =
        let c = k.copy_is_there in
        record {
          kept = record {
            not_deleted = k.not_deleted;
            copy_is_there = key_is_stored-cons a.row.object_key key a.stored c;
            is_somewhere = k.is_somewhere;
            marked_once_gone = k.marked_once_gone;
          };
          fine = ground arith;
          grows = record {
            keeps_keys = λ j h. ground arith;
            keeps_copy = ground arith;
            stays_gone = ground arith;
          };
        }

    recorded :
        (key : Text)
        → elem key a.stored ≡ true
        → IsKeptBy deletes_at_provider a (with_row a (record a.row { object_key = some key }))
    recorded key h = record {
      kept = record {
        not_deleted = k.not_deleted;
        copy_is_there = h;
        is_somewhere = ground arith;
        marked_once_gone = k.marked_once_gone;
      };
      fine = refl;
      grows = record {
        keeps_keys = λ j h. h;
        keeps_copy = ground arith;
        stays_gone = ground arith;
      };
    }

    deleted_at_provider :
        not (is_none a.row.object_key) ≡ true
        → IsKeptBy marks_provider a (record a { at_provider = false })
    deleted_at_provider h = record {
      kept = record {
        not_deleted = k.not_deleted;
        copy_is_there = k.copy_is_there;
        is_somewhere = h;
        marked_once_gone = ground arith;
      };
      fine = refl;
      grows = record {
        keeps_keys = λ j h. h;
        keeps_copy = ground arith;
        stays_gone = ground arith;
      };
    }

    marked :
        (now : ℕ)
        → not a.at_provider ≡ true
        → IsKeptBy over a (with_row a (record a.row { provider_deleted_at = some now }))
    marked now h = record {
      kept = record {
        not_deleted = k.not_deleted;
        copy_is_there = k.copy_is_there;
        is_somewhere = k.is_somewhere;
        marked_once_gone = h;
      };
      fine = refl;
      grows = record {
        keeps_keys = λ j h. h;
        keeps_copy = ground arith;
        stays_gone = ground arith;
      };
    }

after_plan_fine :
    (key : Text) (row : RecordingRow) (a : Audio)
    → is_fine (plans_copy key row) a ≡ true
    → is_fine (after_plan key (copy_plan row)) a ≡ true
unfolding copy_plan
after_plan_fine key row a h = ground arith

advance-IsKeptBy :
    (t : Turn) (x : Attempt) (a : Audio)
    → IsKept a
    → is_fine x a ≡ true
    → IsKeptBy (advance t x a).0 a (advance t x a).1
unfolding advance
advance-IsKeptBy t (plans_copy key row) a k h = same a k _ (after_plan_fine key row a h)
advance-IsKeptBy t (plays key) a k h =
    IsKeptBy-if a _ _ _ (λ _. same a k _ refl) (λ _. same a k _ refl)
advance-IsKeptBy t (claims_played key) a k h =
    IsKeptBy-if a (t.works && is_claimable a.row t.now)
      (puts key t.now, with_row a (record a.row { copy_started_at = some t.now })) (over, a)
      (λ _. claimed a k (puts key t.now) (some t.now) refl refl) (λ _. same a k _ refl)
advance-IsKeptBy t (claims key) a k h =
    IsKeptBy-if a (t.works && is_claimable a.row t.now)
      (fetches key t.now, with_row a (record a.row { copy_started_at = some t.now })) (over, a)
      (λ _. claimed a k (fetches key t.now) (some t.now) refl refl) (λ _. same a k _ refl)
advance-IsKeptBy t (fetches key c) a k h =
    IsKeptBy-if a _ _ _ (λ _. same a k _ refl) (λ _. same a k _ refl)
advance-IsKeptBy t (puts key c) a k h =
    IsKeptBy-if a _ _ _ (λ _. stored_key a k key c) (λ _. same a k _ refl)
advance-IsKeptBy t (records key c) a k h =
    IsKeptBy-if a _ _ _ (λ _. same a k _ refl)
      (λ _.
        IsKeptBy-if a (is_none a.row.deleted_at) _ (discards key c, a) (λ _. recorded a k key h)
          (λ e. let n = k.not_deleted in cc))
advance-IsKeptBy t (releases c) a k h =
    IsKeptBy-if a (t.works && same_time a.row.copy_started_at c)
      (over, with_row a (record a.row { copy_started_at = none })) (over, a)
      (λ _. claimed a k over none refl refl) (λ _. same a k _ refl)
advance-IsKeptBy t deletes_at_provider a k h =
    IsKeptBy-if a _ _ _ (λ _. deleted_at_provider a k h) (λ _. same a k _ refl)
advance-IsKeptBy t marks_provider a k h =
    IsKeptBy-if a _ _ _ (λ _. marked a k t.now h) (λ _. same a k _ refl)
advance-IsKeptBy t over a k h = same a k _ refl
advance-IsKeptBy t (discards key c) a k h = cc
advance-IsKeptBy t (empties left reason row) a k h = cc
advance-IsKeptBy t (marks_deleted left reason row) a k h = cc
advance-IsKeptBy t (reads_again left reason) a k h = cc

-- Schedules ------------------------------------------------------------------

abbrev AllFine : List Attempt → Audio → Type 0
AllFine [] a = Unit
AllFine (x ∷ xs) a = (is_fine x a ≡ true) × AllFine xs a

AllFine-Grows : (xs : List Attempt) (a b : Audio) → Grows a b → AllFine xs a → AllFine xs b
AllFine-Grows [] a b g h = tt
AllFine-Grows (x ∷ xs) a b g (h, hs) = (is_fine-Grows x a b g h, AllFine-Grows xs a b g hs)

record AreKeptBy (ys : List Attempt) (a b : Audio) : Type 0 where
  kept : IsKept b
  all_fine : AllFine ys b
  grows : Grows a b

step_at-AreKeptBy :
    (n : ℕ) (t : Turn) (xs : List Attempt) (a : Audio)
    → IsKept a
    → AllFine xs a
    → AreKeptBy (step_at n t xs a).0 a (step_at n t xs a).1
step_at-AreKeptBy n t [] a k h = record { kept = k; all_fine = tt; grows = Grows-refl a }
step_at-AreKeptBy zero t (x ∷ xs) a k (h, hs) =
    let s = advance-IsKeptBy t x a k h in
    record { kept = s.kept; all_fine = (s.fine, AllFine-Grows xs a _ s.grows hs); grows = s.grows }
step_at-AreKeptBy (suc n) t (x ∷ xs) a k (h, hs) =
    let s = step_at-AreKeptBy n t xs a k hs in
    record {
      kept = s.kept;
      all_fine = (is_fine-Grows x a _ s.grows h, s.all_fine);
      grows = s.grows;
    }

die_at-AllFine : (n : ℕ) (xs : List Attempt) (a : Audio) → AllFine xs a → AllFine (die_at n xs) a
die_at-AllFine n [] a h = tt
die_at-AllFine zero (x ∷ xs) a (h, hs) = (refl, hs)
die_at-AllFine (suc n) (x ∷ xs) a (h, hs) = (h, die_at-AllFine n xs a hs)

record IsPlain (s : Scene) : Type 0 where
  kept : IsKept s.audio
  all_fine : AllFine s.attempts s.audio

play_when :
    (key : Text) (s : Scene) (c : Bool)
    → IsPlain s
    → IsPlain (if c then record s { attempts = plays key ∷ s.attempts } else s)
play_when key s true p = record { kept = p.kept; all_fine = (refl, p.all_fine) }
play_when key s false p = p

move-IsPlain :
    (m : Move) (s : Scene) → deletes_nothing (m ∷ []) ≡ true → IsPlain s → IsPlain (move m s)
unfolding move
move-IsPlain (begins_copy key) s d p =
    let n = p.kept.not_deleted in record { kept = p.kept; all_fine = (ground arith, p.all_fine) }
move-IsPlain (begins_play key) s d p = play_when key s _ p
move-IsPlain (begins_deletion reason) s d p = cc
move-IsPlain (steps n t) s d p =
    let k = step_at-AreKeptBy n t s.attempts s.audio p.kept p.all_fine in
    record { kept = k.kept; all_fine = k.all_fine }
move-IsPlain (dies n) s d p = record {
  kept = p.kept;
  all_fine = die_at-AllFine n s.attempts s.audio p.all_fine;
}

moves-IsPlain :
    (ms : List Move) (s : Scene) → deletes_nothing ms ≡ true → IsPlain s → IsPlain (moves ms s)
unfolding moves
moves-IsPlain [] s d p = p
moves-IsPlain (m ∷ ms) s d p =
    moves-IsPlain ms (move m s) (ground arith) (move-IsPlain m s (ground arith) p)

-- A recording that Twilio has announced.
abbrev pub announced : Scene
announced = record {
  audio = record {
    row = record {
      object_key = none;
      provider_deleted_at = none;
      deleted_at = none;
      deletion_reason = none;
      copy_started_at = none;
    };
    stored = [];
    at_provider = true;
  };
  attempts = [];
}

IsKept-can_be_played : (a : Audio) → IsKept a → can_be_played a ≡ true
unfolding playback_source
IsKept-can_be_played a k =
    let n = k.not_deleted in
    let c = k.copy_is_there in let s = k.is_somewhere in let m = k.marked_once_gone in ground arith

-- From its announcement on, a recording that nobody asks to delete can be played at any time, from the
-- copy that its row names or else from Twilio: however many copies and plays of it run side by side, in
-- whatever order their steps come, whichever of their requests and writes fail, and wherever they die.
pub moves-can_be_played :
    (ms : List Move) → deletes_nothing ms ≡ true → can_be_played (moves ms announced).audio ≡ true
moves-can_be_played ms d =
    IsKept-can_be_played _
      (moves-IsPlain ms announced d (record {
        kept = record {
          not_deleted = refl;
          copy_is_there = refl;
          is_somewhere = refl;
          marked_once_gone = refl;
        };
        all_fine = tt;
      })).kept
