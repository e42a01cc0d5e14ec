-- ===== src/Examples/Recorded.antt =====
-- A recording that is copied and played at once, and one that is deleted under a copy.
use iziphone.Prelude.{ℕ, ◌≡◌, refl, some, true, false, List, [], ◌∷◌}
use iziphone.Recordings.{
  Move, begins_copy, begins_play, begins_deletion, steps, dies, Scene, Turn, moves, move, by_hand,
  is_deleted, playback_source, advance, copy_plan, is_claimable,
}
use iziphone.Recordings.Played.{announced, can_be_played, moves-can_be_played}
use iziphone.Recordings.Deleted.{WasDeleted, moves_stay_deleted}
use iziphone.Recordings.Owed.{is_released, moves_release_first}

abbrev at_time : ℕ → Turn
at_time n = record { works = true; now = n }

-- Two copies plan at once; the first takes the claim and dies with the audio in the store, and a play
-- does the copy when the claim is stale.
abbrev copies : List Move
copies =
    begins_copy 7
    ∷ begins_copy 7
    ∷ steps 0 (at_time 1)
    ∷ steps 0 (at_time 2)
    ∷ steps 1 (at_time 3)
    ∷ steps 1 (at_time 4)
    ∷ steps 0 (at_time 5)
    ∷ steps 0 (at_time 6)
    ∷ dies 0
    ∷ begins_play 7
    ∷ steps 0 (at_time 900000)
    ∷ steps 0 (at_time 900001)
    ∷ steps 0 (at_time 900002)
    ∷ steps 0 (at_time 900003)
    ∷ steps 0 (at_time 900004)
    ∷ steps 0 (at_time 900005)
    ∷ []

moves-can_be_played_example : can_be_played (moves copies announced).audio ≡ true
moves-can_be_played_example = moves-can_be_played copies refl

-- A deletion lands while a copy is on its way.
abbrev crossed : List Move
crossed =
    begins_copy 7
    ∷ steps 0 (at_time 1)
    ∷ steps 0 (at_time 2)
    ∷ steps 0 (at_time 3)
    ∷ begins_deletion by_hand
    ∷ steps 0 (at_time 4)
    ∷ steps 1 (at_time 5)
    ∷ steps 0 (at_time 6)
    ∷ []

abbrev crossed_scene : Scene
crossed_scene = moves crossed announced

was_deleted : WasDeleted 6 by_hand crossed_scene.audio.row
unfolding moves move advance copy_plan is_claimable
was_deleted = record { deleted_then = refl; for_reason = refl; names_no_copy = refl }

abbrev rest : List Move
rest = steps 1 (at_time 7) ∷ steps 1 (at_time 8) ∷ steps 0 (at_time 9) ∷ []

moves_stay_deleted_example :
    WasDeleted 6 by_hand (moves rest crossed_scene).audio.row
    × (playback_source (moves rest crossed_scene).audio.row ≡ is_deleted (some by_hand))
    × ((key : ℕ) → move (begins_play key) (moves rest crossed_scene) ≡ moves rest crossed_scene)
moves_stay_deleted_example = moves_stay_deleted 6 by_hand rest crossed_scene was_deleted

not_yet : is_released (moves (begins_copy 7 ∷ steps 0 (at_time 1) ∷ []) announced).audio.row ≡ false
unfolding moves move advance copy_plan
not_yet = refl

moves_release_first_example :
    (moves (begins_copy 7 ∷ steps 0 (at_time 1) ∷ []) announced).audio.at_provider ≡ true
moves_release_first_example = moves_release_first (begins_copy 7 ∷ steps 0 (at_time 1) ∷ []) not_yet
