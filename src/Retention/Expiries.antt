-- ===== src/Retention/Expiries.antt =====
-- What a sweep deletes (apps/api/src/calls/retention-sweep.service.ts).
use iziphone.Prelude.{
  ℕ, suc, ◌+◌, ◌*◌, ◌≤◌, ◌≡◌, Option, none, some, ltb, refl, Bool, true, false, not, ◌&&◌, List, [],
  ◌∷◌, if◌then◌else◌, length, arith,
}
use iziphone.Controller.Effects.{RecordingContext, voicemail_recording, conference_recording}
use iziphone.Retention.{
  RecordingRetention, SweepRow, Tally, Deletion, was_deleted, was_deleted_before, deletion_failed,
  count, SweepOutside, ExpiryScan, ask, sweep_row, sweep_rows, sweep_scans, delete_expired,
  is_expired, policy_for, no_tally, expiry_scans, retention_cutoff, retention_days, RetentionPolicy,
  keep_until_deleted, days_30, days_60, days_90, days_180, years_1, years_2, years_3, years_5,
  years_7,
}

-- The milliseconds that the settings keep a recording of a context, if they ever let go of it.
abbrev pub kept_ms : RecordingRetention → RecordingContext → Option ℕ
kept_ms retention context = elim context [
  | voicemail_recording ↦ length_of retention.voicemail
  | conference_recording ↦ length_of retention.call_recordings
]
  where
    length_of : RetentionPolicy → Option ℕ
    length_of keep_until_deleted = none
    length_of days_30 = some (30 * 86400000)
    length_of days_60 = some (60 * 86400000)
    length_of days_90 = some (90 * 86400000)
    length_of days_180 = some (180 * 86400000)
    length_of years_1 = some (365 * 86400000)
    length_of years_2 = some (730 * 86400000)
    length_of years_3 = some (1095 * 86400000)
    length_of years_5 = some (1825 * 86400000)
    length_of years_7 = some (2555 * 86400000)

-- More time than that has gone by since then.
abbrev pub has_outlived : Option ℕ → ℕ → ℕ → Bool
has_outlived none created now = false
has_outlived (some ms) created now = ltb (created + ms) now

-- Every one of the rows is older than the settings of its own context keep it.
abbrev pub all_outlived : RecordingRetention → ℕ → List SweepRow → Bool
all_outlived retention now [] = true
all_outlived retention now (row ∷ rows) =
    has_outlived (kept_ms retention row.context) row.created_at now
    && all_outlived retention now rows

policy_for-outlived :
    (retention : RecordingRetention) (row : SweepRow) (now : ℕ)
    → is_expired (policy_for retention row.context) row.created_at now ≡ true
    → has_outlived (kept_ms retention row.context) row.created_at now ≡ true
unfolding is_expired policy_for retention_cutoff retention_days
policy_for-outlived retention row now h = ground arith

-- The recordings asked for have outlived their policies, and the counts are of them.
pub record IsAccounted (retention : RecordingRetention) (now : ℕ) (t : Tally) : Type 0 where
  pub only_outlived : all_outlived retention now t.asked ≡ true
  pub one_count_each : t.deleted + t.failed ≤ length t.asked
  pub of_the_deleted : t.provider_deleted ≤ t.deleted

module _ (o : SweepOutside) (retention : RecordingRetention) (now deadline : ℕ) where
  count-IsAccounted :
      (d : Deletion) (row : SweepRow) (t : Tally)
      → has_outlived (kept_ms retention row.context) row.created_at now ≡ true
      → IsAccounted retention now t
      → IsAccounted retention now (count d (record t { asked = row ∷ t.asked; step = suc t.step }))
  count-IsAccounted (was_deleted true) row t h a = ground arith
  count-IsAccounted (was_deleted false) row t h a = ground arith
  count-IsAccounted was_deleted_before row t h a = ground arith
  count-IsAccounted deletion_failed row t h a = ground arith

  sweep_row-IsAccounted :
      (row : SweepRow) (t : Tally) (late due : Bool)
      → (is_expired (policy_for retention row.context) row.created_at now ≡ due)
      → IsAccounted retention now t
      → IsAccounted retention now (
          if late
          then record t { ran_out_of_time = true }
          else if not due
          then record t { step = suc t.step }
          else ask o retention now deadline row t)
  sweep_row-IsAccounted row t true due e a = record {
    only_outlived = a.only_outlived;
    one_count_each = a.one_count_each;
    of_the_deleted = a.of_the_deleted;
  }
  sweep_row-IsAccounted row t false false e a = record {
    only_outlived = a.only_outlived;
    one_count_each = a.one_count_each;
    of_the_deleted = a.of_the_deleted;
  }
  sweep_row-IsAccounted row t false true e a =
      count-IsAccounted _ row t (policy_for-outlived retention row now e) a

  stop_or :
      (c : Bool) (t u : Tally)
      → IsAccounted retention now t
      → IsAccounted retention now u
      → IsAccounted retention now (if c then t else u)
  stop_or true t u a b = a
  stop_or false t u a b = b

  sweep_rows-IsAccounted :
      (rows : List SweepRow) (t : Tally)
      → IsAccounted retention now t
      → IsAccounted retention now (sweep_rows o retention now deadline rows t)
  unfolding sweep_rows
  sweep_rows-IsAccounted [] t a = a
  sweep_rows-IsAccounted (row ∷ rows) t a = stop_or t.ran_out_of_time _ _ a (
      sweep_rows-IsAccounted rows (sweep_row o retention now deadline row t)
        (sweep_row-IsAccounted row t _ _ refl a))

  sweep_scans-IsAccounted :
      (scans : List ExpiryScan) (t : Tally)
      → IsAccounted retention now t
      → IsAccounted retention now (sweep_scans o retention now deadline scans t)
  unfolding sweep_scans
  sweep_scans-IsAccounted [] t a = a
  sweep_scans-IsAccounted (scan ∷ scans) t a =
      stop_or t.ran_out_of_time _ _ a
        (sweep_scans-IsAccounted scans _ (sweep_rows-IsAccounted (o.answers scan) t a))

  -- Whatever rows the queries of a sweep answer, whatever the clock says and however the deletions go, a
  -- sweep asks to delete only recordings that are older than the settings for their own context, voicemails
  -- or calls, keep them, by the days that the setting names; it counts at most one deletion or failure for each, and no more deletions at Twilio than deletions.
  pub delete_expired-IsAccounted :
      IsAccounted retention now (delete_expired o retention now deadline)
  unfolding delete_expired
  delete_expired-IsAccounted =
      sweep_scans-IsAccounted (expiry_scans retention now) no_tally (record {
        only_outlived = refl;
        one_count_each = omega arith;
        of_the_deleted = omega arith;
      })
