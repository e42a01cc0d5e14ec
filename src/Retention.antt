-- ===== src/Retention.antt =====
-- How long recordings are kept, and the expiries of a sweep (apps/api/src/calls/retention.ts,
-- retention-sweep.service.ts, packages/dto/src/admin/settings.schemas.ts). Instants are milliseconds; a
-- cutoff before the first instant is the first, which no recording predates either.
pub mod Expiries
use iziphone.Prelude.{
  ℕ, suc, ◌+◌, ◌-◌, ◌*◌, Bool, true, false, not, Option, none, some, List, [], ◌∷◌, ltb,
  if◌then◌else◌,
}
use iziphone.Domain.{Text}
use iziphone.Controller.Effects.{RecordingContext, voicemail_recording, conference_recording}

-- `RecordingRetentionPolicySchema`
pub data RetentionPolicy : Type 0 where
  keep_until_deleted days_30 days_60 days_90 days_180 : RetentionPolicy
  years_1 years_2 years_3 years_5 years_7 : RetentionPolicy

-- `retentionDays`
unfoldable pub retention_days : RetentionPolicy → Option ℕ
retention_days keep_until_deleted = none
retention_days days_30 = some 30
retention_days days_60 = some 60
retention_days days_90 = some 90
retention_days days_180 = some 180
retention_days years_1 = some 365
retention_days years_2 = some (2 * 365)
retention_days years_3 = some (3 * 365)
retention_days years_5 = some (5 * 365)
retention_days years_7 = some (7 * 365)

abbrev pub day_ms : ℕ
day_ms = 24 * 60 * 60 * 1000

pub record RecordingRetention : Type 0 where
  pub voicemail : RetentionPolicy
  pub call_recordings : RetentionPolicy

-- `policyFor`
unfoldable pub policy_for : RecordingRetention → RecordingContext → RetentionPolicy
policy_for retention voicemail_recording = retention.voicemail
policy_for retention conference_recording = retention.call_recordings

abbrev pub cutoff_of : Option ℕ → ℕ → Option ℕ
cutoff_of none now = none
cutoff_of (some days) now = some (now - days * day_ms)

-- `retentionCutoff`
unfoldable pub retention_cutoff : RetentionPolicy → ℕ → Option ℕ
unfolding retention_days
retention_cutoff policy now = cutoff_of (retention_days policy) now

abbrev pub predates : ℕ → Option ℕ → Bool
predates created none = false
predates created (some cutoff) = ltb created cutoff

-- `isExpired`
unfoldable pub is_expired : RetentionPolicy → ℕ → ℕ → Bool
unfolding retention_cutoff
is_expired policy created now = predates created (retention_cutoff policy now)

pub record ExpiryScan : Type 0 where
  pub context : RecordingContext
  pub cutoff : ℕ

abbrev pub scan_before : RecordingContext → Option ℕ → List ExpiryScan → List ExpiryScan
scan_before context none scans = scans
scan_before context (some cutoff) scans = record { context = context; cutoff = cutoff } ∷ scans

-- `expiryScans`
unfoldable pub expiry_scans : RecordingRetention → ℕ → List ExpiryScan
unfolding retention_cutoff policy_for
expiry_scans retention now =
    scan_before voicemail_recording
      (retention_cutoff (policy_for retention voicemail_recording) now)
      (scan_before conference_recording
        (retention_cutoff (policy_for retention conference_recording) now) [])

-- `hasTimeLeft`
abbrev pub has_time_left : ℕ → ℕ → Bool
has_time_left deadline now = ltb now deadline

-- A recording as the sweep selects it.
pub record SweepRow : Type 0 where
  pub id : Text
  pub context : RecordingContext
  pub created_at : ℕ

-- What `deleteAudio` answers.
pub data Deletion : Type 0 where
  was_deleted : Bool → Deletion
  was_deleted_before : Deletion
  deletion_failed : Deletion

-- The counts of a pass, and the recordings whose audio it asked to delete, the latest first.
pub record Tally : Type 0 where
  pub deleted : ℕ
  pub provider_deleted : ℕ
  pub failed : ℕ
  pub ran_out_of_time : Bool
  pub asked : List SweepRow
  pub step : ℕ

abbrev pub no_tally : Tally
no_tally = record {
  deleted = 0;
  provider_deleted = 0;
  failed = 0;
  ran_out_of_time = false;
  asked = [];
  step = 0;
}

abbrev pub count : Deletion → Tally → Tally
count (was_deleted true) t = record t {
  deleted = suc t.deleted;
  provider_deleted = suc t.provider_deleted;
}
count (was_deleted false) t = record t { deleted = suc t.deleted }
count was_deleted_before t = t
count deletion_failed t = record t { failed = suc t.failed }

-- What the outside answers a sweep: the rows of a query, the clock and a deletion, the last two by the
-- number of the step that asks.
pub record SweepOutside : Type 0 where
  pub answers : ExpiryScan → List SweepRow
  pub clock : ℕ → ℕ
  pub deletions : ℕ → SweepRow → Deletion

module _ (o : SweepOutside) (retention : RecordingRetention) (now deadline : ℕ) where
  abbrev pub outlived : SweepRow → Bool
  outlived row = is_expired (policy_for retention row.context) row.created_at now

  abbrev pub ask : SweepRow → Tally → Tally
  ask row t = count (o.deletions t.step row) (record t { asked = row ∷ t.asked; step = suc t.step })

  abbrev pub sweep_row : SweepRow → Tally → Tally
  sweep_row row t =
      if not (has_time_left deadline (o.clock t.step))
      then record t { ran_out_of_time = true }
      else if not (outlived row)
      then record t { step = suc t.step }
      else ask row t

  -- The rows of a scan. A pass that has run out of time stops.
  unfoldable pub sweep_rows : List SweepRow → Tally → Tally
  unfolding is_expired policy_for
  sweep_rows [] t = t
  sweep_rows (row ∷ rows) t = if t.ran_out_of_time then t else sweep_rows rows (sweep_row row t)

  unfoldable pub sweep_scans : List ExpiryScan → Tally → Tally
  unfolding sweep_rows
  sweep_scans [] t = t
  sweep_scans (scan ∷ scans) t =
      if t.ran_out_of_time then t else sweep_scans scans (sweep_rows (o.answers scan) t)

  -- `deleteExpired`
  unfoldable pub delete_expired : Tally
  unfolding sweep_scans expiry_scans
  delete_expired = sweep_scans (expiry_scans retention now) no_tally
