-- ===== src/Examples/Sweeps.antt =====
-- A sweep whose query also answers rows that it must not delete.
use iziphone.Prelude.{◌+◌, List, [], ◌∷◌, true, ◌==◌, if◌then◌else◌}
use iziphone.Controller.Effects.{voicemail_recording, conference_recording}
use iziphone.Retention.{
  RecordingRetention, days_30, keep_until_deleted, SweepRow, SweepOutside, was_deleted,
  deletion_failed, delete_expired,
}
use iziphone.Retention.Expiries.{IsAccounted, delete_expired-IsAccounted}

abbrev kept_a_month : RecordingRetention
kept_a_month = record { voicemail = days_30; call_recordings = keep_until_deleted }

-- An old voicemail, another whose deletion fails, an old recording of a call and a new voicemail.
abbrev found_rows : List SweepRow
found_rows =
    record { id = 1; context = voicemail_recording; created_at = 1000 }
    ∷ record { id = 2; context = voicemail_recording; created_at = 2000 }
    ∷ record { id = 3; context = conference_recording; created_at = 1000 }
    ∷ record { id = 4; context = voicemail_recording; created_at = 4999999999 }
    ∷ []

abbrev database : SweepOutside
database = record {
  answers = λ scan. found_rows;
  clock = λ n. 5000000000 + n;
  deletions = λ n row. if row.id == 2 then deletion_failed else was_deleted true;
}

delete_expired-IsAccounted_example :
    IsAccounted kept_a_month 5000000000 (delete_expired database kept_a_month 5000000000 5000600000)
delete_expired-IsAccounted_example =
    delete_expired-IsAccounted database kept_a_month 5000000000 5000600000
