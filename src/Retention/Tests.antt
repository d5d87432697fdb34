-- ===== src/Retention/Tests.antt =====
-- A plan for concrete files (src/recording/retention.cpp).
use rtmp_core.Base.{ℕ, ◌≡◌, refl, List, [], ◌∷◌, arith}
use rtmp_core.Retention.{
  RetentionPolicy, RecordingFile, plan_retention, run_passes, sort_files, insert_file, unmarked,
  drop_old, drop_many, drop_large, surviving, total_bytes_of, bytes_of_files,
}
use rtmp_core.Retention.Limits.{size_all}
use rtmp_core.Retention.Plan.{Deletes, plan_retention-Deletes}

abbrev recording : ℕ → ℕ → ℕ → RecordingFile
recording name size time = record { path = name ∷ []; size_bytes = size; modified = time }

abbrev recordings : List RecordingFile
recordings = recording 1 50 300 ∷ recording 2 60 100 ∷ recording 3 70 200 ∷ []

abbrev policy : RetentionPolicy
policy = record { max_age = 0; max_files = 2; max_total_bytes = 100 }

-- The two oldest go: one for the count, one for the size.
plan : plan_retention recordings policy 400 ≡ record {
  to_delete = (2 ∷ []) ∷ (3 ∷ []) ∷ [];
  bytes_reclaimed = 130;
  files_kept = 1;
  bytes_kept = 50;
}
unfolding plan_retention run_passes sort_files insert_file unmarked drop_old drop_many drop_large
    surviving total_bytes_of bytes_of_files
plan = refl

plan_retention-Deletes_example :
    Deletes policy 400 recordings (plan_retention recordings policy 400)
unfolding size_all
plan_retention-Deletes_example = plan_retention-Deletes recordings policy 400 (omega arith)
