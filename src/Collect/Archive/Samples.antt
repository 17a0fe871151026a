-- ===== src/Collect/Archive/Samples.antt =====
-- A first and a resumed run over two watched runs.
use cirewind.Base.{◌-◌, ◌*◌, ◌≡◌, refl, true, false, [], ◌∷◌, ok}
use cirewind.Base.Int.{pos}
use cirewind.Base.Time.{Time, second}
use cirewind.Collect.Windows.{Interval, default_archive_overlap, provisional_parent_lookback}
use cirewind.Collect.Archive.{WatchedRun, ArchivePlan, plan_archive, plan_incremental_archive}
use cirewind.Collect.Archive.Eviction.{IsPlanOf, plan_archive_evicts}
use cirewind.Collect.Archive.Resume.{Covers, plan_incremental_archive-Covers}

abbrev cutoff : Time
cutoff = 9223372100000000000_000000000

abbrev watermark : Time
watermark = cutoff - 3600 * second

abbrev fresh : WatchedRun
fresh = record {
  repository_id = pos 7;
  run_id = pos 2;
  created_at = cutoff - 7200 * second;
  last_successful_refresh = cutoff - 3600 * second;
  final_refresh_complete = false;
}

abbrev old : WatchedRun
old = record {
  repository_id = pos 7;
  run_id = pos 1;
  created_at = cutoff - provisional_parent_lookback - 7200 * second;
  last_successful_refresh = cutoff - 3600 * second;
  final_refresh_complete = true;
}

abbrev plan : ArchivePlan
plan = record {
  new_parent_window = record { from = watermark - default_archive_overlap; to = cutoff };
  refresh = fresh ∷ [];
  eviction_eligible = old ∷ [];
}

plans : plan_archive watermark cutoff (fresh ∷ old ∷ []) ≡ ok plan
unfolding plan_archive
plans = refl

plan_archive_evicts_example : IsPlanOf cutoff (fresh ∷ old ∷ []) plan
plan_archive_evicts_example = plan_archive_evicts watermark cutoff (fresh ∷ old ∷ []) plan plans

abbrev requested : Interval
requested = record { from = cutoff - 9000 * second; to = cutoff }

resumes : plan_incremental_archive requested watermark (fresh ∷ old ∷ []) ≡ ok plan
unfolding plan_incremental_archive
resumes = refl

plan_incremental_archive-Covers_example : Covers requested watermark plan
plan_incremental_archive-Covers_example =
    plan_incremental_archive-Covers requested watermark (fresh ∷ old ∷ []) plan resumes
