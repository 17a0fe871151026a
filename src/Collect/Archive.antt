-- ===== src/Collect/Archive.antt =====
-- internal/collect/window.go: the plan of an archive run, which discovers new parents in a window
-- and refreshes the watched runs one by one until they may be evicted.
pub mod Kept
pub mod Resume
pub mod Eviction
mod Samples
use cirewind.Base.{
  ◌+◌, ◌-◌, Bool, true, false, ◌||◌, not, List, [], ◌∷◌, ◌++◌, if◌then◌else◌, Result, ok, err,
  ◌>>=◌,
}
use cirewind.Base.Int.{ℤ, is_positive}
use cirewind.Base.Order.{pair_order, int_order}
use cirewind.Base.Sort.{sort_by}
use cirewind.Base.Time.{Time, is_zero, before, zero_time}
use cirewind.Collect.Windows.{
  Interval, new_interval, expand_incident_discovery_window, provisional_parent_lookback,
  default_archive_overlap,
}

pub record WatchedRun : Type 0 where
  pub repository_id : ℤ
  pub run_id : ℤ
  pub created_at : Time
  pub last_successful_refresh : Time
  pub final_refresh_complete : Bool

-- `ParentLookback` and `DiscoveryOverlap` are the two constants in every plan.
pub record ArchivePlan : Type 0 where
  pub new_parent_window : Interval
  pub refresh : List WatchedRun
  pub eviction_eligible : List WatchedRun

abbrev pub boundary : WatchedRun → Time
boundary run = run.created_at + provisional_parent_lookback

abbrev pub must_refresh : Time → WatchedRun → Bool
must_refresh cutoff run =
    before cutoff (boundary run)
    || not run.final_refresh_complete
    || before run.last_successful_refresh (boundary run)

abbrev pub is_unidentified : WatchedRun → Bool
is_unidentified run =
    not (is_positive run.repository_id) || not (is_positive run.run_id) || is_zero run.created_at

abbrev pub place : Time → WatchedRun → ArchivePlan → ArchivePlan
place cutoff run plan =
    if must_refresh cutoff run
    then record plan { refresh = plan.refresh ++ run ∷ [] }
    else record plan { eviction_eligible = plan.eviction_eligible ++ run ∷ [] }

unfoldable pub place_watched : Time → List WatchedRun → ArchivePlan → Result ArchivePlan
place_watched cutoff [] plan = ok plan
place_watched cutoff (run ∷ rest) plan = elim (is_unidentified run) [
  | true ↦ err "watched run identity and creation time are required"
  | false ↦ place_watched cutoff rest (place cutoff run plan)
]

abbrev pub watched_key : WatchedRun → ℤ × ℤ
watched_key run = (run.repository_id, run.run_id)

-- The two calls of `sortWatched`.
abbrev pub sorted_plan : ArchivePlan → ArchivePlan
sorted_plan plan = record plan {
  refresh = sort_by watched_key plan.refresh;
  eviction_eligible = sort_by watched_key plan.eviction_eligible;
}

abbrev pub archive_from : Time → Time → Time
archive_from watermark cutoff =
    if is_zero watermark
    then cutoff - provisional_parent_lookback
    else watermark - default_archive_overlap

unfoldable pub plan_archive : Time → Time → List WatchedRun → Result ArchivePlan
unfolding place_watched is_zero sort_by
plan_archive watermark cutoff watched =
    if is_zero cutoff
    then err "archive cutoff is required"
    else if not (before (archive_from watermark cutoff) cutoff)
    then err "archive watermark must precede cutoff after overlap"
    else (place_watched cutoff watched (record {
      new_parent_window = record { from = archive_from watermark cutoff; to = cutoff };
      refresh = [];
      eviction_eligible = [];
    })
        >>= λ plan. ok (sorted_plan plan))

-- The window of a resumed collection, no earlier than the requested start.
abbrev pub narrowed : Interval → ArchivePlan → ArchivePlan
narrowed requested plan =
    if before plan.new_parent_window.from requested.from
    then record plan {
      new_parent_window = record { from = requested.from; to = plan.new_parent_window.to };
    }
    else plan

unfoldable pub plan_incremental_archive : Interval → Time → List WatchedRun → Result ArchivePlan
unfolding plan_archive new_interval expand_incident_discovery_window is_zero
plan_incremental_archive requested watermark watched = do
  _ ← new_interval requested.from requested.to
  if is_zero watermark
      then (do
        discovery ← expand_incident_discovery_window requested
        plan ← plan_archive zero_time requested.to watched
        ok (record plan { new_parent_window = discovery }))
      else (do
        found ← plan_archive watermark requested.to watched
        let plan = narrowed requested found
        if not (before plan.new_parent_window.from plan.new_parent_window.to)
            then err
                "archive resume interval is empty after applying the requested start and checkpoint overlap"
            else ok plan)
