-- ===== src/Collect/Archive/Eviction.antt =====
-- internal/collect/window.go: which watched runs a plan refreshes, and which it lets go.
use mathlib.Core.List.{Perm}
use mathlib.Core.List.Perm
use mathlib.Core.Path.{subst}
use cirewind.Base.{
  ◌≤◌, ◌≡◌, Bool, not, true, false, List, ◌++◌, arith, All, keep, All-map, ok, All-keep,
}
use cirewind.Base.Order.{pair_order, int_order}
use cirewind.Base.Sort.{IsSorted, sort_by-perm, sort_by-IsSorted, All-sort_by}
use cirewind.Base.Split.{keep-Perm, All-keep_not}
use cirewind.Base.Time.{Time}
use cirewind.Collect.Archive.{
  WatchedRun, ArchivePlan, must_refresh, boundary, watched_key, plan_archive, sorted_plan,
}
use cirewind.Collect.Archive.Kept.{placed, bare_plan, plan_archive_result}

-- Past the run's horizon at the cutoff, with a final refresh that succeeded past it too.
abbrev pub IsSettled : Time → WatchedRun → Type 0
IsSettled cutoff run =
    (boundary run ≤ cutoff)
    × (run.final_refresh_complete ≡ true)
    × (boundary run ≤ run.last_successful_refresh)

abbrev pub IsPlanOf : Time → List WatchedRun → ArchivePlan → Type 0
IsPlanOf cutoff watched plan =
    Perm (plan.refresh ++ plan.eviction_eligible) watched
    × All (IsSettled cutoff) plan.eviction_eligible
    × All (λ run. ¬ (IsSettled cutoff run)) plan.refresh
    × IsSorted watched_key plan.refresh
    × IsSorted watched_key plan.eviction_eligible

settled :
    (cutoff : Time) (run : WatchedRun) → must_refresh cutoff run ≡ false → IsSettled cutoff run
settled cutoff run h = ground arith

unsettled :
    (cutoff : Time) (run : WatchedRun) → must_refresh cutoff run ≡ true → ¬ (IsSettled cutoff run)
unsettled cutoff run h (b, f, r) = ground arith

IsPlanOf-placed :
    (watermark cutoff : Time) (watched : List WatchedRun)
    → IsPlanOf cutoff watched (sorted_plan (placed cutoff watched (bare_plan watermark cutoff)))
IsPlanOf-placed watermark cutoff watched =
    let may_evict : WatchedRun → Bool = λ x. not (must_refresh cutoff x) in
    let refresh = keep (must_refresh cutoff) watched in
    let evict = keep may_evict watched in
    (
      Perm.trans (Perm.append (sort_by-perm watched_key refresh) (sort_by-perm watched_key evict))
          (keep-Perm (must_refresh cutoff) watched),
      All-sort_by watched_key (IsSettled cutoff) evict (
          All-map (λ x. must_refresh cutoff x ≡ false) (IsSettled cutoff) (settled cutoff) evict
            (All-keep_not (must_refresh cutoff) watched)),
      All-sort_by watched_key (λ x. ¬ (IsSettled cutoff x)) refresh
          (All-map (λ x. must_refresh cutoff x ≡ true) (λ x. ¬ (IsSettled cutoff x))
            (unsettled cutoff) refresh (All-keep (must_refresh cutoff) watched)),
      sort_by-IsSorted watched_key refresh,
      sort_by-IsSorted watched_key evict,
    )

-- When `PlanArchive` returns a plan, every watched run is in exactly one of its two lists, as often
-- as it was watched. A run may be evicted only when the cutoff is at or past its horizon and its
-- final refresh succeeded at or past it; a run that this does not hold of is refreshed. Both lists
-- are sorted by repository and run.
pub plan_archive_evicts :
    (watermark cutoff : Time) (watched : List WatchedRun) (plan : ArchivePlan)
    → plan_archive watermark cutoff watched ≡ ok plan
    → IsPlanOf cutoff watched plan
plan_archive_evicts watermark cutoff watched plan h =
    subst (IsPlanOf cutoff watched) (plan_archive_result watermark cutoff watched plan h)
      (IsPlanOf-placed watermark cutoff watched)
