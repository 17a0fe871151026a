-- ===== src/Collect/Archive/Resume.antt =====
-- internal/collect/window.go: the window of new parents that a first and a resumed run enumerate.
use cirewind.Base.{
  ◌+◌, ◌≤◌, ◌≡◌, ◌⊎◌, inl, inr, refl, sym, ap, true, false, List, arith, ok, err, ◌>>=◌, not,
  Result, if◌then◌else◌,
}
use cirewind.Base.Time.{Time, is_zero, before, zero_time}
use cirewind.Collect.Windows.{
  Interval, contains, new_interval, expand_incident_discovery_window, default_archive_overlap,
}
use cirewind.Collect.Archive.{
  WatchedRun, ArchivePlan, narrowed, plan_archive, plan_incremental_archive, archive_from,
}
use cirewind.Collect.Archive.Kept.{plan_archive_result}

-- What the window of a plan promises of the requested one.
abbrev pub Covers : Interval → Time → ArchivePlan → Type 0
Covers requested watermark plan =
    (plan.new_parent_window.to ≡ requested.to)
    × ((t : Time)
        → contains requested t ≡ true
        → (is_zero watermark ≡ true) ⊎ (watermark ≤ t + default_archive_overlap)
        → contains plan.new_parent_window t ≡ true)

planned_window :
    (watermark cutoff : Time) (watched : List WatchedRun) (plan : ArchivePlan)
    → plan_archive watermark cutoff watched ≡ ok plan
    → plan.new_parent_window ≡ record { from = archive_from watermark cutoff; to = cutoff }
planned_window watermark cutoff watched plan h =
    ap (λ p. p.new_parent_window) (sym (plan_archive_result watermark cutoff watched plan h))

abbrev pub first_step : Interval → List WatchedRun → Result ArchivePlan
first_step requested watched = do
  discovery ← expand_incident_discovery_window requested
  plan ← plan_archive zero_time requested.to watched
  ok (record plan { new_parent_window = discovery })

first_step-Covers :
    (requested : Interval) (watermark : Time) (watched : List WatchedRun) (plan : ArchivePlan)
    → first_step requested watched ≡ ok plan
    → Covers requested watermark plan
unfolding expand_incident_discovery_window new_interval contains
first_step-Covers requested watermark watched plan h = (ground arith, λ t c s. ground arith)

resumed_step : Interval → Time → List WatchedRun → Result ArchivePlan
resumed_step requested watermark watched = do
  found ← plan_archive watermark requested.to watched
  let plan = narrowed requested found
  if not (before plan.new_parent_window.from plan.new_parent_window.to)
      then err
          "archive resume interval is empty after applying the requested start and checkpoint overlap"
      else ok plan

resumed-Covers :
    (requested : Interval) (watermark : Time) (watched : List WatchedRun) (found plan : ArchivePlan)
    → is_zero watermark ≡ false
    → found.new_parent_window
      ≡ record { from = archive_from watermark requested.to; to = requested.to }
    → narrowed requested found ≡ plan
    → Covers requested watermark plan
unfolding contains
resumed-Covers requested watermark watched found plan z w e = (ground arith, λ t c s. ground arith)

resumed_step-Covers :
    (requested : Interval) (watermark : Time) (watched : List WatchedRun) (plan : ArchivePlan)
    → is_zero watermark ≡ false
    → resumed_step requested watermark watched ≡ ok plan
    → Covers requested watermark plan
unfolding resumed_step
resumed_step-Covers requested watermark watched plan z h =
    go (plan_archive watermark requested.to watched) refl h
  where
    go :
        (r : Result ArchivePlan)
        → plan_archive watermark requested.to watched ≡ r
        → (r >>= λ found.
            if not (
              before
                (narrowed requested found).new_parent_window.from
                (narrowed requested found).new_parent_window.to)
            then err
                "archive resume interval is empty after applying the requested start and checkpoint overlap"
            else ok (narrowed requested found))
          ≡ ok plan
        → Covers requested watermark plan
    go (err m) e k = cc
    go (ok found) e k =
        resumed-Covers requested watermark watched found plan z
          (planned_window watermark requested.to watched found e) (ground arith)

incremental_step :
    (requested : Interval) (watermark : Time) (watched : List WatchedRun) (plan : ArchivePlan)
    → plan_incremental_archive requested watermark watched ≡ ok plan
    → (first_step requested watched ≡ ok plan)
      ⊎ ((is_zero watermark ≡ false) × (resumed_step requested watermark watched ≡ ok plan))
unfolding plan_incremental_archive new_interval resumed_step
incremental_step requested watermark watched plan h = ground arith

-- When `PlanIncrementalArchive` returns a plan, its window ends at the requested end and holds every
-- instant of the requested interval, on a first run; on a resumed run, every one that is not more
-- than the discovery overlap before the watermark.
pub plan_incremental_archive-Covers :
    (requested : Interval) (watermark : Time) (watched : List WatchedRun) (plan : ArchivePlan)
    → plan_incremental_archive requested watermark watched ≡ ok plan
    → Covers requested watermark plan
plan_incremental_archive-Covers requested watermark watched plan h =
    elim (incremental_step requested watermark watched plan h) [
      | inl e ↦ first_step-Covers requested watermark watched plan e
      | inr (z, e) ↦ resumed_step-Covers requested watermark watched plan z e
    ]
