-- ===== src/Collect/Archive/Kept.antt =====
-- internal/collect/window.go: what the plan does with the watched runs.
use mathlib.Core.List.{append-nil, append_assoc}
use cirewind.Base.{
  ◌≡◌, refl, sym, ap, ◌∙◌, ||-eq_false, Bool, true, false, ◌&&◌, not, List, [], ◌∷◌, ◌++◌, arith,
  keep, ok, passes, any, ok-injective,
}
use cirewind.Base.Order.{pair_order, int_order}
use cirewind.Base.Time.{Time, is_zero, before}
use cirewind.Collect.Archive.{
  WatchedRun, ArchivePlan, must_refresh, is_unidentified, place, place_watched, archive_from,
  plan_archive, sorted_plan,
}

abbrev may_evict : Time → WatchedRun → Bool
may_evict cutoff run = not (must_refresh cutoff run)

-- The plan that the loop leaves, of the plan that it starts from.
abbrev pub placed : Time → List WatchedRun → ArchivePlan → ArchivePlan
placed cutoff xs plan = record plan {
  refresh = plan.refresh ++ keep (must_refresh cutoff) xs;
  eviction_eligible = plan.eviction_eligible ++ keep (may_evict cutoff) xs;
}

placed-nil : (cutoff : Time) (plan : ArchivePlan) → placed cutoff [] plan ≡ plan
placed-nil cutoff plan = cc (append-nil plan.refresh, append-nil plan.eviction_eligible)

placed-cons :
    (cutoff : Time) (run : WatchedRun) (rest : List WatchedRun) (plan : ArchivePlan)
    → placed cutoff rest (place cutoff run plan) ≡ placed cutoff (run ∷ rest) plan
placed-cons cutoff run rest plan = ground (
  arith,
  append_assoc plan.refresh (run ∷ []) (keep (must_refresh cutoff) rest),
  append_assoc plan.eviction_eligible (run ∷ []) (keep (may_evict cutoff) rest),
)

place_watched-next :
    (cutoff : Time) (run : WatchedRun) (rest : List WatchedRun) (plan : ArchivePlan)
    → is_unidentified run ≡ false
    → place_watched cutoff (run ∷ rest) plan ≡ place_watched cutoff rest (place cutoff run plan)
unfolding place_watched
place_watched-next cutoff run rest plan h = ground arith

pub place_watched_lem :
    (cutoff : Time) (xs : List WatchedRun) (plan : ArchivePlan)
    → any is_unidentified xs ≡ false
    → place_watched cutoff xs plan ≡ ok (placed cutoff xs plan)
unfolding place_watched
place_watched_lem cutoff [] plan h = ap ok (sym (placed-nil cutoff plan))
place_watched_lem cutoff (run ∷ rest) plan h =
    let hs = ||-eq_false (is_unidentified run) (any is_unidentified rest) h in
    place_watched-next cutoff run rest plan hs.0
    ∙ place_watched_lem cutoff rest (place cutoff run plan) hs.1
    ∙ ap ok (placed-cons cutoff run rest plan)

pub passes-place_watched :
    (cutoff : Time) (xs : List WatchedRun) (plan : ArchivePlan)
    → passes (place_watched cutoff xs plan) ≡ not (any is_unidentified xs)
unfolding place_watched
passes-place_watched cutoff [] plan = refl
passes-place_watched cutoff (run ∷ rest) plan =
    ground (arith, passes-place_watched cutoff rest (place cutoff run plan))

abbrev pub bare_plan : Time → Time → ArchivePlan
bare_plan watermark cutoff = record {
  new_parent_window = record { from = archive_from watermark cutoff; to = cutoff };
  refresh = [];
  eviction_eligible = [];
}

-- When `PlanArchive` returns no error.
abbrev pub is_plannable : Time → Time → List WatchedRun → Bool
is_plannable watermark cutoff watched =
    not (is_zero cutoff)
    && (before (archive_from watermark cutoff) cutoff && not (any is_unidentified watched))

pub passes-plan_archive :
    (watermark cutoff : Time) (watched : List WatchedRun)
    → passes (plan_archive watermark cutoff watched) ≡ is_plannable watermark cutoff watched
unfolding plan_archive
passes-plan_archive watermark cutoff watched =
    ground (arith, passes-place_watched cutoff watched (bare_plan watermark cutoff))

pub plan_archive_lem :
    (watermark cutoff : Time) (watched : List WatchedRun)
    → is_plannable watermark cutoff watched ≡ true
    → plan_archive watermark cutoff watched
      ≡ ok (sorted_plan (placed cutoff watched (bare_plan watermark cutoff)))
unfolding plan_archive
plan_archive_lem watermark cutoff watched h =
    ground (arith, place_watched_lem cutoff watched (bare_plan watermark cutoff))

plannable :
    (watermark cutoff : Time) (watched : List WatchedRun) (plan : ArchivePlan)
    → plan_archive watermark cutoff watched ≡ ok plan
    → is_plannable watermark cutoff watched ≡ true
plannable watermark cutoff watched plan h =
    sym (passes-plan_archive watermark cutoff watched) ∙ ap passes h

pub plan_archive_result :
    (watermark cutoff : Time) (watched : List WatchedRun) (plan : ArchivePlan)
    → plan_archive watermark cutoff watched ≡ ok plan
    → sorted_plan (placed cutoff watched (bare_plan watermark cutoff)) ≡ plan
plan_archive_result watermark cutoff watched plan h =
    ok-injective (sorted_plan (placed cutoff watched (bare_plan watermark cutoff))) plan (
      sym (plan_archive_lem watermark cutoff watched (plannable watermark cutoff watched plan h))
      ∙ h)
