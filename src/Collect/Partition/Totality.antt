-- ===== src/Collect/Partition/Totality.antt =====
-- The fuel of `walk`: each split leaves strictly shorter windows, so a fuel above the window's length
-- is never used up.
use cirewind.Base.{
  ℕ, zero, suc, ◌+◌, ◌-◌, ◌<◌, ◌≡◌, refl, true, Option, none, some, arith, is_some, Option-cases,
  inl, inr, [], ◌++◌,
}
use cirewind.Base.Int.{ℤ, pos}
use cirewind.Github.{Outcome, RunList, RunProbe}
use cirewind.Collect.Windows.{Interval, split_window}
use cirewind.Collect.Covering.{split_window_ends}
use cirewind.Collect.Partition.{
  created_filter, RunWindowApi, split, gap, NodeInfo, max_ℤ, Progress, Walked, Walker, after_left,
  split_or_saturate, after_list, after_probe, visit, walk,
}

module _ (api : RunWindowApi) (max_partitions min_bucket : ℕ) (repository : ℤ) where
  module _ (recur : Walker) (w : Interval)
      (total : (l : Interval) (p : Progress)
        → l.to - l.from < w.to - w.from
        → is_some (recur l p) ≡ true) where
    after_left-total :
        (info : NodeInfo) (r : Interval) (first : Option Walked)
        → r.to - r.from < w.to - w.from
        → is_some first ≡ true
        → is_some (after_left api max_partitions min_bucket repository recur info r first) ≡ true
    unfolding after_left
    after_left-total info r none h e = cc
    after_left-total info r (some left) h e = ground (arith, total r left.progress h)

    split_or_saturate-total :
        (info : NodeInfo) (p : Progress)
        → info.window ≡ w
        → is_some (split_or_saturate api max_partitions min_bucket repository recur info p) ≡ true
    unfolding split_or_saturate
    split_or_saturate-total info p x = elim (Option-cases (split_window info.window min_bucket)) [
      | inl q ↦ rw (q, split_or_saturate) refl
      | inr (lr, q) ↦
          let (shorter_left, shorter_right) = halves_shorter lr.0 lr.1 (rw x at q) in
          rw (q, split_or_saturate)
            (after_left-total (record info { status = split }) lr.1 (recur lr.0 p) shorter_right
              (total lr.0 p shorter_left))
    ]
      where
        halves_shorter :
            (l r : Interval)
            → split_window w min_bucket ≡ some (l, r)
            → (l.to - l.from < w.to - w.from) × (r.to - r.from < w.to - w.from)
        halves_shorter l r s = omega (arith, split_window_ends w l r min_bucket s)

    after_list-total :
        (info : NodeInfo) (outcome : Outcome RunList) (p : Progress)
        → info.window ≡ w
        → is_some (after_list api max_partitions min_bucket repository recur info w outcome p)
          ≡ true
    unfolding after_list
    after_list-total info outcome p x =
        let seen : NodeInfo = record info {
          responses = info.responses ++ outcome.value.responses;
        } in
        ground (
          arith,
          split_or_saturate-total
              (record seen { total_count = max_ℤ info.total_count outcome.value.total_count }) p x,
        )

    after_probe-total :
        (info : NodeInfo) (outcome : Outcome RunProbe) (p : Progress)
        → info.window ≡ w
        → is_some (after_probe api max_partitions min_bucket repository recur info w outcome p)
          ≡ true
    unfolding after_probe
    after_probe-total info outcome p x =
        let counted : NodeInfo = record info {
          responses = info.responses ++ outcome.value.responses;
          total_count = outcome.value.total_count;
        } in
        ground (
          arith,
          split_or_saturate-total counted p x,
          after_list-total counted (api.list_runs p.work info.filter) p x,
        )

    visit-total :
        (p : Progress) → is_some (visit api max_partitions min_bucket repository recur w p) ≡ true
    unfolding visit
    visit-total p =
        let info : NodeInfo = record {
          window = w;
          filter = created_filter w;
          total_count = pos 0;
          status = gap;
          responses = [];
          run_count = 0;
          overlap_rows = 0;
        } in
        let begun : Progress = record p { work = p.work + 1 } in
        ground (arith, after_probe-total info (api.probe begun.work info.filter) begun refl)

  -- With fuel above the length of its window, the walk returns.
  pub walk_total :
      (fuel : ℕ) (w : Interval) (p : Progress)
      → w.to - w.from < fuel
      → is_some (walk api max_partitions min_bucket repository fuel w p) ≡ true
  unfolding walk
  walk_total zero w p h = absurd (omega arith)
  walk_total (suc fuel) w p h =
      visit-total (walk api max_partitions min_bucket repository fuel) w
        (λ l q shorter. walk_total fuel l q (omega arith)) p
