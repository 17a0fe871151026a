-- ===== src/Collect/Partition/Found.antt =====
-- Every walk keeps the contract of `Windowed`: its ends one by one, then the walk.
use cirewind.Base.{
  ℕ, suc, ◌≤◌, ◌≡◌, sym, ◌∙◌, Bool, true, false, ap, some, List, [], ◌++◌, arith, length,
  length-append, keep, any, All, All-append, All-map, All-keep, Bool-cases, inl, inr,
}
use cirewind.Base.Int.{ℤ, pos, ltb_ℤ}
use cirewind.Base.Time.{truncate_second}
use cirewind.Github.{WorkflowRun, RunList}
use cirewind.Collect.Gaps.{Gap}
use cirewind.Collect.Windows.{Interval, contains, split_window}
use cirewind.Collect.Covering.{IsAligned, split_window_ends, split_window_exact}
use cirewind.Collect.Partition.{
  created_filter, RunWindowApi, PartitionStatus, split, NodeInfo, node, nil, cons, Progress, Walked,
  add_gap, ended, listed_rows, walk,
}
use cirewind.Collect.Partition.Rule.{IsUsable, walk-rule, OnSome}
use cirewind.Collect.Partition.Windowed.{
  is_row, Serves, Contract, length-add_gap, any-append_left, any-append_right, keep-inside_any,
}

module _ (api : RunWindowApi) (max_partitions min_bucket : ℕ) (repository : ℤ) where
  module _ (info : NodeInfo) (w : Interval) (listed : RunList) (p : Progress) where
    abbrev rows : Walked
    rows = listed_rows api max_partitions min_bucket repository info w listed p

    runs-listed_rows : rows.runs ≡ keep (λ x. contains w x.created_at) listed.runs
    unfolding listed_rows
    runs-listed_rows = ground arith

    stopped-listed_rows : rows.stopped ≡ false
    unfolding listed_rows
    stopped-listed_rows = ground arith

    grows-listed_rows : length p.gaps ≤ length rows.progress.gaps
    unfolding listed_rows
    grows-listed_rows = grind (arith, length-append)

    whole-listed_rows :
        length rows.progress.gaps ≡ length p.gaps
        → ltb_ℤ (pos (length listed.runs)) listed.total_count ≡ false
    unfolding listed_rows
    whole-listed_rows e = grind (arith, length-append)

  module _ (r : WorkflowRun) (serves : Serves api r) where
    gap_end :
        (w : Interval) (p p' : Progress) (info : NodeInfo) (s : PartitionStatus) (b : Bool)
        (g : Gap)
        → p'.gaps ≡ p.gaps
        → Contract r w p (ended info s [] b (add_gap p' g))
    gap_end w p p' info s b g e =
        let more : length (add_gap p' g).gaps ≡ suc (length p.gaps) = length-add_gap p p' g e in
        record {
          within = tt;
          grows = omega (arith, more);
          stopping = λ _. omega (arith, more);
          found = λ _ _ same. absurd (omega (arith, more, same));
        }

    -- The filter of an aligned window holds the instants of the window.
    filter_covers :
        (w : Interval) (t : ℕ)
        → IsAligned w
        → contains w t ≡ true
        → ((created_filter w).lo ≤ t) × (t ≤ (created_filter w).hi)
    unfolding created_filter contains truncate_second
    filter_covers w t a c = ground arith

    list_end :
        (w : Interval) (p p' : Progress) (info : NodeInfo) (n : ℕ)
        → p'.gaps ≡ p.gaps
        → IsUsable (api.list_runs n (created_filter w))
        → Contract r w p (rows info w (api.list_runs n (created_filter w)).value p')
    list_end w p p' info n e usable =
        let listed = (api.list_runs n (created_filter w)).value in
        let from_list = runs-listed_rows info w listed p' in
        record {
          within = rw from_list (All-keep (λ x. contains w x.created_at) listed.runs);
          grows = omega (arith, grows-listed_rows info w listed p', ap length e);
          stopping = λ s. cc (stopped-listed_rows info w listed p');
          found = λ a c same. rw from_list (
              keep-inside_any r w listed.runs c (
                serves.shows n (created_filter w) usable
                  (whole-listed_rows info w listed p' (same ∙ ap length (sym e)))
                  (filter_covers w r.created_at a c).0 (filter_covers w r.created_at a c).1));
        }

    -- What the halves found lies in the window.
    widen :
        (w l h : Interval)
        → split_window w min_bucket ≡ some (l, h)
        → (runs : List WorkflowRun) → All (λ x. contains l x.created_at ≡ true) runs
        → All (λ x. contains w x.created_at ≡ true) runs
    widen w l h s runs =
        All-map (λ (x : WorkflowRun). contains l x.created_at ≡ true)
          (λ x. contains w x.created_at ≡ true)
          (λ x k. ground (arith, split_window_exact w l h min_bucket s x.created_at)) runs

    widen_right :
        (w l h : Interval)
        → split_window w min_bucket ≡ some (l, h)
        → (runs : List WorkflowRun) → All (λ x. contains h x.created_at ≡ true) runs
        → All (λ x. contains w x.created_at ≡ true) runs
    widen_right w l h s runs =
        All-map (λ (x : WorkflowRun). contains h x.created_at ≡ true)
          (λ x. contains w x.created_at ≡ true)
          (λ x k. ground (arith, split_window_exact w l h min_bucket s x.created_at)) runs

    left_only :
        (w l h : Interval) (p p' : Progress) (info : NodeInfo) (left : Walked)
        → p'.gaps ≡ p.gaps
        → split_window w min_bucket ≡ some (l, h)
        → left.stopped ≡ true
        → Contract r l p' left
        → Contract r w p (record {
          runs = left.runs;
          root = node (record info { status = split }) (cons left.root nil);
          stopped = true;
          progress = left.progress;
        })
    left_only w l h p p' info left e s b k = record {
      within = widen w l h s left.runs k.within;
      grows = omega (arith, k.grows, ap length e);
      stopping = λ _. omega (arith, k.stopping b, ap length e);
      found = λ a c same. absurd (omega (arith, k.stopping b, ap length e, same));
    }

    IsAligned-halves :
        (w l h : Interval)
        → split_window w min_bucket ≡ some (l, h)
        → IsAligned w
        → IsAligned l × IsAligned h
    IsAligned-halves w l h s a = ground (arith, split_window_ends w l h min_bucket s)

    found_between :
        (w l h : Interval) (p p' : Progress) (left right : Walked)
        → p'.gaps ≡ p.gaps
        → split_window w min_bucket ≡ some (l, h)
        → Contract r l p' left
        → Contract r h left.progress right
        → IsAligned w
        → contains w r.created_at ≡ true
        → length right.progress.gaps ≡ length p.gaps
        → any (is_row r) (left.runs ++ right.runs) ≡ true
    found_between w l h p p' left right e s k m a c same =
        elim (Bool-cases (contains l r.created_at)) [
          | inl d ↦ any-append_left (is_row r) left.runs right.runs (
              k.found (IsAligned-halves w l h s a).0 d
                (omega (arith, k.grows, m.grows, ap length e, same)))
          | inr d ↦ any-append_right (is_row r) left.runs right.runs (
              m.found (IsAligned-halves w l h s a).1
                (ground (arith, split_window_exact w l h min_bucket s r.created_at))
                (omega (arith, k.grows, m.grows, ap length e, same)))
        ]

    halves :
        (w l h : Interval) (p p' : Progress) (info : NodeInfo) (left right : Walked)
        → p'.gaps ≡ p.gaps
        → split_window w min_bucket ≡ some (l, h)
        → Contract r l p' left
        → Contract r h left.progress right
        → Contract r w p (record {
          runs = left.runs ++ right.runs;
          root = node (record info { status = split }) (cons left.root (cons right.root nil));
          stopped = right.stopped;
          progress = right.progress;
        })
    halves w l h p p' info left right e s k m = record {
      within =
          All-append (λ x. contains w x.created_at ≡ true) left.runs right.runs
            (widen w l h s left.runs k.within) (widen_right w l h s right.runs m.within);
      grows = omega (arith, k.grows, m.grows, ap length e);
      stopping = λ b. omega (arith, k.grows, m.stopping b, ap length e);
      found = λ a c same. found_between w l h p p' left right e s k m a c same;
    }

    -- Whatever a walk of the window returns is in the window; stopping early adds a gap; and where the walk of a window of whole seconds adds no gap, a
    -- run of the window is among what it returns.
    pub walk-Contract :
        (fuel : ℕ) (w : Interval) (p : Progress)
        → OnSome (Contract r w p) (walk api max_partitions min_bucket repository fuel w p)
    walk-Contract =
        walk-rule api max_partitions min_bucket repository (Contract r) (record {
          gap_end = gap_end;
          list_end = list_end;
          halves = halves;
          left_only = left_only;
        })
