-- ===== src/Collect/Partition/Rule.antt =====
-- The induction rule of `walk`: what holds of every way in which one call can end, holds of the walk.
use cirewind.Base.{
  ℕ, zero, suc, ◌+◌, ◌≡◌, refl, Bool, true, false, ◌||◌, not, Option, none, some, [], ◌++◌,
  Bool-cases, Option-cases, inl, inr, arith, ltb,
}
use cirewind.Base.Int.{ℤ, pos, ltb_ℤ}
use cirewind.Github.{Outcome, RunList, RunProbe}
use cirewind.Collect.Gaps.{Gap, density_ceiling}
use cirewind.Collect.Windows.{Interval, split_window}
use cirewind.Collect.Partition.{
  created_filter, RunWindowApi, PartitionStatus, split, gap, NodeInfo, node, nil, cons, max_ℤ,
  Progress, Walked, add_gap, ended, saturated, partition_gap, listed_rows, both, after_left,
  split_or_saturate, after_list, after_probe, visit, walk, Walker,
}

abbrev pub OnSome {ℓ κ} : {A : Type ℓ} → (A → Type κ) → Option A → Type κ
OnSome P none = Unit
OnSome P (some a) = P a

-- What a listing has to be for its rows to be taken.
pub record IsUsable (outcome : Outcome RunList) : Type 0 where
  pub success : outcome.failure ≡ none
  pub whole : outcome.value.truncated ≡ false
  pub under_ceiling : ltb_ℤ outcome.value.total_count (pos 1000) ≡ true

module _ (api : RunWindowApi) (max_partitions min_bucket : ℕ) (repository : ℤ) where
  -- How a walk can end, for a claim `Q` about its window, its start and its result.
  pub record Closed (Q : Interval → Progress → Walked → Type 0) : Type 0 where
    pub gap_end :
        (w : Interval) (p p' : Progress) (info : NodeInfo) (s : PartitionStatus) (b : Bool)
        (g : Gap)
        → p'.gaps ≡ p.gaps
        → Q w p (ended info s [] b (add_gap p' g))
    pub list_end :
        (w : Interval) (p p' : Progress) (info : NodeInfo) (n : ℕ)
        → p'.gaps ≡ p.gaps
        → IsUsable (api.list_runs n (created_filter w))
        → Q w p (
            listed_rows api max_partitions min_bucket repository info w
              (api.list_runs n (created_filter w)).value
              p')
    pub halves :
        (w l r : Interval) (p p' : Progress) (info : NodeInfo) (left right : Walked)
        → p'.gaps ≡ p.gaps
        → split_window w min_bucket ≡ some (l, r)
        → Q l p' left
        → Q r left.progress right
        → Q w p (record {
          runs = left.runs ++ right.runs;
          root = node (record info { status = split }) (cons left.root (cons right.root nil));
          stopped = right.stopped;
          progress = right.progress;
        })
    pub left_only :
        (w l r : Interval) (p p' : Progress) (info : NodeInfo) (left : Walked)
        → p'.gaps ≡ p.gaps
        → split_window w min_bucket ≡ some (l, r)
        → left.stopped ≡ true
        → Q l p' left
        → Q w p (record {
          runs = left.runs;
          root = node (record info { status = split }) (cons left.root nil);
          stopped = true;
          progress = left.progress;
        })

  module _ (Q : Interval → Progress → Walked → Type 0) (closed : Closed Q) (recur : Walker)
      (keeps : (w : Interval) (p : Progress) → OnSome (Q w p) (recur w p)) (w : Interval)
      (p : Progress) where
    abbrev Holds : Option Walked → Type 0
    Holds = OnSome (Q w p)

    after_left-rule :
        (l r : Interval) (p' : Progress) (info : NodeInfo) (first : Option Walked)
        → p'.gaps ≡ p.gaps
        → split_window w min_bucket ≡ some (l, r)
        → OnSome (Q l p') first
        → Holds (
            after_left api max_partitions min_bucket repository recur
              (record info { status = split })
              r
              first)
    unfolding after_left
    after_left-rule l r p' info none e s h = tt
    after_left-rule l r p' info (some left) e s h =
        go left.stopped refl (recur r left.progress) (keeps r left.progress)
      where
        go :
            (b : Bool)
            → left.stopped ≡ b
            → (second : Option Walked) → OnSome (Q r left.progress) second
            → Holds (elim b [
              | true ↦ some (record {
                runs = left.runs;
                root = node (record info { status = split }) (cons left.root nil);
                stopped = true;
                progress = left.progress;
              })
              | false ↦
                  both api max_partitions min_bucket repository
                    (record info { status = split })
                    left
                    second
            ])
        go true x second k = closed.left_only w l r p p' info left e s x h
        go false x none k = tt
        go false x (some right) k = closed.halves w l r p p' info left right e s h k

    split_or_saturate-rule :
        (p' : Progress) (info : NodeInfo)
        → p'.gaps ≡ p.gaps
        → info.window ≡ w
        → Holds (split_or_saturate api max_partitions min_bucket repository recur info p')
    unfolding split_or_saturate
    split_or_saturate-rule p' info e x = go (split_window info.window min_bucket) (rw x refl)
      where
        go :
            (s : Option (Interval × Interval))
            → split_window w min_bucket ≡ s
            → Holds (elim s [
              | none ↦ some (
                  ended info saturated [] false (
                    add_gap p' (
                      partition_gap api max_partitions min_bucket repository density_ceiling false
                        "smallest supported timestamp bucket reached the filtered-search ceiling")))
              | some (left, right) ↦
                  after_left api max_partitions min_bucket repository recur
                    (record info { status = split })
                    right
                    (recur left p')
            ])
        go none s = closed.gap_end w p p' info saturated false _ e
        go (some (l, r)) s = after_left-rule l r p' info (recur l p') e s (keeps l p')

    after_list-rule :
        (p' : Progress) (info : NodeInfo) (n : ℕ)
        → p'.gaps ≡ p.gaps
        → info.window ≡ w
        → Holds (
            after_list api max_partitions min_bucket repository recur info w
              (api.list_runs n (created_filter w))
              p')
    unfolding after_list
    after_list-rule p' info n e x =
        let outcome = api.list_runs n (created_filter w) in
        let at_ceiling =
          outcome.value.truncated || not (ltb_ℤ outcome.value.total_count (pos 1000)) in
        let seen : NodeInfo = record info {
          responses = info.responses ++ outcome.value.responses;
        } in
        elim (Option-cases outcome.failure) [
          | inr (err, q) ↦
              rw (q, after_list) (closed.gap_end w p p' seen gap err.is_context_error _ e)
          | inl q ↦ elim (Bool-cases at_ceiling) [
            | inl c ↦
                rw (q, c, after_list)
                  (split_or_saturate-rule p'
                    (record seen { total_count = max_ℤ info.total_count outcome.value.total_count })
                    e x)
            | inr c ↦
                rw (q, c, after_list)
                  (closed.list_end w p p' seen n e
                    (record { success = q; whole = ground arith; under_ceiling = ground arith }))
          ]
        ]

    after_probe-rule :
        (p' : Progress) (info : NodeInfo) (outcome : Outcome RunProbe)
        → p'.gaps ≡ p.gaps
        → info.window ≡ w
        → info.filter ≡ created_filter w
        → Holds (after_probe api max_partitions min_bucket repository recur info w outcome p')
    unfolding after_probe
    after_probe-rule p' info outcome e x f =
        let negative = ltb_ℤ outcome.value.total_count (pos 0) in
        let fits = ltb_ℤ outcome.value.total_count (pos 1000) in
        let seen : NodeInfo = record info {
          responses = info.responses ++ outcome.value.responses;
        } in
        let counted : NodeInfo = record seen { total_count = outcome.value.total_count } in
        elim (Option-cases outcome.failure) [
          | inr (err, q) ↦
              rw (q, after_probe) (closed.gap_end w p p' seen gap err.is_context_error _ e)
          | inl q ↦ elim (Bool-cases negative) [
            | inl c ↦ rw (q, c, after_probe) (closed.gap_end w p p' counted gap false _ e)
            | inr c ↦ elim (Bool-cases fits) [
              | inl d ↦
                  rw (q, c, d, f, after_probe)
                    (after_list-rule p' (record counted { filter = created_filter w }) p'.work e x)
              | inr d ↦ rw (q, c, d, after_probe) (split_or_saturate-rule p' counted e x)
            ]
          ]
        ]

    visit-rule : Holds (visit api max_partitions min_bucket repository recur w p)
    unfolding visit
    visit-rule =
        let info : NodeInfo = record {
          window = w;
          filter = created_filter w;
          total_count = pos 0;
          status = gap;
          responses = [];
          run_count = 0;
          overlap_rows = 0;
        } in
        let begun : Progress = record p { work = p.work + 1 } in
        elim (Bool-cases (api.cancelled p.work)) [
          | inl c ↦ rw (c, visit) (closed.gap_end w p p info gap true _ refl)
          | inr c ↦ elim (Bool-cases (ltb max_partitions (p.work + 1))) [
            | inl d ↦ rw (c, d, visit) (closed.gap_end w p begun info gap false _ refl)
            | inr d ↦
                rw (c, d, visit)
                  (after_probe-rule begun info (api.probe begun.work info.filter) refl refl refl)
          ]
        ]

  -- A claim that every way to end keeps holds of each result of the walk.
  pub walk-rule :
      (Q : Interval → Progress → Walked → Type 0)
      → Closed Q
      → (fuel : ℕ) (w : Interval) (p : Progress)
      → OnSome (Q w p) (walk api max_partitions min_bucket repository fuel w p)
  unfolding walk
  walk-rule Q closed zero w p = tt
  walk-rule Q closed (suc fuel) w p =
      visit-rule Q closed (walk api max_partitions min_bucket repository fuel)
        (walk-rule Q closed fuel) w p
