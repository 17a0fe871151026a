-- ===== src/Collect/Partition.antt =====
-- internal/collect/window.go: the recursive partition of a window under the search ceiling.
pub mod Rule
pub mod Totality
pub mod Windowed
pub mod Found
use cirewind.Base.{
  ℕ, zero, suc, ◌+◌, Bool, true, false, ◌&&◌, ◌||◌, not, Option, none, some, List, [], ◌∷◌, ◌++◌,
  ltb, leb, if◌then◌else◌, String, length, keep, count_of,
}
use cirewind.Base.Int.{ℤ, pos, negsuc, ltb_ℤ, same_ℤ}
use cirewind.Base.Time.{Time, truncate_second}
use cirewind.Github.{ResponseMeta, CallError, Outcome, WorkflowRun, RunList, RunProbe}
use cirewind.Collect.Gaps.{
  Gap, material_gap, gap_from_error, cancelled, partition_limit, malformed_response,
  live_state_race, pagination, density_ceiling,
}
use cirewind.Collect.Windows.{Interval, contains, split_window}

-- The `created:` range of a search: RFC 3339 prints whole seconds, and both ends are inside.
pub record Filter : Type 0 where
  pub lo : Time
  pub hi : Time

unfoldable pub created_filter : Interval → Filter
unfolding truncate_second
created_filter w = record { lo = truncate_second w.from; hi = truncate_second w.to }

-- The service and the context of the collection. Each partition begun has its number, so an answer
-- may change from one call to the next. `cancelled n` is `ctx.Err() != nil` after `n` partitions.
pub record RunWindowApi : Type 0 where
  pub cancelled : ℕ → Bool
  pub probe : ℕ → Filter → Outcome RunProbe
  pub list_runs : ℕ → Filter → Outcome RunList

pub data PartitionStatus : Type 0 where
  split complete gap saturated : PartitionStatus

pub record NodeInfo : Type 0 where
  pub window : Interval
  pub filter : Filter
  pub total_count : ℤ
  pub status : PartitionStatus
  pub responses : List ResponseMeta
  pub run_count : ℕ
  pub overlap_rows : ℕ

mutual
  pub data PartitionNode : Type 0 where
    node : NodeInfo → Children → PartitionNode

  pub data Children : Type 0 where
    nil : Children
    cons : PartitionNode → Children → Children

-- What `walk` changes through its pointers.
pub record Progress : Type 0 where
  pub gaps : List Gap
  pub work : ℕ

pub record Walked : Type 0 where
  pub runs : List WorkflowRun
  pub root : PartitionNode
  pub stopped : Bool
  pub progress : Progress

abbrev pub add_gap : Progress → Gap → Progress
add_gap p g = record p { gaps = p.gaps ++ g ∷ [] }

abbrev inside : Interval → WorkflowRun → Bool
inside window run = contains window run.created_at

-- The rows of the window, with the counts that the node keeps.
unfoldable pub assign_runs_to_window : NodeInfo → Interval → List WorkflowRun → NodeInfo
assign_runs_to_window info window runs = record info {
  run_count = info.run_count + count_of (inside window) runs;
  overlap_rows = info.overlap_rows + count_of (λ run. not (inside window run)) runs;
}

unfoldable pub assigned_runs : Interval → List WorkflowRun → List WorkflowRun
assigned_runs window runs = keep (inside window) runs

unfoldable mutual
  pub count_overlap_rows : PartitionNode → ℕ
  count_overlap_rows (node info children) = info.overlap_rows + count_overlap_children children

  pub count_overlap_children : Children → ℕ
  count_overlap_children nil = 0
  count_overlap_children (cons child rest) = count_overlap_rows child + count_overlap_children rest

abbrev ended : NodeInfo → PartitionStatus → List WorkflowRun → Bool → Progress → Walked
ended info status runs stopped progress = record {
  runs = runs;
  root = node (record info { status = status }) nil;
  stopped = stopped;
  progress = progress;
}

abbrev max_ℤ : ℤ → ℤ → ℤ
max_ℤ a b = if ltb_ℤ a b then b else a

abbrev pub Walker : Type 0
Walker = Interval → Progress → Option Walked

-- The repository is named by its id; owner and name go to the service.
module _ (api : RunWindowApi) (max_partitions min_bucket : ℕ) (repository : ℤ) where
  abbrev partition_gap : (reason : cirewind.Collect.Gaps.GapReason) → Bool → String → Gap
  partition_gap reason retryable diagnostic =
      material_gap reason "run_partition" repository (pos 0) retryable diagnostic

  abbrev both : NodeInfo → Walked → Option Walked → Option Walked
  both info left none = none
  both info left (some right) = some (record {
    runs = left.runs ++ right.runs;
    root = node info (cons left.root (cons right.root nil));
    stopped = right.stopped;
    progress = right.progress;
  })

  after_left : Walker → NodeInfo → Interval → Option Walked → Option Walked
  after_left recur info right none = none
  after_left recur info right (some left) = elim left.stopped [
    | true ↦ some (record {
      runs = left.runs;
      root = node info (cons left.root nil);
      stopped = true;
      progress = left.progress;
    })
    | false ↦ both info left (recur right left.progress)
  ]

  pub split_or_saturate : Walker → NodeInfo → Progress → Option Walked
  unfolding after_left
  split_or_saturate recur info p = elim (split_window info.window min_bucket) [
    | none ↦ some (
        ended info saturated [] false (
          add_gap p (
            partition_gap density_ceiling false
              "smallest supported timestamp bucket reached the filtered-search ceiling")))
    | some (left, right) ↦ after_left recur (record info { status = split }) right (recur left p)
  ]

  abbrev race_gap : ℤ → ℤ → Progress → Progress
  race_gap listed probed p =
      if same_ℤ listed probed
      then p
      else add_gap p (
          partition_gap live_state_race true
            "workflow-run total_count changed between probe and pagination")

  -- The rows of a listing under the ceiling.
  pub listed_rows : NodeInfo → Interval → RunList → Progress → Walked
  unfolding assign_runs_to_window assigned_runs
  listed_rows info window listed p =
      let info' = assign_runs_to_window info window listed.runs in
      let p' = race_gap listed.total_count info.total_count p in
      if ltb_ℤ (pos (length listed.runs)) listed.total_count
      then ended info' gap (assigned_runs window listed.runs) false (
          add_gap p' (
            partition_gap pagination true
              "pagination ended before the reported workflow-run total was collected"))
      else ended info' (if same_ℤ listed.total_count info.total_count then complete else gap)
          (assigned_runs window listed.runs) false p'

  after_list : Walker → NodeInfo → Interval → Outcome RunList → Progress → Option Walked
  unfolding listed_rows split_or_saturate
  after_list recur info window outcome p =
      let listed = outcome.value in
      let info' = record info { responses = info.responses ++ listed.responses } in
      elim outcome.failure [
        | some e ↦ some (
            ended info' gap [] e.is_context_error
              (add_gap p (gap_from_error "run_partition_pages" repository (pos 0) (pos 0) e)))
        | none ↦ elim (listed.truncated || not (ltb_ℤ listed.total_count (pos 1000))) [
          | true ↦
              split_or_saturate recur
                (record info' { total_count = max_ℤ info.total_count listed.total_count }) p
          | false ↦ some (listed_rows info' window listed p)
        ]
      ]

  after_probe : Walker → NodeInfo → Interval → Outcome RunProbe → Progress → Option Walked
  unfolding after_list
  after_probe recur info window outcome p =
      let probed = outcome.value in
      let info' = record info { responses = info.responses ++ probed.responses } in
      elim outcome.failure [
        | some e ↦ some (
            ended info' gap [] e.is_context_error
              (add_gap p (gap_from_error "run_partition_probe" repository (pos 0) (pos 0) e)))
        | none ↦
            let counted = record info' { total_count = probed.total_count } in
            elim (ltb_ℤ probed.total_count (pos 0)) [
              | true ↦ some (
                  ended counted gap [] false (
                    add_gap p (
                      material_gap malformed_response "run_partition_probe" repository (pos 0) false
                        "negative total_count")))
              | false ↦ elim (ltb_ℤ probed.total_count (pos 1000)) [
                | false ↦ split_or_saturate recur counted p
                | true ↦ after_list recur counted window (api.list_runs p.work info.filter) p
              ]
            ]
      ]

  -- One call of `walk`; `recur` makes its recursive calls.
  visit : Walker → Walker
  unfolding after_probe created_filter
  visit recur window p =
      let info : NodeInfo = record {
        window = window;
        filter = created_filter window;
        total_count = pos 0;
        status = gap;
        responses = [];
        run_count = 0;
        overlap_rows = 0;
      } in
      let begun = record p { work = p.work + 1 } in
      elim (api.cancelled p.work) [
        | true ↦ some (
            ended info gap [] true
              (add_gap p (partition_gap cancelled false "partition collection cancelled")))
        | false ↦ elim (ltb max_partitions begun.work) [
          | true ↦ some (
              ended info gap [] false (
                add_gap begun (partition_gap partition_limit false "partition work limit reached")))
          | false ↦ after_probe recur info window (api.probe begun.work info.filter) begun
        ]
      ]

  -- `none` when the fuel, a bound on the depth of the splits, runs out.
  unfoldable pub walk : ℕ → Walker
  unfolding visit
  walk zero window p = none
  walk (suc fuel) window p = visit (walk fuel) window p
