-- ===== src/Collect/Samples.antt =====
-- A repository with one run, and the windows of window.go on it.
use mathlib.Core.Path.{subst}
use mathlib.Core.Option.{some-injective}
use cirewind.Base.{
  ◌+◌, ◌≤◌, ◌<◌, ◌≡◌, refl, Bool, true, false, ◌&&◌, ◌||◌, none, some, [], ◌∷◌, arith, any, All,
  count_of, is_some, text, leb, if◌then◌else◌,
}
use cirewind.Base.Int.{ℤ, pos, is_positive}
use cirewind.Base.Order.{pair_order, nat_order, int_order}
use cirewind.Base.Sort.{IsSorted}
use cirewind.Base.Time.{Time, second, is_zero}
use cirewind.Github.{WorkflowRun}
use cirewind.Collect.Windows.{Interval, contains, second_cover, split_window}
use cirewind.Collect.Covering.{IsAligned, second_cover_tight, split_window_exact}
use cirewind.Collect.Partition.{Filter, RunWindowApi, node, nil, complete}
use cirewind.Collect.Partition.Windowed.{Serves}
use cirewind.Collect.Enumerate.{
  RepositoryTarget, Partitioner, PartitionResult, enumerated, has_id, run_key, enumerate,
}
use cirewind.Collect.Enumerate.Complete.{enumerate_total, enumerate_sound, enumerate_complete}

abbrev noon : Time
noon = 9223372100000000000_000000000

abbrev window : Interval
window = record { from = noon + 1; to = noon + 5_000_000_007 }

abbrev whole : Interval
whole = record { from = noon; to = noon + 5_000_000_000 }

second_cover_tight_example :
    IsAligned (second_cover window)
    × ((second_cover window).from ≤ window.from)
    × (window.from < (second_cover window).from + second)
    × (window.to ≤ (second_cover window).to)
    × ((second_cover window).to < window.to + second)
    × ((second_cover window).from < (second_cover window).to)
second_cover_tight_example = second_cover_tight window (omega arith)

abbrev first_half : Interval
first_half = record { from = noon; to = noon + 2_000_000_000 }

abbrev second_half : Interval
second_half = record { from = noon + 2_000_000_000; to = noon + 5_000_000_000 }

split_whole : split_window whole second ≡ some (first_half, second_half)
unfolding split_window
split_whole = refl

split_window_exact_example :
    (contains whole (noon + 7)
      ≡ (contains first_half (noon + 7) || contains second_half (noon + 7)))
    × ((contains first_half (noon + 7) && contains second_half (noon + 7)) ≡ false)
split_window_exact_example =
    split_window_exact whole first_half second_half second split_whole (noon + 7)

abbrev run : WorkflowRun
run = record {
  id = pos 42;
  run_attempt = pos 1;
  status = text "completed";
  conclusion = text "success";
  created_at = noon + 3_000_000_000;
  updated_at = none;
}

abbrev in_range : Filter → Bool
in_range f = leb f.lo run.created_at && leb run.created_at f.hi

abbrev one_run : RunWindowApi
one_run = record {
  cancelled = λ n. false;
  probe = λ n f. record {
    value = record { total_count = if in_range f then pos 1 else pos 0; responses = [] };
    failure = none;
  };
  list_runs = λ n f. record {
    value = record {
      total_count = if in_range f then pos 1 else pos 0;
      runs = if in_range f then run ∷ [] else [];
      responses = [];
      truncated = false;
    };
    failure = none;
  };
}

one_run-Serves : Serves one_run run
one_run-Serves = record { shows = λ n f u w l h. ground arith }

abbrev partitioner : Partitioner
partitioner = record { api = some one_run; max_partitions = pos 0; min_bucket = pos 0 }

abbrev target : RepositoryTarget
target = record { id = pos 7; owner = text "o"; name = text "r" }

abbrev cover : Interval
cover = record { from = noon; to = noon + 6_000_000_000 }

abbrev result : PartitionResult
result = record {
  requested = window;
  queried = cover;
  root =
      node
        (record {
          window = cover;
          filter = record { lo = cover.from; hi = cover.to };
          total_count = pos 1;
          status = complete;
          responses = [];
          run_count = 1;
          overlap_rows = 0;
        })
        nil;
  runs = run ∷ [];
  gaps = [];
  duplicate_observations = 0;
  overlap_observations = 0;
}

enumerate_runs : enumerate partitioner target window ≡ some (enumerated result)
unfolding enumerate
enumerate_runs = refl

enumerate_total_example : is_some (enumerate partitioner target window) ≡ true
enumerate_total_example = enumerate_total partitioner target window

enumerate_sound_example :
    All (λ x. contains window x.created_at ≡ true) result.runs
    × All (λ x. is_positive x.id ≡ true) result.runs
    × ((k : ℤ) → count_of (has_id k) result.runs ≤ 1)
    × IsSorted run_key result.runs
enumerate_sound_example = enumerate_sound partitioner target window result enumerate_runs

Serves-run : (api : RunWindowApi) → partitioner.api ≡ some api → Serves api run
Serves-run api e = subst (λ a. Serves a run) (some-injective one_run api e) one_run-Serves

dated : is_zero run.created_at ≡ false
unfolding is_zero
dated = refl

inside_window : contains window run.created_at ≡ true
unfolding contains
inside_window = refl

enumerate_complete_example : any (has_id run.id) result.runs ≡ true
enumerate_complete_example =
    enumerate_complete partitioner target window result run Serves-run refl dated inside_window
      enumerate_runs refl
