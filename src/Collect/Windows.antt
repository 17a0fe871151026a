-- ===== src/Collect/Windows.antt =====
-- internal/collect/window.go: half-open windows of time, their whole-second cover and their split.
use cirewind.Base.{
  ℕ, ◌+◌, ◌-◌, ◌*◌, ◌/◌, Bool, ◌&&◌, ◌||◌, not, Option, none, some, ltb, leb, if◌then◌else◌, Result,
  ok, err, ◌>>=◌,
}
use cirewind.Base.Time.{Time, second, is_zero, before, truncate_second, sub_time}

abbrev pub provisional_parent_lookback : ℕ
provisional_parent_lookback = 65 * 24 * 3600 * second

abbrev pub default_archive_overlap : ℕ
default_archive_overlap = 15 * 60 * second

pub record Interval : Type 0 where
  pub from : Time
  pub to : Time

unfoldable pub new_interval : Time → Time → Result Interval
new_interval from to =
    if is_zero from || is_zero to || not (before from to)
    then err "collection interval must be a non-empty half-open UTC interval"
    else ok (record { from = from; to = to })

unfoldable pub contains : Interval → Time → Bool
contains i value = not (before value i.from) && before value i.to

unfoldable pub expand_incident_discovery_window : Interval → Result Interval
unfolding new_interval
expand_incident_discovery_window incident = do
  _ ← new_interval incident.from incident.to
  ok (record { from = incident.from - provisional_parent_lookback; to = incident.to })

abbrev cover_end : Time → Time → Time → Time
cover_end from to end =
    let to' = if before to end then to + second else to in
    if not (before from to') then from + second else to'

unfoldable pub second_cover : Interval → Interval
unfolding truncate_second
second_cover i =
    let from = truncate_second i.from in
    record { from = from; to = cover_end from (truncate_second i.to) i.to }

abbrev middle : Interval → Time
middle w = truncate_second (w.from + sub_time w.to w.from / second / 2 * second)

-- Go returns two windows and `ok`; `none` is a false `ok`.
unfoldable pub split_window : Interval → ℕ → Option (Interval × Interval)
unfolding truncate_second sub_time
split_window w minimum =
    if leb (sub_time w.to w.from) minimum
    then none
    else if ltb (sub_time w.to w.from / second) 2
    then none
    else if not (before w.from (middle w)) || not (before (middle w) w.to)
    then none
    else some (record { from = w.from; to = middle w }, record { from = middle w; to = w.to })
