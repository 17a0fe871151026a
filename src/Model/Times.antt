-- ===== src/Model/Times.antt =====
-- internal/model/time.go: instants, event intervals and collection windows. An instant is a
-- `time.Time` and whether its location is UTC.
use cirewind.Base.{
  Bool, true, false, ◌&&◌, not, Option, none, some, if◌then◌else◌, ◌==◌, is_some, Text, Result, ok,
  err, Checked, refuse_if, ◌>>◌, within,
}
use cirewind.Base.Time.{Time, is_zero, before}

pub record Instant : Type 0 where
  pub time : Time
  pub is_utc : Bool

unfoldable pub new_instant : Time → Result Instant
unfolding is_zero
new_instant value =
    if is_zero value then err "timestamp is zero" else ok (record { time = value; is_utc = true })

unfoldable pub validate_instant : Instant → Checked
unfolding is_zero
validate_instant i =
    refuse_if (is_zero i.time) "timestamp is zero"
    >> refuse_if (not i.is_utc) "timestamp must be normalized to UTC"

pub data IntervalBounds : Type 0 where
  bounds_closed_open bounds_closed bounds_open bounds_open_closed : IntervalBounds
  other : Text → IntervalBounds

abbrev pub bounds_valid : IntervalBounds → Bool
bounds_valid (other v) = false
bounds_valid _ = true

abbrev pub is_closed : IntervalBounds → Bool
is_closed bounds_closed = true
is_closed _ = false

pub data SourcePrecision : Type 0 where
  second minute hour day unknown : SourcePrecision
  other : Text → SourcePrecision

abbrev pub precision_valid : SourcePrecision → Bool
precision_valid (other v) = false
precision_valid _ = true

pub data TimeApproximation : Type 0 where
  exact source_rounded conservative_expanded unknown : TimeApproximation
  other : Text → TimeApproximation

abbrev pub approximation_valid : TimeApproximation → Bool
approximation_valid (other v) = false
approximation_valid _ = true

pub data EventTimeBasis : Type 0 where
  api_field log_timestamp definition_commit proxy_interval unknown : EventTimeBasis
  other : Text → EventTimeBasis

abbrev pub basis_valid : EventTimeBasis → Bool
basis_valid (other v) = false
basis_valid _ = true

pub record EventInterval : Type 0 where
  pub start : Option Instant
  pub end : Option Instant
  pub bounds : Option IntervalBounds
  pub precision : SourcePrecision
  pub approximation : TimeApproximation
  pub basis : EventTimeBasis

-- Every part says that the time is unknown.
abbrev pub is_all_unknown : EventInterval → Bool
is_all_unknown i =
    is_unknown_precision i.precision
    && is_unknown_approximation i.approximation
    && is_unknown_basis i.basis
  where
    is_unknown_precision : SourcePrecision → Bool
    is_unknown_precision SourcePrecision.unknown = true
    is_unknown_precision _ = false

    is_unknown_approximation : TimeApproximation → Bool
    is_unknown_approximation TimeApproximation.unknown = true
    is_unknown_approximation _ = false

    is_unknown_basis : EventTimeBasis → Bool
    is_unknown_basis EventTimeBasis.unknown = true
    is_unknown_basis _ = false

abbrev has_valid_bounds : Option IntervalBounds → Bool
has_valid_bounds none = false
has_valid_bounds (some b) = bounds_valid b

abbrev has_closed_bounds : Option IntervalBounds → Bool
has_closed_bounds none = false
has_closed_bounds (some b) = is_closed b

-- From a start and an end, and of the range between them.
abbrev validate_range : Option IntervalBounds → Instant → Instant → Checked
validate_range bounds start end =
    within "event-time end" (validate_instant end)
    >> refuse_if (not (has_valid_bounds bounds)) "event-time range requires valid explicit bounds"
    >> refuse_if (before end.time start.time) "event-time end precedes start"
    >> refuse_if (end.time == start.time && not (has_closed_bounds bounds))
        "zero-width event interval must use closed bounds"

abbrev pub validate_endpoints :
    EventInterval → Option IntervalBounds → Option Instant → Option Instant → Checked
validate_endpoints i bounds none none =
    refuse_if (is_some bounds) "unknown event time cannot have interval bounds"
    >> refuse_if (not (is_all_unknown i))
        "missing event time must explicitly use unknown precision, approximation, and basis"
validate_endpoints i bounds none (some end) = err "event-time end requires a start"
validate_endpoints i bounds (some start) none =
    within "event-time start" (validate_instant start)
    >> refuse_if (is_some bounds) "an event instant cannot have range bounds"
validate_endpoints i bounds (some start) (some end) =
    within "event-time start" (validate_instant start) >> validate_range bounds start end

unfoldable pub validate_event_interval : EventInterval → Checked
unfolding validate_instant
validate_event_interval i =
    refuse_if (not (precision_valid i.precision)) "invalid event-time precision"
    >> refuse_if (not (approximation_valid i.approximation)) "invalid event-time approximation"
    >> refuse_if (not (basis_valid i.basis)) "invalid event-time basis"
    >> validate_endpoints i i.bounds i.start i.end

pub record CollectionWindow : Type 0 where
  pub started_at : Instant
  pub ended_at : Instant

unfoldable pub validate_collection_window : CollectionWindow → Checked
unfolding validate_instant
validate_collection_window w =
    within "collection start" (validate_instant w.started_at)
    >> within "collection end" (validate_instant w.ended_at)
    >> refuse_if (before w.ended_at.time w.started_at.time) "collection end precedes start"
