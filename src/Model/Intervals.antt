-- ===== src/Model/Intervals.antt =====
-- internal/model/time.go: the shapes of event times that validation accepts.
use cirewind.Base.{◌<◌, ◌≡◌, ◌⊎◌, true, false, none, some, Option, arith, passes}
use cirewind.Base.Time.{is_zero}
use cirewind.Model.Times.{
  Instant, EventInterval, IntervalBounds, is_all_unknown, is_closed, bounds_valid, validate_instant,
  validate_endpoints, validate_event_interval,
}

-- No time at all, one instant, or a range from its start to its end.
abbrev pub IsInstant : Instant → Type 0
IsInstant i = (is_zero i.time ≡ false) × (i.is_utc ≡ true)

abbrev pub IsRange : Instant → Instant → IntervalBounds → Type 0
IsRange s e b =
    IsInstant s
    × IsInstant e
    × (bounds_valid b ≡ true)
    × ((s.time < e.time) ⊎ ((s.time ≡ e.time) × (is_closed b ≡ true)))

abbrev pub IsEventTime :
    EventInterval → Option Instant → Option Instant → Option IntervalBounds → Type 0
IsEventTime i none none none = is_all_unknown i ≡ true
IsEventTime i (some s) none none = IsInstant s
IsEventTime i (some s) (some e) (some b) = IsRange s e b
IsEventTime i _ _ _ = ⊥

endpoints :
    (i : EventInterval) (s e : Option Instant) (b : Option IntervalBounds)
    → passes (validate_endpoints i b s e) ≡ true
    → IsEventTime i s e b
unfolding validate_instant
endpoints i none none none h = ground arith
endpoints i none none (some b) h = cc
endpoints i none (some e) b h = cc
endpoints i (some s) none none h = (ground arith, ground arith)
endpoints i (some s) none (some b) h = ground arith
endpoints i (some s) (some e) none h = ground arith
endpoints i (some s) (some e) (some b) h =
    ((ground arith, ground arith), (ground arith, ground arith), ground arith, ground arith)

-- An event time that is accepted is marked unknown in every part, or is one instant without bounds,
-- or is a range with bounds whose end is after its start, or at it when both bounds are closed. Every
-- instant in it is in UTC and not zero.
pub IsEventTime-accepted :
    (i : EventInterval)
    → passes (validate_event_interval i) ≡ true
    → IsEventTime i i.start i.end i.bounds
unfolding validate_event_interval validate_instant
IsEventTime-accepted i h = endpoints i i.start i.end i.bounds (ground arith)
