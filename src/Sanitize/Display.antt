-- ===== src/Sanitize/Display.antt =====
-- internal/sanitize/text.go: `TruncateDisplay` and `WrapDisplay`.
use cirewind.Base.{
  ℕ, zero, suc, ◌+◌, ◌-◌, Bool, true, false, not, ◌&&◌, ◌||◌, List, [], ◌∷◌, ◌++◌, length, take,
  drop, is_nil, ltb, leb, if◌then◌else◌, Text, text,
}
use cirewind.Base.Int.{ℤ, is_positive, pos_part}
use cirewind.Sanitize.Scan.{Progress, done, next, scan}
use cirewind.Sanitize.Runes.{decode_rune, is_space, trim_left, trim_space}
use cirewind.Sanitize.Presentation.{shorten}

-- `[]rune(value)`, and the runes that a `range` over a string gives.
unfoldable pub runes_step : Text → List ℕ → Progress (List ℕ)
unfolding decode_rune
runes_step [] out = done out
runes_step (c ∷ rest) out =
    let d = decode_rune (c ∷ rest) in next (drop d.size (c ∷ rest)) (out ++ d.rune ∷ [])

unfoldable pub runes_of : Text → List ℕ
unfolding scan runes_step
runes_of value = scan runes_step (length value) value []

abbrev pub display_units : ℕ → ℕ
display_units r = if leb r 0x7f then 1 else 2

-- `displayTextUnits`
abbrev pub units_of : List ℕ → ℕ
units_of [] = 0
units_of (r ∷ rest) = display_units r + units_of rest

abbrev pub ellipsis : List ℕ
ellipsis = 0x2026 ∷ []

abbrev pub too_wide : ℕ → List ℕ → Bool
too_wide max_units value = not (is_nil value) && ltb max_units (units_of value + units_of ellipsis)

unfoldable pub append_display_ellipsis : List ℕ → ℕ → List ℕ
unfolding shorten trim_space
append_display_ellipsis value max_units =
    let shorter = shorten (length (trim_space value)) (too_wide max_units) (trim_space value) in
    if ltb max_units (units_of ellipsis) then [] else shorter ++ ellipsis

-- The runes that the loop writes, of those left, and whether it stopped before the end. What is left
-- of `maxRunes` and `maxUnits` stands for the counters.
abbrev pub fill : ℕ → ℕ → List ℕ → List ℕ × Bool
fill runes_left units_left [] = ([], false)
fill zero units_left (r ∷ rest) = ([], true)
fill (suc n) units_left (r ∷ rest) =
    let more = fill n (units_left - display_units r) rest in
    if ltb units_left (display_units r) then ([], true) else (r ∷ more.0, more.1)

abbrev pub ended : ℕ → List ℕ × Bool → List ℕ × Bool
ended max_units filled = (
  if filled.1 then append_display_ellipsis (trim_space filled.0) max_units else trim_space filled.0,
  filled.1,
)

unfoldable pub truncate_display : Text → ℤ → ℤ → List ℕ × Bool
unfolding runes_of append_display_ellipsis trim_space
truncate_display value max_runes max_units =
    if not (is_positive max_runes) || not (is_positive max_units)
    then ([], not (is_nil value))
    else ended (pos_part max_units)
        (fill (pos_part max_runes) (pos_part max_units) (runes_of value))

-- The runes from which the next line is cut: `limit` of them fit, and `last_space` is the index of
-- the last space among those, or 0, which the code treats as none.
pub record Measure : Type 0 where
  pub limit : ℕ
  pub last_space : ℕ

abbrev measure_from : ℕ → ℕ → Measure → List ℕ → Measure
measure_from max_units units m [] = m
measure_from max_units units m (r ∷ rest) =
    let further =
      measure_from max_units (units + display_units r)
        record { limit = m.limit + 1; last_space = if is_space r then m.limit else m.last_space }
        rest in
    if ltb max_units (units + display_units r) then m else further

abbrev pub at_least_one : ℕ → ℕ
at_least_one zero = 1
at_least_one (suc n) = suc n

abbrev pub measure : ℕ → List ℕ → Measure
measure max_units runes =
    let m = measure_from max_units 0 record { limit = 0; last_space = 0 } runes in
    record m { limit = at_least_one m.limit }

abbrev pub cut_at : Measure → List ℕ → ℕ
cut_at m runes = if ltb m.limit (length runes) && ltb 0 m.last_space then m.last_space else m.limit

-- The next line and where the runes after it begin.
abbrev pub next_line : Measure → List ℕ → List ℕ × ℕ
next_line m runes =
    if is_nil (trim_space (take (cut_at m runes) runes))
    then (take m.limit runes, m.limit)
    else (trim_space (take (cut_at m runes) runes), cut_at m runes)

-- The loop, at most once for each of the lines still allowed.
unfoldable pub wrap_lines : ℕ → ℕ → List ℕ → List (List ℕ) × List ℕ
unfolding trim_space
wrap_lines zero max_units runes = ([], runes)
wrap_lines (suc n) max_units [] = ([], [])
wrap_lines (suc n) max_units (r ∷ rest) =
    let line = next_line (measure max_units (r ∷ rest)) (r ∷ rest) in
    let later = wrap_lines n max_units (trim_left (drop line.1 (r ∷ rest))) in
    (line.0 ∷ later.0, later.1)

abbrev pub unavailable : List ℕ
unavailable = text "[unavailable]"

abbrev pub some_line : List (List ℕ) → List (List ℕ)
some_line [] = unavailable ∷ []
some_line (line ∷ rest) = line ∷ rest

abbrev pub mark_last : ℕ → List (List ℕ) → List (List ℕ)
mark_last max_units [] = []
mark_last max_units (line ∷ []) = append_display_ellipsis line max_units ∷ []
mark_last max_units (line ∷ after ∷ rest) = line ∷ mark_last max_units (after ∷ rest)

abbrev pub marked : ℕ → Bool → List (List ℕ) → List (List ℕ) × Bool
marked max_units truncated lines =
    (if truncated then mark_last max_units (some_line lines) else some_line lines, truncated)

unfoldable pub wrap_display : Text → ℤ → ℤ → ℤ → List (List ℕ) × Bool
unfolding runes_of wrap_lines append_display_ellipsis
wrap_display value max_runes max_units max_lines =
    let runes = runes_of value in
    let wrapped =
      wrap_lines (pos_part max_lines) (pos_part max_units) (take (pos_part max_runes) runes) in
    if not (is_positive max_runes) || not (is_positive max_units) || not (is_positive max_lines)
    then (unavailable ∷ [], not (is_nil value))
    else marked (pos_part max_units)
        (ltb (pos_part max_runes) (length runes) || not (is_nil wrapped.1)) wrapped.0
