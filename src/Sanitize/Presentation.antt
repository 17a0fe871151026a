-- ===== src/Sanitize/Presentation.antt =====
-- internal/sanitize/text.go: `Presentation`.
use cirewind.Base.{
  ℕ, zero, suc, ◌+◌, ◌%◌, Bool, true, false, not, ◌&&◌, ◌||◌, List, [], ◌∷◌, ◌++◌, length, drop,
  is_nil, ltb, leb, ◌==◌, if◌then◌else◌, Text, text,
}
use cirewind.Base.Int.{ℤ, is_positive, pos_part}
use cirewind.Sanitize.Scan.{Progress, done, next, scan}
use cirewind.Sanitize.Runes.{decode_rune, size_of, rune_size, in_range, trim_space}
use cirewind.Sanitize.Terminal.{is_unsafe_rune, skip_escape, is_break}

abbrev pub presentation_safe_rune : ℕ → Bool
presentation_safe_rune r =
    not (ltb r 0x20 || r == 0x7f || in_range 0x80 0x9f r || is_unsafe_rune r)
    && not (ltb 0x10ffff r || in_range 0xd800 0xdfff r)
    && not (in_range 0xfdd0 0xfdef r || r % 0x10000 == 0xfffe || r % 0x10000 == 0xffff)
    && (leb 0x20 r && (leb r 0xd7ff || in_range 0xe000 0xfffd r || leb 0x10000 r))

pub record Shown : Type 0 where
  pub out : List ℕ
  pub pending : Bool
  pub truncated : Bool

abbrev pub is_line_break : ℕ → Bool
is_line_break r = is_break r || r == 0x2028 || r == 0x2029

abbrev pub cut : Shown → Shown
cut s = record s { truncated = true }

abbrev pub spaced : Shown → List ℕ
spaced s = if s.pending then s.out ++ 0x20 ∷ [] else s.out

abbrev pub show_rune : ℕ → Text → Shown → ℕ → Progress Shown
show_rune max rest s r =
    if s.pending && ltb max (size_of s.out + 1)
    then done (cut s)
    else if ltb max (size_of (spaced s) + rune_size r)
    then done record { out = spaced s; pending = false; truncated = true }
    else next rest record s { out = spaced s ++ r ∷ []; pending = false }

unfoldable pub presentation_step : ℕ → Text → Shown → Progress Shown
unfolding skip_escape decode_rune
presentation_step max [] s = done s
presentation_step max (c ∷ rest) s =
    let d = decode_rune (c ∷ rest) in
    if c == 0x1b
    then next (skip_escape (c ∷ rest)) s
    else if is_line_break d.rune
    then next (drop d.size (c ∷ rest)) record s { pending = not (is_nil s.out) }
    else if not (presentation_safe_rune d.rune)
    then next (drop d.size (c ∷ rest)) s
    else show_rune max (drop d.size (c ∷ rest)) s d.rune

-- `truncationSuffix`, with its ellipsis.
abbrev pub truncation_suffix : List ℕ
truncation_suffix = 0x20 ∷ 0x2026 ∷ text " [truncated]"

abbrev pub drop_last : List ℕ → List ℕ
drop_last [] = []
drop_last (r ∷ []) = []
drop_last (r ∷ q ∷ rest) = r ∷ drop_last (q ∷ rest)

abbrev pub too_long : ℕ → List ℕ → Bool
too_long max value = not (is_nil value) && ltb max (size_of value + size_of truncation_suffix)

-- The loop while a value is too long; an iteration drops a rune at least, so the runes are fuel
-- enough.
unfoldable pub shorten : ℕ → (List ℕ → Bool) → List ℕ → List ℕ
unfolding trim_space
shorten zero long value = value
shorten (suc n) long value =
    let shorter = shorten n long (trim_space (drop_last value)) in
    if long value then shorter else value

unfoldable pub append_byte_truncation_suffix : List ℕ → ℕ → List ℕ
unfolding shorten trim_space
append_byte_truncation_suffix value max =
    if ltb max (size_of truncation_suffix)
    then []
    else trim_space (shorten (length (trim_space value)) (too_long max) (trim_space value))
      ++ truncation_suffix

abbrev pub nothing_shown : Shown
nothing_shown = record { out = []; pending = false; truncated = false }

abbrev pub finish : ℕ → Shown → List ℕ × Bool
finish max s = (
  trim_space (
      if s.truncated
      then append_byte_truncation_suffix (trim_space s.out) max
      else trim_space s.out),
  s.truncated,
)

unfoldable pub presentation : Text → ℤ → List ℕ × Bool
unfolding scan presentation_step append_byte_truncation_suffix trim_space
presentation value max_bytes =
    if not (is_positive max_bytes)
    then ([], not (is_nil value))
    else finish (pos_part max_bytes)
        (scan (presentation_step (pos_part max_bytes)) (length value) value nothing_shown)
