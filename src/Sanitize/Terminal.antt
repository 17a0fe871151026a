-- ===== src/Sanitize/Terminal.antt =====
-- internal/sanitize/text.go: `Terminal`, and the escape sequences that it and `Presentation` skip.
use cirewind.Base.{
  ℕ, ◌+◌, Bool, false, not, ◌&&◌, ◌||◌, List, [], ◌∷◌, ◌++◌, length, drop, is_nil, ltb, leb, ◌==◌,
  if◌then◌else◌, Text,
}
use cirewind.Base.Int.{ℤ, is_positive, pos_part}
use cirewind.Sanitize.Scan.{Progress, done, next, scan}
use cirewind.Sanitize.Runes.{
  Rune, decode_rune, is_invalid, rune_error, size_of, in_range, is_bidi_control, trim_space,
}

-- The text after the final byte of a CSI sequence.
unfoldable pub past_final : Text → Text
past_final [] = []
past_final (c ∷ rest) = let later = past_final rest in if in_range 0x40 0x7e c then rest else later

-- The text after BEL or ST.
unfoldable pub past_string : Text → Text
past_string [] = []
past_string (c ∷ []) = []
past_string (c ∷ d ∷ rest) =
    let later = past_string (d ∷ rest) in
    if c == 0x07 then d ∷ rest else if c == 0x1b && d == b'\\' then rest else later

abbrev pub opens_string : ℕ → Bool
opens_string c = c == b']' || c == b'P' || c == b'X' || c == b'^' || c == b'_'

-- `skipEscape`, from the text at the escape byte to the text at the index returned.
unfoldable pub skip_escape : Text → Text
unfolding past_final past_string
skip_escape [] = []
skip_escape (e ∷ []) = []
skip_escape (e ∷ c ∷ rest) =
    if c == b'[' then past_final rest else if opens_string c then past_string rest else rest

abbrev pub is_unsafe_rune : ℕ → Bool
is_unsafe_rune r = in_range 0x80 0x9f r || is_bidi_control r

abbrev pub is_break : ℕ → Bool
is_break c = c == 10 || c == 13 || c == 9

abbrev pub ends_in_space : List ℕ → Bool
ends_in_space [] = false
ends_in_space (r ∷ []) = r == 0x20
ends_in_space (r ∷ q ∷ rest) = ends_in_space (q ∷ rest)

abbrev pub with_space : ℕ → List ℕ → List ℕ
with_space c out =
    if is_break c && (is_nil out || not (ends_in_space out)) then out ++ 0x20 ∷ [] else out

-- What the loop does with a rune, `size` bytes of the text `here`.
abbrev pub write_rune : ℕ → Text → List ℕ → Rune → Progress (List ℕ)
write_rune max here out d =
    if is_invalid d
    then (if ltb max (size_of out + 3)
        then done out
        else next (drop 1 here) (out ++ rune_error ∷ []))
    else if is_unsafe_rune d.rune
    then next (drop d.size here) out
    else if ltb max (size_of out + d.size)
    then done out
    else next (drop d.size here) (out ++ d.rune ∷ [])

unfoldable pub terminal_step : ℕ → Text → List ℕ → Progress (List ℕ)
unfolding skip_escape decode_rune
terminal_step max [] out = done out
terminal_step max (c ∷ rest) out =
    if leb max (size_of out)
    then done out
    else if c == 0x1b
    then next (skip_escape (c ∷ rest)) out
    else if ltb c 0x20 || c == 0x7f
    then next rest (with_space c out)
    else write_rune max (c ∷ rest) out (decode_rune (c ∷ rest))

unfoldable pub terminal : Text → ℤ → List ℕ
unfolding scan terminal_step trim_space
terminal value max_bytes =
    if not (is_positive max_bytes)
    then []
    else trim_space (scan (terminal_step (pos_part max_bytes)) (length value) value [])
