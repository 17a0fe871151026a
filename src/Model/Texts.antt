-- ===== src/Model/Texts.antt =====
-- internal/model: the tests on strings that the data model's validation shares. A string is its
-- bytes.
use cirewind.Base.{
  ℕ, zero, suc, String, ◌%◌, Bool, true, false, ◌&&◌, ◌||◌, not, [], ◌∷◌, if◌then◌else◌, ◌==◌, leb,
  ltb, length, is_nil, any, Text, same_text, to_lower, Checked, refuse_if, ◌>>◌,
}

abbrev pub all : (ℕ → Bool) → Text → Bool
all p s = not (any (λ c. not (p c)) s)

abbrev pub in_range : ℕ → ℕ → ℕ → Bool
in_range lo hi c = leb lo c && leb c hi

abbrev is_continuation : ℕ → Bool
is_continuation = in_range 128 191

-- The states of a scan of UTF-8: between characters, or with continuation bytes to come, the next of
-- them in a narrower range.
pub data Scan : Type 0 where
  start : Scan
  within_char : ℕ → ℕ → ℕ → Scan
  bad : Scan

-- The bytes that may begin a character, as the Unicode standard's table of well-formed sequences.
abbrev first_byte : ℕ → Scan
first_byte c =
    if ltb c 128
    then start
    else if in_range 194 223 c
    then within_char 128 191 0
    else if c == 224
    then within_char 160 191 1
    else if c == 237
    then within_char 128 159 1
    else if in_range 225 239 c
    then within_char 128 191 1
    else if c == 240
    then within_char 144 191 2
    else if in_range 241 243 c
    then within_char 128 191 2
    else if c == 244
    then within_char 128 143 2
    else bad

abbrev next_byte : Scan → ℕ → Scan
next_byte start c = first_byte c
next_byte (within_char lo hi zero) c = if in_range lo hi c then start else bad
next_byte (within_char lo hi (suc n)) c = if in_range lo hi c then within_char 128 191 n else bad
next_byte bad c = bad

abbrev at_start : Scan → Bool
at_start start = true
at_start _ = false

scan_utf8 : Scan → Text → Scan
scan_utf8 s [] = s
scan_utf8 s (c ∷ rest) = scan_utf8 (next_byte s c) rest

-- `utf8.ValidString`
unfoldable pub valid_utf8 : Text → Bool
unfolding scan_utf8
valid_utf8 s = at_start (scan_utf8 start s)

-- The source ranges over the runes; a control character is one byte, and no byte of a longer
-- character is below 0x80.
unfoldable pub has_ascii_control : Text → Bool
has_ascii_control value = any (λ c. ltb c 32 || c == 127) value

unfoldable pub valid_bounded_identity_text : Text → ℕ → Bool
unfolding valid_utf8 has_ascii_control
valid_bounded_identity_text value max =
    not (is_nil value)
    && leb (length value) max
    && valid_utf8 value
    && not (has_ascii_control value)

unfoldable pub validate_bounded_text : Text → ℕ → String → Checked
unfolding valid_utf8
validate_bounded_text value max label =
    refuse_if (ltb max (length value) || not (valid_utf8 value) || any (λ c. c == 0) value)
      "must be bounded UTF-8 without NUL"

abbrev pub is_lower : ℕ → Bool
is_lower = in_range b'a' b'z'

abbrev pub is_upper : ℕ → Bool
is_upper = in_range b'A' b'Z'

abbrev pub is_digit : ℕ → Bool
is_digit = in_range b'0' b'9'

abbrev is_machine_char : ℕ → Bool
is_machine_char c =
    is_lower c
    || is_upper c
    || is_digit c
    || c == b'_'
    || c == b'-'
    || c == b'.'
    || c == b':'
    || c == b'/'

unfoldable pub valid_machine_name : Text → ℕ → Bool
valid_machine_name value max =
    if is_nil value || ltb max (length value) then false else all is_machine_char value

abbrev pub is_hex : ℕ → Bool
is_hex c = is_digit c || in_range b'a' b'f' c || in_range b'A' b'F' c

-- `hex.DecodeString` returns an error.
abbrev pub fails_hex : Text → Bool
fails_hex value = not (length value % 2 == 0) || not (all is_hex value)

-- A string outside ASCII may differ from its lower case in other ways; it is refused all the same,
-- by the last test.
unfoldable pub validate_sha256 : Text → String → Checked
unfolding same_text to_lower
validate_sha256 value name =
    refuse_if (not (length value == 64) || not (same_text value (to_lower value)))
      "must be 64 lowercase hexadecimal characters"
    >> refuse_if (fails_hex value) "is not hexadecimal"
