-- ===== src/Sanitize/Csv.antt =====
-- internal/sanitize/text.go: `CSVCell`.
use cirewind.Base.{
  ℕ, ◌≡◌, refl, ◌∙◌, ap, Bool, true, false, not, ◌&&◌, ◌||◌, [], ◌∷◌, length, drop, is_nil, ◌==◌,
  if◌then◌else◌, Text, Bool-cases, inl, inr,
}
use cirewind.Sanitize.Scan.{Progress, done, next, scan}
use cirewind.Sanitize.Runes.{Rune, decode_rune, is_invalid, in_range, is_control, is_space}

-- `unicode.Is(unicode.Cf, r)`, of Unicode 15.
abbrev pub is_format : ℕ → Bool
is_format r =
    r == 0xad
    || in_range 0x600 0x605 r
    || r == 0x61c
    || r == 0x6dd
    || r == 0x70f
    || in_range 0x890 0x891 r
    || r == 0x8e2
    || r == 0x180e
    || in_range 0x200b 0x200f r
    || in_range 0x202a 0x202e r
    || in_range 0x2060 0x2064 r
    || in_range 0x2066 0x206f r
    || r == 0xfeff
    || in_range 0xfff9 0xfffb r
    || r == 0x110bd
    || r == 0x110cd
    || in_range 0x13430 0x1343f r
    || in_range 0x1bca0 0x1bca3 r
    || in_range 0x1d173 0x1d17a r
    || r == 0xe0001
    || in_range 0xe0020 0xe007f r

abbrev pub is_ignored : Rune → Bool
is_ignored d = is_invalid d || is_control d.rune || is_space d.rune || is_format d.rune

-- The state of the loop is what is left to probe.
unfoldable pub probe_step : Text → Text → Progress Text
unfolding decode_rune
probe_step [] s = done s
probe_step (c ∷ rest) s =
    let d = decode_rune (c ∷ rest) in
    if is_ignored d then next (drop d.size (c ∷ rest)) (drop d.size (c ∷ rest)) else done s

unfoldable pub probe : Text → Text
unfolding scan probe_step
probe value = scan probe_step (length value) value value

abbrev pub starts_formula : ℕ → Bool
starts_formula r = r == b'=' || r == b'+' || r == b'-' || r == b'@'

unfoldable pub is_formula : Text → Bool
unfolding probe
is_formula value = not (is_nil (probe value)) && starts_formula (decode_rune (probe value)).rune

unfoldable pub csv_cell : Text → Text
unfolding is_formula
csv_cell value = if is_formula value then b'\'' ∷ value else value

probe-quote : (value : Text) → probe (b'\'' ∷ value) ≡ b'\'' ∷ value
unfolding probe
probe-quote value = refl

quote_inert : (value : Text) → is_formula (b'\'' ∷ value) ≡ false
unfolding is_formula
quote_inert value = refl

pub csv_cell_quoted : (value : Text) → is_formula value ≡ true → csv_cell value ≡ b'\'' ∷ value
unfolding csv_cell
csv_cell_quoted value e = rw (e, csv_cell) refl

pub csv_cell_plain : (value : Text) → is_formula value ≡ false → csv_cell value ≡ value
unfolding csv_cell
csv_cell_plain value e = rw (e, csv_cell) refl

-- No cell that is returned is one to quote, so it would be returned as it is.
pub csv_cell_lem :
    (value : Text)
    → (is_formula (csv_cell value) ≡ false) × (csv_cell (csv_cell value) ≡ csv_cell value)
csv_cell_lem value = (inert, csv_cell_plain (csv_cell value) inert)
  where
    inert : is_formula (csv_cell value) ≡ false
    inert = elim (Bool-cases (is_formula value)) [
      | inl e ↦ ap is_formula (csv_cell_quoted value e) ∙ quote_inert value
      | inr e ↦ ap is_formula (csv_cell_plain value e) ∙ e
    ]
