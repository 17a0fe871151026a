-- ===== src/Sanitize/Formula.antt =====
-- internal/sanitize/text.go: which cells `CSVCell` quotes, whatever hides the formula's first sign.
use mathlib.Core.Path.{subst}
use cirewind.Base.{
  ℕ, zero, suc, ◌≤◌, ◌<◌, ◌≡◌, refl, sym, ◌∙◌, true, false, Bool-cases, inl, inr, ==_iff, ◌==◌, [],
  ◌∷◌, ◌++◌, length, Text, arith,
}
use cirewind.Sanitize.Scan.{done, next, scan, scan-enough, IsShorter, IsShorter-if}
use cirewind.Sanitize.Runes.{decode_rune, decode_rune-positive, decode_rune-stray}
use cirewind.Sanitize.Moving.{drop-moves}
use cirewind.Sanitize.Csv.{
  probe_step, probe, is_formula, is_ignored, starts_formula, csv_cell, csv_cell_quoted,
  csv_cell_plain, csv_cell_lem,
}

-- What a spreadsheet may drop before a formula: an ASCII control or space, a byte from 0x80 to
-- 0xc1, which starts no rune, and some marks of Unicode that show nothing, by their UTF-8.
pub data Hidden : Text → Type 0 where
  low : (c : ℕ) → c ≤ 0x20 → Hidden (c ∷ [])
  delete : Hidden (0x7f ∷ [])
  stray : (c : ℕ) → 0x80 ≤ c → c ≤ 0xc1 → Hidden (c ∷ [])
  no_break_space : Hidden (0xc2 ∷ 0xa0 ∷ [])
  soft_hyphen : Hidden (0xc2 ∷ 0xad ∷ [])
  zero_width_space : Hidden (0xe2 ∷ 0x80 ∷ 0x8b ∷ [])
  right_to_left_override : Hidden (0xe2 ∷ 0x80 ∷ 0xae ∷ [])
  ideographic_space : Hidden (0xe3 ∷ 0x80 ∷ 0x80 ∷ [])
  byte_order_mark : Hidden (0xef ∷ 0xbb ∷ 0xbf ∷ [])

pub data Sign : ℕ → Type 0 where
  equals : Sign b'='
  plus : Sign b'+'
  minus : Sign b'-'
  at : Sign b'@'

-- The text is a formula's sign and more, after any number of hidden marks.
pub data Opens : Text → Type 0 where
  sign : (c : ℕ) (rest : Text) → Sign c → Opens (c ∷ rest)
  hides : (mark rest : Text) → Hidden mark → Opens rest → Opens (mark ++ rest)

probe_step-IsShorter : (rest s : Text) → IsShorter rest (probe_step rest s)
unfolding probe_step
probe_step-IsShorter [] s = tt
probe_step-IsShorter (c ∷ rest) s =
    IsShorter-if (c ∷ rest) (is_ignored (decode_rune (c ∷ rest))) _ _
      (drop-moves (decode_rune (c ∷ rest)).size c rest (decode_rune-positive c rest)) tt

probe_step_ends : (s : Text) → probe_step [] s ≡ done s
unfolding probe_step
probe_step_ends s = refl

Hidden-step : (mark rest s : Text) → Hidden mark → probe_step (mark ++ rest) s ≡ next rest rest
unfolding probe_step decode_rune
Hidden-step mark rest s (low c h) = ground arith
Hidden-step mark rest s delete = refl
Hidden-step mark rest s (stray c h k) = rw (decode_rune-stray c rest h k) refl
Hidden-step mark rest s no_break_space = refl
Hidden-step mark rest s soft_hyphen = refl
Hidden-step mark rest s zero_width_space = refl
Hidden-step mark rest s right_to_left_override = refl
Hidden-step mark rest s ideographic_space = refl
Hidden-step mark rest s byte_order_mark = refl

-- A hidden mark has a byte.
Hidden-moves : (mark rest : Text) → Hidden mark → length rest < length (mark ++ rest)
Hidden-moves mark rest (low c h) = omega arith
Hidden-moves mark rest delete = omega arith
Hidden-moves mark rest (stray c h k) = omega arith
Hidden-moves mark rest no_break_space = omega arith
Hidden-moves mark rest soft_hyphen = omega arith
Hidden-moves mark rest zero_width_space = omega arith
Hidden-moves mark rest right_to_left_override = omega arith
Hidden-moves mark rest ideographic_space = omega arith
Hidden-moves mark rest byte_order_mark = omega arith

Sign-step : (c : ℕ) (rest s : Text) → Sign c → probe_step (c ∷ rest) s ≡ done s
unfolding probe_step decode_rune
Sign-step c rest s equals = refl
Sign-step c rest s plus = refl
Sign-step c rest s minus = refl
Sign-step c rest s at = refl

scan_done : (n : ℕ) (rest s : Text) → probe_step rest s ≡ done s → scan probe_step n rest s ≡ s
unfolding scan
scan_done zero rest s e = refl
scan_done (suc n) rest s e = rw e refl

scan-next :
    (n : ℕ) (text rest s : Text)
    → probe_step text s ≡ next rest rest
    → scan probe_step (suc n) text s ≡ scan probe_step n rest rest
unfolding scan
scan-next n text rest s e = rw e refl

-- Probing a text goes past a hidden mark at its front.
probe-Hidden : (mark rest : Text) → Hidden mark → probe (mark ++ rest) ≡ probe rest
unfolding probe
probe-Hidden mark rest h =
    let text = mark ++ rest in
    let more = Hidden-moves mark rest h in
    scan-enough probe_step probe_step_ends probe_step-IsShorter (length text) (suc (length text))
      text text (omega arith) (omega arith)
    ∙ scan-next (length text) text rest text (Hidden-step mark rest text h)
    ∙ scan-enough probe_step probe_step_ends probe_step-IsShorter (length text) (length rest) rest
        rest (omega arith) (omega arith)

is_formula-probe : (a b : Text) → probe a ≡ probe b → is_formula a ≡ is_formula b
unfolding is_formula
is_formula-probe a b e = rw e refl

is_formula-Sign : (c : ℕ) (rest : Text) → Sign c → is_formula (c ∷ rest) ≡ true
unfolding is_formula probe probe_step scan decode_rune
is_formula-Sign c rest equals = refl
is_formula-Sign c rest plus = refl
is_formula-Sign c rest minus = refl
is_formula-Sign c rest at = refl

Opens-is_formula : (value : Text) → Opens value → is_formula value ≡ true
Opens-is_formula value (sign c rest h) = is_formula-Sign c rest h
Opens-is_formula value (hides mark rest h o) =
    is_formula-probe (mark ++ rest) rest (probe-Hidden mark rest h) ∙ Opens-is_formula rest o

-- The text starts with a visible ASCII character that is no formula's sign.
abbrev pub IsVisible : Text → Type 0
IsVisible [] = ⊥
IsVisible (c ∷ rest) = (0x21 ≤ c) × (c ≤ 0x7e) × ¬ Sign c

starts_formula-Sign : (c : ℕ) → starts_formula c ≡ true → Sign c
starts_formula-Sign c h = elim (Bool-cases (c == b'=')) [
  | inl e ↦ subst Sign (sym ((==_iff c b'=').0 e)) equals
  | inr e ↦ elim (Bool-cases (c == b'+')) [
    | inl f ↦ subst Sign (sym ((==_iff c b'+').0 f)) plus
    | inr f ↦ elim (Bool-cases (c == b'-')) [
      | inl g ↦ subst Sign (sym ((==_iff c b'-').0 g)) minus
      | inr g ↦ subst Sign (sym ((==_iff c b'@').0 (rw (e, f, g) at h))) at
    ]
  ]
]

visible_decoded :
    (c : ℕ) (rest : Text)
    → 0x21 ≤ c
    → c ≤ 0x7e
    → decode_rune (c ∷ rest) ≡ record { rune = c; size = 1 }
unfolding decode_rune
visible_decoded c rest h k = ground arith

visible_probed : (c : ℕ) → 0x21 ≤ c → c ≤ 0x7e → is_ignored (record { rune = c; size = 1 }) ≡ false
visible_probed c h k = ground arith

visible_step : (c : ℕ) (rest s : Text) → 0x21 ≤ c → c ≤ 0x7e → probe_step (c ∷ rest) s ≡ done s
unfolding probe_step
visible_step c rest s h k = rw (visible_decoded c rest h k, visible_probed c h k) refl

visible-is_formula : (value : Text) → IsVisible value → is_formula value ≡ false
unfolding is_formula probe
visible-is_formula [] h = absurd h
visible-is_formula (c ∷ rest) (least, most, other) =
    rw
      (
        scan_done (length (c ∷ rest)) (c ∷ rest) (c ∷ rest)
            (visible_step c rest (c ∷ rest) least most),
        visible_decoded c rest least most,
      )
      (elim (Bool-cases (starts_formula c)) [
        | inl e ↦ absurd (other (starts_formula-Sign c e))
        | inr e ↦ e
      ])

-- `CSVCell` puts a quote before every cell in which a formula's sign (one of = + - @) comes first
-- or after hidden marks alone, of any number: ASCII controls and spaces, bytes from 0x80 to 0xc1,
-- which start no rune, and the no-break space, soft hyphen, zero-width space, right-to-left
-- override, ideographic space and byte order mark. A cell whose first byte is a visible ASCII
-- character other than those signs is returned as it is. No returned cell has a sign first or after
-- such hidden marks.
pub csv_cell-Opens :
    (value : Text)
    → (Opens value → csv_cell value ≡ b'\'' ∷ value)
      × (IsVisible value → csv_cell value ≡ value)
      × (Opens (csv_cell value) → ⊥)
csv_cell-Opens value = (
  λ o. csv_cell_quoted value (Opens-is_formula value o),
  λ v. csv_cell_plain value (visible-is_formula value v),
  λ o. absurd (cc (Opens-is_formula (csv_cell value) o, (csv_cell_lem value).0)),
)
