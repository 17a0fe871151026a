-- ===== src/Sanitize/Safe.antt =====
-- internal/sanitize/text.go: what `Terminal` lets through, and how much.
use cirewind.Base.{
  ℕ, ◌+◌, ◌≤◌, ◌≡◌, refl, Bool, true, false, not, ◌&&◌, ◌||◌, List, [], ◌∷◌, ◌++◌, length, is_nil,
  ltb, leb, ◌==◌, Text, arith, All, Bool-cases, inl, inr,
}
use cirewind.Base.Int.{ℤ, is_positive, pos_part}
use cirewind.Sanitize.Scan.{scan-keeps, Leaves, Leaves-if}
use cirewind.Sanitize.Runes.{
  Rune, decode_rune, decode_rune-size, decode_rune-high, decode_rune-ascii, is_invalid, rune_error,
  rune_size, size_of,
}
use cirewind.Sanitize.Terminal.{
  terminal, terminal_step, write_rune, with_space, is_unsafe_rune, is_break, ends_in_space,
}
use cirewind.Sanitize.Fits.{Fits, Fits-append, kept_if, room_for_one, not_over, trim_space-Fits}

-- No control character of ASCII or of Latin-1, and no bidirectional control.
abbrev pub is_shown : ℕ → Bool
is_shown r = leb 0x20 r && not (r == 0x7f) && not (is_unsafe_rune r)

with_space-Fits :
    (max c : ℕ) (out : List ℕ)
    → leb max (size_of out) ≡ false
    → Fits is_shown max out
    → Fits is_shown max (with_space c out)
with_space-Fits max c out h f =
    kept_if (Fits is_shown max) (is_break c && (is_nil out || not (ends_in_space out)))
      (out ++ 0x20 ∷ []) out
      (Fits-append is_shown max out 0x20 (room_for_one max (size_of out) h) refl f) f

-- What the loop has already made sure of: the byte at hand is no control character.
abbrev IsPast : Rune → Type 0
IsPast d = (leb 0x20 d.rune ≡ true) × (not (d.rune == 0x7f) ≡ true)

shown_past : (d : Rune) → IsPast d → is_unsafe_rune d.rune ≡ false → is_shown d.rune ≡ true
shown_past d p h = rw (p.0, p.1, h) refl

write_rune-Fits :
    (max : ℕ) (here : Text) (out : List ℕ) (d : Rune)
    → IsPast d
    → (is_invalid d ≡ false → rune_size d.rune ≤ d.size)
    → Fits is_shown max out
    → Leaves (Fits is_shown max) (write_rune max here out d)
write_rune-Fits max here out d p s f =
    Leaves-if (Fits is_shown max) (is_invalid d) _ _
      (λ e.
        Leaves-if (Fits is_shown max) (ltb max (size_of out + 3)) _ _ (λ o. f)
          (λ o. Fits-append is_shown max out rune_error (not_over max (size_of out + 3) o) refl f))
      (λ e.
        Leaves-if (Fits is_shown max) (is_unsafe_rune d.rune) _ _ (λ u. f)
          (λ u.
            Leaves-if (Fits is_shown max) (ltb max (size_of out + d.size)) _ _ (λ o. f)
              (λ o.
                Fits-append is_shown max out d.rune
                  (sized (size_of out) (rune_size d.rune) d.size (s e)
                    (not_over max (size_of out + d.size) o))
                  (shown_past d p u) f)))
  where
    sized : (n a b : ℕ) → a ≤ b → n + b ≤ max → n + a ≤ max
    sized n a b h k = omega arith

decoded-IsPast :
    (c : ℕ) (rest : Text) → (ltb c 0x20 || c == 0x7f) ≡ false → IsPast (decode_rune (c ∷ rest))
decoded-IsPast c rest h = elim (Bool-cases (ltb c 0x80)) [
  | inl e ↦ rw (decode_rune-ascii c rest e) (plain c h)
  | inr e ↦ above (decode_rune (c ∷ rest)).rune (decode_rune-high c rest (high c e))
]
  where
    plain :
        (r : ℕ) → (ltb r 0x20 || r == 0x7f) ≡ false → (leb 0x20 r ≡ true) × (not (r == 0x7f) ≡ true)
    plain r k = ground arith

    above : (r : ℕ) → 0x80 ≤ r → (leb 0x20 r ≡ true) × (not (r == 0x7f) ≡ true)
    above r k = ground arith

    high : (r : ℕ) → ltb r 0x80 ≡ false → 0x80 ≤ r
    high r k = ground arith

terminal_step-Fits :
    (max : ℕ) (rest : Text) (out : List ℕ)
    → Fits is_shown max out
    → Leaves (Fits is_shown max) (terminal_step max rest out)
unfolding terminal_step
terminal_step-Fits max [] out f = f
terminal_step-Fits max (c ∷ rest) out f =
    Leaves-if (Fits is_shown max) (leb max (size_of out)) _ _ (λ e. f)
      (λ e.
        Leaves-if (Fits is_shown max) (c == 0x1b) _ _ (λ g. f)
          (λ g.
            Leaves-if (Fits is_shown max) (ltb c 0x20 || c == 0x7f) _ _
              (λ h. with_space-Fits max c out e f)
              (λ h.
                write_rune-Fits max (c ∷ rest) out (decode_rune (c ∷ rest))
                  (decoded-IsPast c rest h) (decode_rune-size c rest) f)))

-- What `Terminal` returns takes no more than the given number of bytes, and holds no escape
-- character, no other control character of ASCII or of Latin-1 and no bidirectional control, whatever
-- bytes it is given.
pub terminal-Fits :
    (value : Text) (max_bytes : ℤ)
    → (size_of (terminal value max_bytes) ≤ pos_part max_bytes)
      × All (λ r. is_shown r ≡ true) (terminal value max_bytes)
unfolding terminal
terminal-Fits value max_bytes =
    kept_if (Fits is_shown (pos_part max_bytes)) (not (is_positive max_bytes)) [] _
      (omega arith, tt)
      (trim_space-Fits is_shown (pos_part max_bytes) _ (
        scan-keeps (terminal_step (pos_part max_bytes)) (Fits is_shown (pos_part max_bytes))
          (terminal_step-Fits (pos_part max_bytes)) (length value) value [] (omega arith, tt)))
