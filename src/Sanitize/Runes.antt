-- ===== src/Sanitize/Runes.antt =====
-- Go's runes as internal/sanitize/text.go uses them: decoding, sizes, and the classes of Unicode that
-- it tests. A string that the code builds rune by rune is the list of its runes.
use cirewind.Base.{
  ℕ, zero, suc, ◌+◌, ◌-◌, ◌*◌, ◌≤◌, ◌<◌, ◌≡◌, refl, Bool, true, false, ◌&&◌, ◌||◌, List, [], ◌∷◌,
  ◌++◌, is_nil, ltb, leb, ◌==◌, if◌then◌else◌, Text, arith,
}

abbrev pub in_range : ℕ → ℕ → ℕ → Bool
in_range low high r = leb low r && leb r high

abbrev pub rune_error : ℕ
rune_error = 0xfffd

-- The size of a rune in UTF-8.
abbrev pub rune_size : ℕ → ℕ
rune_size r = if ltb r 0x80 then 1 else if ltb r 0x800 then 2 else if ltb r 0x10000 then 3 else 4

abbrev pub size_of : List ℕ → ℕ
size_of [] = 0
size_of (r ∷ rest) = rune_size r + size_of rest

-- The byte `n` places on, or 0, which continues no rune.
abbrev pub byte_at : ℕ → Text → ℕ
byte_at n [] = 0
byte_at zero (b ∷ rest) = b
byte_at (suc n) (b ∷ rest) = byte_at n rest

abbrev continues : ℕ → Bool
continues b = in_range 0x80 0xbf b

abbrev is_two : ℕ → ℕ → Bool
is_two a b = in_range 0xc2 0xdf a && continues b

abbrev is_three : ℕ → ℕ → ℕ → Bool
is_three a b c =
    ((a == 0xe0 && in_range 0xa0 0xbf b)
      || (a == 0xed && in_range 0x80 0x9f b)
      || ((in_range 0xe1 0xec a || in_range 0xee 0xef a) && continues b))
    && continues c

abbrev is_four : ℕ → ℕ → ℕ → ℕ → Bool
is_four a b c d =
    ((a == 0xf0 && in_range 0x90 0xbf b)
      || (a == 0xf4 && in_range 0x80 0x8f b)
      || (in_range 0xf1 0xf3 a && continues b))
    && continues c
    && continues d

pub record Rune : Type 0 where
  pub rune : ℕ
  pub size : ℕ

abbrev two_bytes : ℕ → ℕ → ℕ
two_bytes a b = (a - 0xc0) * 0x40 + (b - 0x80)

abbrev three_bytes : ℕ → ℕ → ℕ → ℕ
three_bytes a b c = (a - 0xe0) * 0x1000 + (b - 0x80) * 0x40 + (c - 0x80)

abbrev four_bytes : ℕ → ℕ → ℕ → ℕ → ℕ
four_bytes a b c d = (a - 0xf0) * 0x40000 + (b - 0x80) * 0x1000 + (c - 0x80) * 0x40 + (d - 0x80)

abbrev rune_of : ℕ → ℕ → ℕ → ℕ → Rune
rune_of a b c d =
    if ltb a 0x80
    then record { rune = a; size = 1 }
    else if is_two a b
    then record { rune = two_bytes a b; size = 2 }
    else if is_three a b c
    then record { rune = three_bytes a b c; size = 3 }
    else if is_four a b c d
    then record { rune = four_bytes a b c d; size = 4 }
    else record { rune = rune_error; size = 1 }

-- `utf8.DecodeRuneInString`
unfoldable pub decode_rune : Text → Rune
decode_rune [] = record { rune = rune_error; size = 0 }
decode_rune (a ∷ rest) = rune_of a (byte_at 0 rest) (byte_at 1 rest) (byte_at 2 rest)

abbrev pub is_invalid : Rune → Bool
is_invalid d = d.rune == rune_error && d.size == 1

-- `unicode.IsControl`
abbrev pub is_control : ℕ → Bool
is_control r = leb r 0x1f || in_range 0x7f 0x9f r

-- `unicode.IsSpace`
abbrev pub is_space : ℕ → Bool
is_space r =
    in_range 9 13 r
    || r == 0x20
    || r == 0x85
    || r == 0xa0
    || r == 0x1680
    || in_range 0x2000 0x200a r
    || r == 0x2028
    || r == 0x2029
    || r == 0x202f
    || r == 0x205f
    || r == 0x3000

-- `unicode.Is(unicode.Bidi_Control, r)`
abbrev pub is_bidi_control : ℕ → Bool
is_bidi_control r =
    r == 0x61c || in_range 0x200e 0x200f r || in_range 0x202a 0x202e r || in_range 0x2066 0x2069 r

-- `strings.TrimSpace`
abbrev pub trim_left : List ℕ → List ℕ
trim_left [] = []
trim_left (r ∷ rest) = let trimmed = trim_left rest in if is_space r then trimmed else r ∷ rest

abbrev pub trim_right : List ℕ → List ℕ
trim_right [] = []
trim_right (r ∷ rest) =
    let trimmed = trim_right rest in if is_nil trimmed && is_space r then [] else r ∷ trimmed

unfoldable pub trim_space : List ℕ → List ℕ
trim_space runes = trim_right (trim_left runes)

module _ (P : Rune → Type 0) (a b c d : ℕ) where
  -- To show a property of a decoded rune, by the number of its bytes.
  rune_of-cases :
      (ltb a 0x80 ≡ true → P record { rune = a; size = 1 })
      → (is_two a b ≡ true → P record { rune = two_bytes a b; size = 2 })
      → (is_three a b c ≡ true → P record { rune = three_bytes a b c; size = 3 })
      → (is_four a b c d ≡ true → P record { rune = four_bytes a b c d; size = 4 })
      → P record { rune = rune_error; size = 1 }
      → P (rune_of a b c d)
  rune_of-cases h1 h2 h3 h4 h5 =
      go (ltb a 0x80) (is_two a b) (is_three a b c) (is_four a b c d) h1 h2 h3 h4
    where
      go :
          (t1 t2 t3 t4 : Bool)
          → (t1 ≡ true → P record { rune = a; size = 1 })
          → (t2 ≡ true → P record { rune = two_bytes a b; size = 2 })
          → (t3 ≡ true → P record { rune = three_bytes a b c; size = 3 })
          → (t4 ≡ true → P record { rune = four_bytes a b c d; size = 4 })
          → P (
              if t1
              then record { rune = a; size = 1 }
              else if t2
              then record { rune = two_bytes a b; size = 2 }
              else if t3
              then record { rune = three_bytes a b c; size = 3 }
              else if t4
              then record { rune = four_bytes a b c d; size = 4 }
              else record { rune = rune_error; size = 1 })
      go true t2 t3 t4 k1 k2 k3 k4 = k1 refl
      go false true t3 t4 k1 k2 k3 k4 = k2 refl
      go false false true t4 k1 k2 k3 k4 = k3 refl
      go false false false true k1 k2 k3 k4 = k4 refl
      go false false false false k1 k2 k3 k4 = h5

in_range-bounds : (l h r : ℕ) → in_range l h r ≡ true → (l ≤ r) × (r ≤ h)
in_range-bounds l h r e = ground arith

two_bounds : (a b : ℕ) → is_two a b ≡ true → (0x80 ≤ two_bytes a b) × (two_bytes a b < 0x800)
two_bounds a b h = ground arith

three_bounds :
    (a b c : ℕ) → is_three a b c ≡ true → (0x80 ≤ three_bytes a b c) × (three_bytes a b c < 0x10000)
three_bounds a b c h = ground arith

four_bounds : (a b c d : ℕ) → is_four a b c d ≡ true → 0x80 ≤ four_bytes a b c d
four_bounds a b c d h = ground arith

small_size : (r n : ℕ) → r < n → n ≤ 0x10000 → rune_size r ≤ 3
small_size r n h k = ground arith

pub decode_rune-size :
    (a : ℕ) (rest : Text)
    → is_invalid (decode_rune (a ∷ rest)) ≡ false
    → rune_size (decode_rune (a ∷ rest)).rune ≤ (decode_rune (a ∷ rest)).size
unfolding decode_rune
decode_rune-size a rest =
    rune_of-cases (λ d. is_invalid d ≡ false → rune_size d.rune ≤ d.size) a (byte_at 0 rest)
      (byte_at 1 rest) (byte_at 2 rest) (λ e h. ground arith)
      (λ e h. two_size (two_bytes a (byte_at 0 rest)) (two_bounds a (byte_at 0 rest) e).1)
      (λ e h.
        small_size (three_bytes a (byte_at 0 rest) (byte_at 1 rest)) 0x10000
          (three_bounds a (byte_at 0 rest) (byte_at 1 rest) e).1 (omega arith))
      (λ e h. any_size (four_bytes a (byte_at 0 rest) (byte_at 1 rest) (byte_at 2 rest))) (λ h. cc)
  where
    two_size : (r : ℕ) → r < 0x800 → rune_size r ≤ 2
    two_size r h = ground arith

    any_size : (r : ℕ) → rune_size r ≤ 4
    any_size r = ground arith

-- A rune of more than one byte is above ASCII, and so is what stands for a bad byte.
pub decode_rune-high : (a : ℕ) (rest : Text) → 0x80 ≤ a → 0x80 ≤ (decode_rune (a ∷ rest)).rune
unfolding decode_rune
decode_rune-high a rest =
    rune_of-cases (λ d. 0x80 ≤ a → 0x80 ≤ d.rune) a (byte_at 0 rest) (byte_at 1 rest)
      (byte_at 2 rest) (λ e h. h) (λ e h. (two_bounds a (byte_at 0 rest) e).0)
      (λ e h. (three_bounds a (byte_at 0 rest) (byte_at 1 rest) e).0)
      (λ e h. four_bounds a (byte_at 0 rest) (byte_at 1 rest) (byte_at 2 rest) e) (λ h. omega arith)

pub decode_rune-ascii :
    (a : ℕ) (rest : Text) → ltb a 0x80 ≡ true → (decode_rune (a ∷ rest)).rune ≡ a
unfolding decode_rune
decode_rune-ascii a rest h = rw h refl

pub decode_rune-positive : (a : ℕ) (rest : Text) → 1 ≤ (decode_rune (a ∷ rest)).size
unfolding decode_rune
decode_rune-positive a rest =
    rune_of-cases (λ d. 1 ≤ d.size) a (byte_at 0 rest) (byte_at 1 rest) (byte_at 2 rest)
      (λ e. omega arith) (λ e. omega arith) (λ e. omega arith) (λ e. omega arith) (omega arith)

abbrev bad_byte : Rune
bad_byte = record { rune = rune_error; size = 1 }

-- No rune starts with a byte that continues one, nor with the two below the leads of two bytes.
pub decode_rune-stray :
    (a : ℕ) (rest : Text) → 0x80 ≤ a → a ≤ 0xc1 → decode_rune (a ∷ rest) ≡ bad_byte
unfolding decode_rune
decode_rune-stray a rest =
    rune_of-cases (λ d. 0x80 ≤ a → a ≤ 0xc1 → d ≡ bad_byte) a (byte_at 0 rest) (byte_at 1 rest)
      (byte_at 2 rest) (λ e h k. absurd (ground arith)) (λ e h k. absurd (ground arith))
      (λ e h k. absurd (ground arith)) (λ e h k. absurd (ground arith)) (λ h k. refl)

pub size_of-append : (xs ys : List ℕ) → size_of (xs ++ ys) ≡ size_of xs + size_of ys
size_of-append [] ys = omega arith
size_of-append (x ∷ xs) ys = omega (arith, size_of-append xs ys)
