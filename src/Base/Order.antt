-- ===== src/Base/Order.antt =====
-- Strict total orders given by a Boolean test, as `sort.Slice` takes them, and the orders of the
-- program's keys: numbers, signed numbers, strings by bytes, and pairs field by field.
use cirewind.Base.{
  ℕ, ◌≡◌, refl, Bool, true, false, ◌&&◌, ◌||◌, [], ◌∷◌, arith, ltb, ◌==◌, ==_refl, if◌then◌else◌,
  Text, same_text, same_text_sound, same_text_refl,
}
use cirewind.Base.Int.{ℤ, ltb_ℤ, same_ℤ, same_ℤ_refl}

pub record Order {ℓ} (K : Type ℓ) : Type ℓ where
  pub less : K → K → Bool
  pub less_irrefl : (a : K) → less a a ≡ false
  pub less_trans : (a b c : K) → less a b ≡ true → less b c ≡ true → less a c ≡ true
  pub less_total : (a b : K) → less a b ≡ false → less b a ≡ false → a ≡ b
  pub same : K → K → Bool
  pub same_sound : (a b : K) → same a b ≡ true → a ≡ b
  pub same_refl : (a : K) → same a a ≡ true

pub nat_same_sound : (a b : ℕ) → (a == b) ≡ true → a ≡ b
nat_same_sound a b h = ground arith

pub int_same_sound : (a b : ℤ) → same_ℤ a b ≡ true → a ≡ b
int_same_sound a b h = ground arith

pub ltb_irrefl : (a : ℕ) → ltb a a ≡ false
ltb_irrefl a = ground arith

pub ltb_trans : (a b c : ℕ) → ltb a b ≡ true → ltb b c ≡ true → ltb a c ≡ true
ltb_trans a b c h k = ground arith

pub ltb_total : (a b : ℕ) → ltb a b ≡ false → ltb b a ≡ false → a ≡ b
ltb_total a b h k = ground arith

instance abbrev pub nat_order : Order ℕ
nat_order = record {
  less = ltb;
  less_irrefl = ltb_irrefl;
  less_trans = ltb_trans;
  less_total = ltb_total;
  same = ◌==◌;
  same_sound = nat_same_sound;
  same_refl = ==_refl;
}

pub ltb_ℤ_irrefl : (a : ℤ) → ltb_ℤ a a ≡ false
ltb_ℤ_irrefl a = ground arith

pub ltb_ℤ_trans : (a b c : ℤ) → ltb_ℤ a b ≡ true → ltb_ℤ b c ≡ true → ltb_ℤ a c ≡ true
ltb_ℤ_trans a b c h k = ground arith

pub ltb_ℤ_total : (a b : ℤ) → ltb_ℤ a b ≡ false → ltb_ℤ b a ≡ false → a ≡ b
ltb_ℤ_total a b h k = ground arith

instance abbrev pub int_order : Order ℤ
int_order = record {
  less = ltb_ℤ;
  less_irrefl = ltb_ℤ_irrefl;
  less_trans = ltb_ℤ_trans;
  less_total = ltb_ℤ_total;
  same = same_ℤ;
  same_sound = int_same_sound;
  same_refl = same_ℤ_refl;
}

-- `a < b` on Go strings: byte by byte, a prefix first.
unfoldable pub text_less : Text → Text → Bool
text_less s [] = false
text_less [] (b ∷ t) = true
text_less (a ∷ s) (b ∷ t) = ltb a b || (a == b && text_less s t)

pub text_less_irrefl : (s : Text) → text_less s s ≡ false
unfolding text_less
text_less_irrefl [] = refl
text_less_irrefl (a ∷ s) = ground (arith, text_less_irrefl s)

pub text_less_trans :
    (s t u : Text) → text_less s t ≡ true → text_less t u ≡ true → text_less s u ≡ true
unfolding text_less
text_less_trans s [] u h k = cc
text_less_trans s (b ∷ t) [] h k = cc
text_less_trans [] (b ∷ t) (c ∷ u) h k = refl
text_less_trans (a ∷ s) (b ∷ t) (c ∷ u) h k = ground (arith, text_less_trans s t u)

pub text_less_total : (s t : Text) → text_less s t ≡ false → text_less t s ≡ false → s ≡ t
unfolding text_less
text_less_total [] [] h k = refl
text_less_total [] (b ∷ t) h k = cc
text_less_total (a ∷ s) [] h k = cc
text_less_total (a ∷ s) (b ∷ t) h k = ground (arith, text_less_total s t)

instance abbrev pub text_order : Order Text
text_order = record {
  less = text_less;
  less_irrefl = text_less_irrefl;
  less_trans = text_less_trans;
  less_total = text_less_total;
  same = same_text;
  same_sound = same_text_sound;
  same_refl = same_text_refl;
}

-- Two keys, the second deciding where the first are equal.
module _ {ℓ κ} {K : Type ℓ} {L : Type κ} ⦃o : Order K⦄ ⦃p : Order L⦄ where
  abbrev pub pair_less : K × L → K × L → Bool
  pair_less (a, x) (b, y) = if o.less a b then true else if o.less b a then false else p.less x y

  pub pair_less_irrefl : (a : K × L) → pair_less a a ≡ false
  pair_less_irrefl (a, x) = ground (arith, o.less_irrefl a, p.less_irrefl x)

  pub pair_less_total : (a b : K × L) → pair_less a b ≡ false → pair_less b a ≡ false → a ≡ b
  pair_less_total (a, x) (b, y) h k = ground (arith, o.less_total a b, p.less_total x y)

  pub pair_less_trans :
      (a b c : K × L) → pair_less a b ≡ true → pair_less b c ≡ true → pair_less a c ≡ true
  pair_less_trans (a, x) (b, y) (c, z) h k = ground (
    arith,
    o.less_irrefl a,
    o.less_trans a b c,
    o.less_trans c a b,
    o.less_trans b c a,
    o.less_trans c b a,
    o.less_trans a c b,
    o.less_total a b,
    o.less_total b c,
    p.less_trans x y z,
  )

  abbrev pub pair_same : K × L → K × L → Bool
  pair_same (a, x) (b, y) = o.same a b && p.same x y

  pub pair_same_sound : (a b : K × L) → pair_same a b ≡ true → a ≡ b
  pair_same_sound (a, x) (b, y) h = ground (arith, o.same_sound a b, p.same_sound x y)

  pub pair_same_refl : (a : K × L) → pair_same a a ≡ true
  pair_same_refl (a, x) = ground (arith, o.same_refl a, p.same_refl x)

  instance abbrev pub pair_order : Order (K × L)
  pair_order = record {
    less = pair_less;
    less_irrefl = pair_less_irrefl;
    less_trans = pair_less_trans;
    less_total = pair_less_total;
    same = pair_same;
    same_sound = pair_same_sound;
    same_refl = pair_same_refl;
  }
