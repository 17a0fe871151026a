-- ===== src/Base/Unique.antt =====
-- The loop that drops what it skips and the repeats of the element it last wrote; after a sort it
-- gives the canonical slice of a set.
use mathlib.Core.Path.{ap₂}
use cirewind.Base.{
  ◌≡◌, refl, ap, sym, ◌∙◌, Bool, true, false, ◌&&◌, ◌||◌, not, Option, none, some, List, [], ◌∷◌,
  ◌++◌, arith, All, Bool-cases, inl, inr, any, All-map, ||-eq_false,
}
use cirewind.Base.Order.{Order}
use cirewind.Base.Sort.{sort_by, IsSorted, sort_by-IsSorted, any-sort_by}

module _ {κ} {K : Type κ} ⦃o : Order K⦄ where
  abbrev pub elem : K → List K → Bool
  elem k xs = any (o.same k) xs

  -- Every key is above the ones before it.
  abbrev pub IsStrict : List K → Type 0
  IsStrict [] = Unit
  IsStrict (x ∷ xs) = All (λ y. o.less x y ≡ true) xs × IsStrict xs

  less-of_elem :
      (x y : K) (ys : List K)
      → All (λ z. o.less y z ≡ true) ys
      → elem x ys ≡ true
      → o.less y x ≡ true
  less-of_elem x y [] h e = cc
  less-of_elem x y (z ∷ ys) h e = ground (arith, o.same_sound x z, h.0, less-of_elem x y ys h.1)

  not_elem : (x : K) (ys : List K) → All (λ z. o.less x z ≡ true) ys → elem x ys ≡ false
  not_elem x ys h = elim (Bool-cases (elem x ys)) [
    | inl e ↦ absurd (absurd_less (less-of_elem x x ys h e))
    | inr e ↦ e
  ]
    where
      absurd_less : o.less x x ≡ true → ⊥
      absurd_less e = cc (o.less_irrefl x)

  heads_eq :
      (x y : K) (xs ys : List K)
      → IsStrict (x ∷ xs)
      → IsStrict (y ∷ ys)
      → elem x (y ∷ ys) ≡ true
      → elem y (x ∷ xs) ≡ true
      → x ≡ y
  heads_eq x y xs ys h k e f = ground (
    arith,
    o.same_sound x y,
    o.same_sound y x,
    less-of_elem x y ys k.0,
    less-of_elem y x xs h.0,
    o.less_trans x y x,
    o.less_irrefl x,
  )

  tails_same :
      (x y : K) (xs ys : List K)
      → x ≡ y
      → IsStrict (x ∷ xs)
      → IsStrict (y ∷ ys)
      → (k : K) → elem k (x ∷ xs) ≡ elem k (y ∷ ys)
      → elem k xs ≡ elem k ys
  tails_same x y xs ys p h g k e =
      ground (arith, o.same_sound k x, o.same_sound k y, not_elem x xs h.0, not_elem y ys g.0)

  -- Two strictly ascending lists with the same members are one list.
  pub IsStrict-ext :
      (xs ys : List K) → IsStrict xs → IsStrict ys → ((k : K) → elem k xs ≡ elem k ys) → xs ≡ ys
  IsStrict-ext [] [] h g e = refl
  IsStrict-ext [] (y ∷ ys) h g e = cc (e y, o.same_refl y)
  IsStrict-ext (x ∷ xs) [] h g e = cc (e x, o.same_refl x)
  IsStrict-ext (x ∷ xs) (y ∷ ys) h g e =
      let p : x ≡ y =
        heads_eq x y xs ys h g (ground (arith, e x, o.same_refl x))
          (ground (arith, e y, o.same_refl y)) in
      ap₂ (λ z l. z ∷ l) p (IsStrict-ext xs ys h.1 g.1 (λ k. tails_same x y xs ys p h g k (e k)))

  any-of_elem :
      (p : K → Bool) (x : K) (ys : List K) → elem x ys ≡ true → p x ≡ true → any p ys ≡ true
  any-of_elem p x [] e h = cc
  any-of_elem p x (y ∷ ys) e h = elim (Bool-cases (o.same x y)) [
    | inl f ↦ rw (sym (o.same_sound x y f), h) refl
    | inr f ↦ ground (arith, any-of_elem p x ys)
  ]

  any-subset :
      (p : K → Bool) (xs ys : List K)
      → ((k : K) → elem k xs ≡ true → elem k ys ≡ true)
      → any p xs ≡ true
      → any p ys ≡ true
  any-subset p [] ys h e = cc
  any-subset p (x ∷ xs) ys h e = elim (Bool-cases (p x)) [
    | inl f ↦ any-of_elem p x ys (h x (rw (o.same_refl x) refl)) f
    | inr f ↦ any-subset p xs ys (λ k g. h k (ground arith)) (ground arith)
  ]

  -- A test of some member depends on the set of members alone.
  pub any-same_members :
      (p : K → Bool) (xs ys : List K) → ((k : K) → elem k xs ≡ elem k ys) → any p xs ≡ any p ys
  any-same_members p xs ys h = elim (Bool-cases (any p xs)) [
    | inl e ↦ e ∙ sym (any-subset p xs ys (λ k g. sym (h k) ∙ g) e)
    | inr e ↦ elim (Bool-cases (any p ys)) [
      | inl f ↦ any-subset p ys xs (λ k g. h k ∙ g) f ∙ sym f
      | inr f ↦ e ∙ sym f
    ]
  ]

  pub All_above :
      (l x : K) (xs : List K)
      → o.less l x ≡ true
      → All (λ y. o.less x y ≡ true) xs
      → All (λ y. o.less l y ≡ true) xs
  All_above l x xs h =
      All-map (λ y. o.less x y ≡ true) (λ y. o.less l y ≡ true) (λ y. o.less_trans l x y h) xs

module _ {κ} {K : Type κ} ⦃o : Order K⦄ (skip : K → Bool) where
  abbrev repeats : Option K → K → Bool
  repeats none x = false
  repeats (some l) x = o.same l x

  unfoldable pub compact : Option K → List K → List K
  compact last [] = []
  compact last (x ∷ xs) = elim (skip x || repeats last x) [
    | true ↦ compact last xs
    | false ↦ x ∷ compact (some x) xs
  ]

  unfoldable pub sorted_unique : List K → List K
  unfolding compact sort_by
  sorted_unique xs = compact none (sort_by (λ x. x) xs)

  above : (l x : K) → o.less x l ≡ false → o.same l x ≡ false → o.less l x ≡ true
  above l x h e = ground (arith, o.less_total l x, o.same_refl x)

  compact-skip :
      (last : Option K) (x : K) (xs : List K)
      → (skip x || repeats last x) ≡ true
      → compact last (x ∷ xs) ≡ compact last xs
  unfolding compact
  compact-skip last x xs e = ground arith

  compact-take :
      (last : Option K) (x : K) (xs : List K)
      → (skip x || repeats last x) ≡ false
      → compact last (x ∷ xs) ≡ x ∷ compact (some x) xs
  unfolding compact
  compact-take last x xs e = ground arith

  compact-nil : (last : Option K) → compact last [] ≡ []
  unfolding compact
  compact-nil last = refl

  -- After a key `l` that nothing is below: what is written is above `l`, and strictly ascending.
  compact-after :
      (l : K) (xs : List K) → IsSorted (λ x. x) (l ∷ xs) → IsStrict (l ∷ compact (some l) xs)
  compact-after l [] h = rw (compact-nil (some l)) (tt, tt)
  compact-after l (x ∷ xs) h = elim (Bool-cases (skip x || o.same l x)) [
    | inl e ↦ rw (compact-skip (some l) x xs e) (compact-after l xs (h.0.1, h.1.1))
    | inr e ↦
        rw (compact-take (some l) x xs e)
          (step (||-eq_false (skip x) (o.same l x) e).1 (compact-after x xs h.1))
  ]
    where
      step :
          o.same l x ≡ false
          → IsStrict (x ∷ compact (some x) xs)
          → IsStrict (l ∷ x ∷ compact (some x) xs)
      step e k =
          ((above l x h.0.0 e, All_above l x (compact (some x) xs) (above l x h.0.0 e) k.0), k)

  compact-IsStrict : (xs : List K) → IsSorted (λ x. x) xs → IsStrict (compact none xs)
  compact-IsStrict [] h = rw (compact-nil none) tt
  compact-IsStrict (x ∷ xs) h = elim (Bool-cases (skip x || false)) [
    | inl e ↦ rw (compact-skip none x xs e) (compact-IsStrict xs h.1)
    | inr e ↦ rw (compact-take none x xs e) (compact-after x xs h)
  ]

  pub sorted_unique-IsStrict : (xs : List K) → IsStrict (sorted_unique xs)
  unfolding sorted_unique
  sorted_unique-IsStrict xs = compact-IsStrict (sort_by (λ x. x) xs) (sort_by-IsSorted (λ x. x) xs)

  elem-compact :
      (k : K) (last : Option K) (xs : List K)
      → repeats last k ≡ false
      → elem k (compact last xs) ≡ (elem k xs && not (skip k))
  unfolding compact
  elem-compact k last [] h = refl
  elem-compact k last (x ∷ xs) h = ground (
    arith,
    o.same_sound k x,
    o.same_sound x k,
    o.same_refl k,
    elem-compact k last xs h,
    elem-compact k (some x) xs,
  )

  pub elem-sorted_unique :
      (k : K) (xs : List K) → elem k (sorted_unique xs) ≡ (elem k xs && not (skip k))
  unfolding sorted_unique
  elem-sorted_unique k xs =
      rw (elem-compact k none (sort_by (λ x. x) xs) refl, any-sort_by (λ x. x) (o.same k) xs)

  -- The result depends on the set of members alone.
  pub sorted_unique_canonical :
      (xs ys : List K) → ((k : K) → elem k xs ≡ elem k ys) → sorted_unique xs ≡ sorted_unique ys
  sorted_unique_canonical xs ys h =
      IsStrict-ext (sorted_unique xs) (sorted_unique ys) (sorted_unique-IsStrict xs)
        (sorted_unique-IsStrict ys)
        (λ k.
          rw (elem-sorted_unique k xs, elem-sorted_unique k ys) (ap (λ b. b && not (skip k)) (h k)))

  elem-append : (k : K) (xs ys : List K) → elem k (xs ++ ys) ≡ (elem k xs || elem k ys)
  elem-append k [] ys = refl
  elem-append k (x ∷ xs) ys = ground (arith, elem-append k xs ys)

  -- To sort and compact before the next elements come is the same as to do it at the end.
  pub sorted_unique-append :
      (xs ys : List K) → sorted_unique (sorted_unique xs ++ ys) ≡ sorted_unique (xs ++ ys)
  sorted_unique-append xs ys =
      IsStrict-ext (sorted_unique (sorted_unique xs ++ ys)) (sorted_unique (xs ++ ys))
        (sorted_unique-IsStrict (sorted_unique xs ++ ys)) (sorted_unique-IsStrict (xs ++ ys))
        (λ k.
          rw
            (
              elem-sorted_unique k (sorted_unique xs ++ ys),
              elem-sorted_unique k (xs ++ ys),
              elem-append k (sorted_unique xs) ys,
              elem-append k xs ys,
              elem-sorted_unique k xs,
            )
            (absorb (elem k xs) (elem k ys) (not (skip k))))
    where
      absorb : (a b c : Bool) → (((a && c) || b) && c) ≡ ((a || b) && c)
      absorb a b c = ground arith
