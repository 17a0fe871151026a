-- ===== src/Base/Sort.antt =====
-- `sort.Slice`, `sort.Strings`, and the loops that drop the repeats of a sorted slice. The key of
-- an element is what the source compares; where two elements have one key, Go leaves their order
-- open and the model keeps the order of the input.
use mathlib.Core.List.{Perm}
use mathlib.Core.List.Perm
use cirewind.Base.{
  ◌≡◌, refl, Bool, true, false, ◌||◌, List, [], ◌∷◌, arith, if◌then◌else◌, All, All-map, any,
  length, suc, count_of,
}
use cirewind.Base.Order.{Order}

module _ {ℓ κ} {A : Type ℓ} {K : Type κ} (key : A → K) ⦃o : Order K⦄ where
  unfoldable pub insert_by : A → List A → List A
  insert_by x [] = x ∷ []
  insert_by x (y ∷ ys) =
      let rest = insert_by x ys in if o.less (key y) (key x) then y ∷ rest else x ∷ y ∷ ys

  unfoldable pub sort_by : List A → List A
  unfolding insert_by
  sort_by [] = []
  sort_by (x ∷ xs) = insert_by x (sort_by xs)

  -- No later key is below an earlier one.
  abbrev pub IsSorted : List A → Type κ
  IsSorted [] = Unit
  IsSorted (x ∷ xs) = All (λ y. o.less (key y) (key x) ≡ false) xs × IsSorted xs

  insert_by-perm : (x : A) (ys : List A) → Perm (insert_by x ys) (x ∷ ys)
  unfolding insert_by
  insert_by-perm x [] = Perm.refl (x ∷ [])
  insert_by-perm x (y ∷ ys) = go (o.less (key y) (key x)) (insert_by-perm x ys)
    where
      go :
          (b : Bool)
          → Perm (insert_by x ys) (x ∷ ys)
          → Perm (if b then y ∷ insert_by x ys else x ∷ y ∷ ys) (x ∷ y ∷ ys)
      go true h = Perm.trans (Perm.cons y h) (Perm.swap x y ys)
      go false h = Perm.refl (x ∷ y ∷ ys)

  pub sort_by-perm : (xs : List A) → Perm (sort_by xs) xs
  unfolding sort_by
  sort_by-perm [] = Perm.refl []
  sort_by-perm (x ∷ xs) = Perm.trans (insert_by-perm x (sort_by xs)) (Perm.cons x (sort_by-perm xs))

  pub All-insert_by {μ} :
      (P : A → Type μ) (x : A) (ys : List A) → P x → All P ys → All P (insert_by x ys)
  unfolding insert_by
  All-insert_by P x [] p h = (p, tt)
  All-insert_by P x (y ∷ ys) p h = go (o.less (key y) (key x)) (All-insert_by P x ys p h.1)
    where
      go :
          (b : Bool) → All P (insert_by x ys) → All P (if b then y ∷ insert_by x ys else x ∷ y ∷ ys)
      go true k = (h.0, k)
      go false k = (p, h)

  pub All-sort_by {μ} : (P : A → Type μ) (xs : List A) → All P xs → All P (sort_by xs)
  unfolding sort_by
  All-sort_by P [] h = tt
  All-sort_by P (x ∷ xs) h = All-insert_by P x (sort_by xs) h.0 (All-sort_by P xs h.1)

  -- A key at or above `y` that is not below `x`.
  le_step : (x y z : K) → o.less y x ≡ false → o.less z y ≡ false → o.less z x ≡ false
  le_step x y z h k = ground (
    arith,
    o.less_trans z x y,
    o.less_total y x,
    o.less_total z x,
    o.less_irrefl x,
    o.less_total z y,
    o.less_trans y z x,
  )

  not_below : (x y : K) → o.less y x ≡ true → o.less x y ≡ false
  not_below x y h = ground (arith, o.less_trans y x y, o.less_irrefl y)

  insert_by-IsSorted : (x : A) (ys : List A) → IsSorted ys → IsSorted (insert_by x ys)
  unfolding insert_by
  insert_by-IsSorted x [] h = (tt, tt)
  insert_by-IsSorted x (y ∷ ys) h = go (o.less (key y) (key x)) refl (insert_by-IsSorted x ys h.1)
    where
      go :
          (b : Bool)
          → o.less (key y) (key x) ≡ b
          → IsSorted (insert_by x ys)
          → IsSorted (if b then y ∷ insert_by x ys else x ∷ y ∷ ys)
      go true e k = (
        All-insert_by (λ z. o.less (key z) (key y) ≡ false) x ys (not_below (key x) (key y) e) h.0,
        k,
      )
      go false e k = (
        (
          e,
          All-map (λ z. o.less (key z) (key y) ≡ false) (λ z. o.less (key z) (key x) ≡ false)
              (λ z. le_step (key x) (key y) (key z) e) ys h.0,
        ),
        h,
      )

  pub sort_by-IsSorted : (xs : List A) → IsSorted (sort_by xs)
  unfolding sort_by
  sort_by-IsSorted [] = tt
  sort_by-IsSorted (x ∷ xs) = insert_by-IsSorted x (sort_by xs) (sort_by-IsSorted xs)

  any-insert_by : (p : A → Bool) (x : A) (ys : List A) → any p (insert_by x ys) ≡ (p x || any p ys)
  unfolding insert_by
  any-insert_by p x [] = refl
  any-insert_by p x (y ∷ ys) = ground (arith, any-insert_by p x ys)

  pub any-sort_by : (p : A → Bool) (xs : List A) → any p (sort_by xs) ≡ any p xs
  unfolding sort_by
  any-sort_by p [] = refl
  any-sort_by p (x ∷ xs) = ground (arith, any-insert_by p x (sort_by xs), any-sort_by p xs)

  length-insert_by : (x : A) (ys : List A) → length (insert_by x ys) ≡ suc (length ys)
  unfolding insert_by
  length-insert_by x [] = refl
  length-insert_by x (y ∷ ys) = ground (arith, length-insert_by x ys)

  pub length-sort_by : (xs : List A) → length (sort_by xs) ≡ length xs
  unfolding sort_by
  length-sort_by [] = refl
  length-sort_by (x ∷ xs) = ground (arith, length-insert_by x (sort_by xs), length-sort_by xs)

  count_of-insert_by :
      (p : A → Bool) (x : A) (ys : List A) → count_of p (insert_by x ys) ≡ count_of p (x ∷ ys)
  unfolding insert_by
  count_of-insert_by p x [] = refl
  count_of-insert_by p x (y ∷ ys) = ground (arith, count_of-insert_by p x ys)

  pub count_of-sort_by : (p : A → Bool) (xs : List A) → count_of p (sort_by xs) ≡ count_of p xs
  unfolding sort_by
  count_of-sort_by p [] = refl
  count_of-sort_by p (x ∷ xs) =
      ground (arith, count_of-insert_by p x (sort_by xs), count_of-sort_by p xs)
