-- ===== src/Exposure/Unshared.antt =====
-- internal/exposure/exposure.go: `sortedUnique` and `append` on slices, where no other slice has
-- their arrays.
use cirewind.Base.{
  ℕ, suc, ◌≤◌, ◌<◌, ◌≡◌, refl, sym, ◌∙◌, ap, ◌⊎◌, true, false, Option, none, some, List, [], ◌∷◌,
  ◌++◌, length, length-append, take, leb, ◌==◌, arith, Text, Bool-cases, inl, inr,
}
use cirewind.Exposure.Permissions.{unique_evidence}
use cirewind.Exposure.Stored.{
  Slice, Store, Stored, write, values, unique_slice, append_slice, joined_slice, merged_slice,
}

take-append : (xs ys : List Text) → take (length xs) (xs ++ ys) ≡ xs
take-append [] ys = refl
take-append (x ∷ xs) ys = ap (λ l. x ∷ l) (take-append xs ys)

-- Its array is in use and has room for it.
pub record IsHeld (store : Store) (s : Slice) : Type 0 where
  pub used : s.array < store.fresh
  pub fits : s.count ≤ length (store.arrays s.array)

-- A call has written a slice with such values, in no array but its own.
pub record Wrote (before : Store) (after : Slice × Store) (result : List Text) : Type 0 where
  pub held : IsHeld after.1 after.0
  pub grows : before.fresh ≤ after.1.fresh
  pub reads : values after.1 after.0 ≡ result
  pub others : (b : ℕ) → (b == after.0.array) ≡ false → after.1.arrays b ≡ before.arrays b

same_array : (a : ℕ) → (a == a) ≡ true
same_array a = ground arith

written : (a : ℕ) (xs : List Text) (store : Store) → (write a xs store).arrays a ≡ xs
written a xs store = rw (same_array a) refl

written_other :
    (a b : ℕ) (xs : List Text) (store : Store)
    → (b == a) ≡ false
    → (write a xs store).arrays b ≡ store.arrays b
written_other a b xs store e = rw e refl

-- Writing values and more to the start of an array.
Wrote-write :
    (store store' : Store) (a : ℕ) (xs more : List Text)
    → a < store'.fresh
    → store.fresh ≤ store'.fresh
    → ((b : ℕ) → store'.arrays b ≡ store.arrays b)
    → Wrote store (record { array = a; count = length xs }, write a (xs ++ more) store') xs
Wrote-write store store' a xs more h g same = record {
  held = record { used = h; fits = rw (same_array a) (omega (arith, length-append xs more)) };
  grows = g;
  reads = rw (same_array a) (take-append xs more);
  others = λ b e. written_other a b (xs ++ more) store' e ∙ same b;
}

unique_slice-Wrote :
    (s : Slice) (store : Store)
    → IsHeld store s
    → Wrote store (unique_slice s store) (unique_evidence (values store s))
unfolding unique_slice
unique_slice-Wrote s store h =
    Wrote-write store store s.array (unique_evidence (values store s)) _ h.used (omega arith)
      (λ b. refl)

append_slice-Wrote :
    (grow : List Text → List Text) (s t : Slice) (store : Store)
    → IsHeld store s
    → Wrote store (append_slice grow s t store) (values store s ++ values store t)
unfolding append_slice
append_slice-Wrote grow s t store h =
    let all = values store s ++ values store t in
    elim (Bool-cases (leb (length all) (length (store.arrays s.array)))) [
      | inl e ↦ rw e (Wrote-write store store s.array all _ h.used (omega arith) (λ b. refl))
      | inr e ↦ rw e (
          Wrote-write store (record store { fresh = suc store.fresh }) store.fresh all _
            (omega arith) (omega arith) (λ b. refl))
    ]

-- Where the slice of a merge stands: in the array of the slice given, or in the one of the entry
-- before, or in a fresh one.
abbrev pub Stands : Option Stored → Slice → Store → ℕ → Type 0
Stands none s store a = a ≡ s.array
Stands (some q) s store a = (a ≡ q.evidence.array) ⊎ (a ≡ store.fresh)

append_slice-Stands :
    (grow : List Text → List Text) (q : Stored) (s : Slice) (store : Store)
    → Stands (some q) s store (append_slice grow q.evidence s store).0.array
unfolding append_slice
append_slice-Stands grow q s store =
    let all = values store q.evidence ++ values store s in
    elim (Bool-cases (leb (length all) (length (store.arrays q.evidence.array)))) [
      | inl e ↦ inl (rw e refl)
      | inr e ↦ inr (rw e refl)
    ]

pub merged_slice-Stands :
    (grow : List Text → List Text) (previous : Option Stored) (s : Slice) (store : Store)
    → Stands previous s store (merged_slice grow previous s store).0.array
unfolding merged_slice unique_slice joined_slice
merged_slice-Stands grow none s store = refl
merged_slice-Stands grow (some q) s store = append_slice-Stands grow q s store

abbrev pub read_before : Store → Option Stored → List Text
read_before store none = []
read_before store (some q) = values store q.evidence

abbrev pub HeldBefore : Store → Option Stored → Type 0
HeldBefore store none = Unit
HeldBefore store (some q) = IsHeld store q.evidence

unique_slice-array : (s : Slice) (store : Store) → (unique_slice s store).0.array ≡ s.array
unfolding unique_slice
unique_slice-array s store = refl

pub merged_slice-Wrote :
    (grow : List Text → List Text) (previous : Option Stored) (s : Slice) (store : Store)
    → IsHeld store s
    → HeldBefore store previous
    → Wrote store
        (merged_slice grow previous s store)
        (unique_evidence (read_before store previous ++ values store s))
unfolding merged_slice joined_slice
merged_slice-Wrote grow none s store h k = unique_slice-Wrote s store h
merged_slice-Wrote grow (some q) s store h k =
    let a = append_slice-Wrote grow q.evidence s store k in
    let after = append_slice grow q.evidence s store in
    let u = unique_slice-Wrote after.0 after.1 a.held in
    record {
      held = u.held;
      grows = omega (arith, a.grows, u.grows);
      reads = u.reads ∙ ap unique_evidence a.reads;
      others = λ b e.
          u.others b e
          ∙ a.others b (ap (λ c. b == c) (sym (unique_slice-array after.0 after.1)) ∙ e);
    }
