-- ===== src/Exposure/Stored.antt =====
-- internal/exposure/exposure.go: `effectivePermissions` on slices: an evidence list is a part of an
-- array in a store that `sortedUnique` and `append` write to.
use cirewind.Base.{
  ℕ, suc, Bool, true, false, Option, none, some, List, [], ◌∷◌, ◌++◌, if◌then◌else◌, any, map,
  length, drop, take, leb, ◌==◌, Text, same_text, to_lower,
}
use cirewind.Base.Order.{text_order}
use cirewind.Base.Sort.{sort_by}
use cirewind.Exposure.Types.{Permission}
use cirewind.Exposure.Permissions.{unique_evidence, is_considered, is_runtime}

-- A slice with the memory up to its capacity, which is its array.
pub record Slice : Type 0 where
  pub array : ℕ
  pub count : ℕ

-- The arrays by number; those from `fresh` on are not in use.
pub record Store : Type 0 where
  pub arrays : ℕ → List Text
  pub fresh : ℕ

abbrev pub write : ℕ → List Text → Store → Store
write a values store = record store { arrays = λ b. if b == a then values else store.arrays b }

abbrev pub values : Store → Slice → List Text
values store s = take s.count (store.arrays s.array)

-- The slices that a permission of the input has, or an entry of the map.
pub record Stored : Type 0 where
  pub name : Text
  pub access : Text
  pub basis : Text
  pub evidence : Slice

abbrev pub read : Store → Stored → Permission
read store p = record {
  name = p.name;
  access = p.access;
  basis = p.basis;
  evidence_ids = values store p.evidence;
}

-- `sortedUnique`: the slice is sorted in place, and what is kept goes to its start. What is left
-- behind it in the array stays there.
unfoldable pub unique_slice : Slice → Store → Slice × Store
unfolding unique_evidence sort_by
unique_slice s store =
    let kept = unique_evidence (values store s) in
    let whole = sort_by (λ t. t) (values store s) ++ drop s.count (store.arrays s.array) in
    (
      record { array = s.array; count = length kept },
      write s.array (kept ++ drop (length kept) whole) store,
    )

-- `append(s, t...)`: in place where the capacity is enough, else in a fresh array; `grow` is the
-- capacity that the run time adds.
unfoldable pub append_slice : (List Text → List Text) → Slice → Slice → Store → Slice × Store
append_slice grow s t store =
    let all = values store s ++ values store t in
    let rest = drop (length all) (store.arrays s.array) in
    if leb (length all) (length (store.arrays s.array))
    then (record { array = s.array; count = length all }, write s.array (all ++ rest) store)
    else (
      record { array = store.fresh; count = length all },
      write store.fresh (all ++ grow all) (record store { fresh = suc store.fresh }),
    )

abbrev pub is_called : Text → Stored → Bool
is_called name p = same_text p.name name

unfoldable pub find_stored : Text → List Stored → Option Stored
unfolding same_text
find_stored name [] = none
find_stored name (p ∷ rest) =
    let found = find_stored name rest in if is_called name p then some p else found

unfoldable pub put_stored : Stored → List Stored → List Stored
unfolding same_text
put_stored p [] = p ∷ []
put_stored p (q ∷ rest) =
    let rest' = put_stored p rest in if is_called p.name q then p ∷ rest else q ∷ rest'

-- The slice that is given to `sortedUnique`.
unfoldable pub joined_slice :
    (List Text → List Text) → Option Stored → Slice → Store → Slice × Store
unfolding append_slice
joined_slice grow none s store = (s, store)
joined_slice grow (some q) s store = append_slice grow q.evidence s store

unfoldable pub merged_slice :
    (List Text → List Text) → Option Stored → Slice → Store → Slice × Store
unfolding joined_slice unique_slice
merged_slice grow previous s store =
    let joined = joined_slice grow previous s store in unique_slice joined.0 joined.1

abbrev pub lowered : Stored → Slice → Stored
lowered p s = record {
  name = to_lower p.name;
  access = to_lower p.access;
  basis = p.basis;
  evidence = s;
}

unfoldable pub merge_stored :
    (List Text → List Text) → Bool → List Stored → List Stored → Store → List Stored × Store
unfolding merged_slice find_stored put_stored to_lower same_text
merge_stored grow has_runtime [] by_name store = (by_name, store)
merge_stored grow has_runtime (p ∷ rest) by_name store =
    elim (is_considered has_runtime (read store p)) [
      | false ↦ merge_stored grow has_runtime rest by_name store
      | true ↦
          let m = merged_slice grow (find_stored (to_lower p.name) by_name) p.evidence store in
          merge_stored grow has_runtime rest (put_stored (lowered p m.0) by_name) m.1
    ]

-- The result as its caller reads it.
unfoldable pub effective_stored : (List Text → List Text) → List Stored → Store → List Permission
unfolding merge_stored sort_by same_text
effective_stored grow input store =
    let merged = merge_stored grow (any is_runtime (map (read store) input)) input [] store in
    sort_by (λ p. p.name) (map (read merged.1) merged.0)
