-- ===== src/Exposure/Permissions.antt =====
-- internal/exposure/exposure.go: `effectivePermissions`. The map by name is a list, an entry written
-- again in its place; the sort by name takes the place of Go's order of iteration.
use cirewind.Base.{
  Bool, ◌&&◌, not, Option, none, some, List, [], ◌∷◌, ◌++◌, if◌then◌else◌, is_nil, any, Text,
  same_text, to_lower,
}
use cirewind.Base.Order.{text_order}
use cirewind.Base.Sort.{sort_by}
use cirewind.Base.Unique.{sorted_unique}
use cirewind.Exposure.Types.{Permission, basis_runtime_observed}

-- `sortedUnique`, which drops empty strings.
unfoldable pub unique_evidence : List Text → List Text
unfolding sorted_unique
unique_evidence values = sorted_unique is_nil values

abbrev pub is_runtime : Permission → Bool
is_runtime p = same_text p.basis basis_runtime_observed

abbrev pub is_named : Text → Permission → Bool
is_named name p = same_text p.name name

unfoldable pub find_permission : Text → List Permission → Option Permission
unfolding same_text
find_permission name [] = none
find_permission name (p ∷ rest) =
    let found = find_permission name rest in if is_named name p then some p else found

-- `byName[name] = permission`
unfoldable pub put_permission : Permission → List Permission → List Permission
unfolding same_text
put_permission p [] = p ∷ []
put_permission p (q ∷ rest) =
    let rest' = put_permission p rest in if is_named p.name q then p ∷ rest else q ∷ rest'

abbrev pub evidence_of : Option Permission → List Text
evidence_of none = []
evidence_of (some p) = p.evidence_ids

-- What is written for a permission, of the map before it.
abbrev pub merged : Permission → List Permission → Permission
merged p by_name = record {
  name = to_lower p.name;
  access = to_lower p.access;
  basis = p.basis;
  evidence_ids =
      unique_evidence (evidence_of (find_permission (to_lower p.name) by_name) ++ p.evidence_ids);
}

-- The two `continue`s of the loop, negated.
abbrev pub is_considered : Bool → Permission → Bool
is_considered has_runtime p =
    not (has_runtime && not (is_runtime p)) && not (is_nil (to_lower p.name))

unfoldable pub merge_permissions : Bool → List Permission → List Permission → List Permission
unfolding find_permission put_permission unique_evidence to_lower same_text
merge_permissions has_runtime [] by_name = by_name
merge_permissions has_runtime (p ∷ rest) by_name =
    merge_permissions has_runtime rest
      (if is_considered has_runtime p then put_permission (merged p by_name) by_name else by_name)

unfoldable pub effective_permissions : List Permission → List Permission
unfolding merge_permissions sort_by
effective_permissions input =
    sort_by (λ p. p.name) (merge_permissions (any is_runtime input) input [])
