-- ===== src/Model/Hex.antt =====
-- internal/model/ids.go: what the checks of digests accept.
use cirewind.Base.{
  ℕ, ◌≡◌, refl, ◌&&◌, not, [], ◌∷◌, arith, ◌==◌, length, Text, same_text, to_lower, lower_byte,
  passes, String,
}
use cirewind.Model.Texts.{all, is_hex, is_upper, validate_sha256}
use cirewind.Model.Ids.{
  is_lower_hex, GitObjectId, expected_hex_length, algorithm_valid, validate_git_object_id,
}

lower_byte_same : (c : ℕ) → (c == lower_byte c) ≡ not (is_upper c)
unfolding lower_byte
lower_byte_same c = ground arith

same_text-to_lower : (s : Text) → same_text s (to_lower s) ≡ all (λ c. not (is_upper c)) s
unfolding same_text to_lower
same_text-to_lower [] = refl
same_text-to_lower (c ∷ s) = ground (arith, lower_byte_same c, same_text-to_lower s)

hex_byte : (c : ℕ) → (not (is_upper c) && is_hex c) ≡ is_lower_hex c
hex_byte c = ground arith

all-is_lower_hex : (s : Text) → (all (λ c. not (is_upper c)) s && all is_hex s) ≡ all is_lower_hex s
all-is_lower_hex [] = refl
all-is_lower_hex (c ∷ s) = ground (arith, hex_byte c, all-is_lower_hex s)

-- A SHA-256 value is accepted exactly when it has 64 characters, each a digit or one of a to f.
pub validate_sha256_lem :
    (value : Text) (name : String)
    → passes (validate_sha256 value name) ≡ (length value == 64 && all is_lower_hex value)
unfolding validate_sha256
validate_sha256_lem value name = ground (arith, same_text-to_lower value, all-is_lower_hex value)

-- A Git object id is accepted exactly when its algorithm is known and it has that algorithm's number
-- of characters, 40 or 64, each a digit or one of a to f.
pub validate_git_object_id_lem :
    (id : GitObjectId)
    → passes (validate_git_object_id id) ≡ (
        algorithm_valid id.algorithm
        && (length id.value == expected_hex_length id.algorithm && all is_lower_hex id.value))
unfolding validate_git_object_id algorithm_valid expected_hex_length
validate_git_object_id_lem id =
    ground (arith, same_text-to_lower id.value, all-is_lower_hex id.value)
