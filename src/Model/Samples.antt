-- ===== src/Model/Samples.antt =====
-- Runs of the text and path checks on short strings.
use cirewind.Base.{◌≡◌, refl, true, false, [], ◌∷◌, text, passes}
use cirewind.Model.Texts.{valid_utf8}
use cirewind.Model.Paths.{clean, validate_workflow_path, validate_repository_slug}

two_bytes : valid_utf8 (0xC3 ∷ 0xA9 ∷ []) ≡ true
unfolding valid_utf8
two_bytes = refl

overlong : valid_utf8 (0xC0 ∷ 0x80 ∷ []) ≡ false
unfolding valid_utf8
overlong = refl

surrogate : valid_utf8 (0xED ∷ 0xA0 ∷ 0x80 ∷ []) ≡ false
unfolding valid_utf8
surrogate = refl

cut_short : valid_utf8 (0xE2 ∷ 0x82 ∷ []) ≡ false
unfolding valid_utf8
cut_short = refl

cleaned : clean (text "a//b/./../c/") ≡ text "a/c"
unfolding clean
cleaned = refl

cleaned_above : clean (text "../a/../../b") ≡ text "../../b"
unfolding clean
cleaned_above = refl

cleaned_root : clean (text "/../a") ≡ text "/a"
unfolding clean
cleaned_root = refl

cleaned_empty : clean (text "a/..") ≡ text "."
unfolding clean
cleaned_empty = refl

canonical : passes (validate_workflow_path (text ".github/workflows/ci.yml")) ≡ true
unfolding validate_workflow_path
canonical = refl

escaping : passes (validate_workflow_path (text "../ci.yml")) ≡ false
unfolding validate_workflow_path
escaping = refl

slug : passes (validate_repository_slug (text "owner/name")) ≡ true
unfolding validate_repository_slug
slug = refl

no_owner : passes (validate_repository_slug (text "/name")) ≡ false
unfolding validate_repository_slug
no_owner = refl
