-- ===== src/Model/Paths.antt =====
-- internal/model/ids.go: canonical repository-relative paths and repository names.
use cirewind.Base.{
  ℕ, Bool, true, false, ◌&&◌, ◌||◌, not, List, [], ◌∷◌, ◌++◌, if◌then◌else◌, ◌==◌, ltb, length,
  is_nil, any, Text, text, same_text, Result, ok, Checked, refuse_if, ◌>>◌, ◌>>=◌,
}
use cirewind.Model.Texts.{valid_utf8, has_ascii_control}

-- `strings.HasPrefix`
unfoldable pub has_prefix : Text → Text → Bool
has_prefix s [] = true
has_prefix [] (p ∷ prefix) = false
has_prefix (c ∷ s) (p ∷ prefix) = c == p && has_prefix s prefix

abbrev add_byte : ℕ → List Text → List Text
add_byte c [] = (c ∷ []) ∷ []
add_byte c (part ∷ rest) = (c ∷ part) ∷ rest

-- `strings.Split(s, "/")`
unfoldable pub split_slash : Text → List Text
split_slash [] = [] ∷ []
split_slash (c ∷ s) = let rest = split_slash s in if c == b'/' then [] ∷ rest else add_byte c rest

abbrev dot : Text
dot = text "."

abbrev dot_dot : Text
dot_dot = text ".."

-- The elements that `path.Clean` keeps, the last one first.
abbrev clean_step : Bool → Text → List Text → List Text
clean_step rooted part [] =
    if is_nil part || same_text part dot
    then []
    else if same_text part dot_dot && rooted
    then []
    else part ∷ []
clean_step rooted part (top ∷ stack) =
    if is_nil part || same_text part dot
    then top ∷ stack
    else if same_text part dot_dot && not (same_text top dot_dot)
    then stack
    else part ∷ top ∷ stack

clean_parts : Bool → List Text → List Text → List Text
unfolding same_text
clean_parts rooted [] stack = stack
clean_parts rooted (part ∷ rest) stack = clean_parts rooted rest (clean_step rooted part stack)

join_reversed : List Text → Text → Text
join_reversed [] acc = acc
join_reversed (part ∷ rest) acc =
    join_reversed rest (part ++ (if is_nil acc then [] else b'/' ∷ acc))

abbrev is_rooted : Text → Bool
is_rooted [] = false
is_rooted (c ∷ s) = c == b'/'

abbrev finish_clean : Bool → Text → Text
finish_clean true joined = b'/' ∷ joined
finish_clean false joined = if is_nil joined then dot else joined

-- `path.Clean`
unfoldable pub clean : Text → Text
unfolding split_slash clean_parts join_reversed
clean s =
    finish_clean (is_rooted s) (join_reversed (clean_parts (is_rooted s) (split_slash s) []) [])

abbrev pub has_backslash : Text → Bool
has_backslash value = any (λ c. c == b'\\') value

-- `NewWorkflowPath`; a path that is accepted is returned as it came.
unfoldable pub new_workflow_path : Text → Result Text
unfolding valid_utf8 has_ascii_control has_prefix clean same_text
new_workflow_path value = do
  _ ← refuse_if (is_nil value) "workflow path is empty"
  _ ←
      refuse_if (not (valid_utf8 value) || ltb 4096 (length value) || has_ascii_control value)
        "workflow path is not a bounded UTF-8 path"
  _ ←
      refuse_if
        (has_backslash value
          || has_prefix value (text "/")
          || not (same_text (clean value) value)
          || same_text value (text ".")
          || has_prefix value (text "../"))
        "is not canonical repository-relative syntax"
  ok value

unfoldable pub validate_workflow_path : Text → Checked
unfolding new_workflow_path
validate_workflow_path value = new_workflow_path value >>= λ _. ok tt

abbrev is_bad_part : Text → Bool
is_bad_part part = is_nil part || same_text part (text ".") || same_text part (text "..")

abbrev is_owner_name : List Text → Bool
is_owner_name (owner ∷ name ∷ []) = not (is_bad_part owner || is_bad_part name)
is_owner_name _ = false

unfoldable pub validate_repository_slug : Text → Checked
unfolding valid_utf8 has_ascii_control split_slash same_text
validate_repository_slug value =
    refuse_if
      (not (valid_utf8 value)
        || length value == 0
        || ltb 512 (length value)
        || has_ascii_control value)
      "repository name must be bounded UTF-8"
    >> refuse_if (not (is_owner_name (split_slash value))) "must have owner/name form"
