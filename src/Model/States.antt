-- ===== src/Model/States.antt =====
-- internal/model/enums.go: finding states, provenance levels, and the decoding of string enums.
-- A Go string type with named constants is a data type; `other` holds any string that is none of
-- the constants.
use text.Mathlib.Text.{◌==◌ as str_eq}
use cirewind.Base.{
  ℕ, String, ◌≡◌, refl, Bool, true, List, [], ◌∷◌, if◌then◌else◌, ◌==◌, any, Result, ok, err,
}

pub data FindingState : Type 0 where
  confirmed_executed confirmed_downloaded confirmed_called_workflow : FindingState
  declared_at_run_sha run_in_window_mutable_ref potential_transitive : FindingState
  current_reference_only no_match_confirmed unknown_evidence_gap : FindingState
  contradictory_evidence : FindingState
  other : String → FindingState

-- The string that a value is in the program.
unfoldable pub state_text : FindingState → String
state_text confirmed_executed = "CONFIRMED_EXECUTED"
state_text confirmed_downloaded = "CONFIRMED_DOWNLOADED"
state_text confirmed_called_workflow = "CONFIRMED_CALLED_WORKFLOW"
state_text declared_at_run_sha = "DECLARED_AT_RUN_SHA"
state_text run_in_window_mutable_ref = "RUN_IN_WINDOW_MUTABLE_REF"
state_text potential_transitive = "POTENTIAL_TRANSITIVE"
state_text current_reference_only = "CURRENT_REFERENCE_ONLY"
state_text no_match_confirmed = "NO_MATCH_CONFIRMED"
state_text unknown_evidence_gap = "UNKNOWN_EVIDENCE_GAP"
state_text contradictory_evidence = "CONTRADICTORY_EVIDENCE"
state_text (other v) = v

abbrev state_tag : FindingState → ℕ
state_tag confirmed_executed = 0
state_tag confirmed_downloaded = 1
state_tag confirmed_called_workflow = 2
state_tag declared_at_run_sha = 3
state_tag run_in_window_mutable_ref = 4
state_tag potential_transitive = 5
state_tag current_reference_only = 6
state_tag no_match_confirmed = 7
state_tag unknown_evidence_gap = 8
state_tag contradictory_evidence = 9
state_tag (other v) = 10

-- `s == t`
abbrev pub same_state : FindingState → FindingState → Bool
same_state (other v) (other w) = str_eq v w
same_state s t = state_tag s == state_tag t

abbrev pub finding_states : List FindingState
finding_states =
    confirmed_executed ∷ confirmed_downloaded ∷ confirmed_called_workflow ∷ declared_at_run_sha
    ∷ run_in_window_mutable_ref ∷ potential_transitive ∷ current_reference_only ∷ no_match_confirmed
    ∷ unknown_evidence_gap ∷ contradictory_evidence ∷ []

unfoldable pub state_valid : FindingState → Bool
state_valid s = any (same_state s) finding_states

pub data ProvenanceLevel : Type 0 where
  l4_certain l3_strong l2_probable l1_possible l0_unknown : ProvenanceLevel
  other : String → ProvenanceLevel

abbrev level_tag : ProvenanceLevel → ℕ
level_tag l4_certain = 0
level_tag l3_strong = 1
level_tag l2_probable = 2
level_tag l1_possible = 3
level_tag l0_unknown = 4
level_tag (other v) = 5

abbrev same_level : ProvenanceLevel → ProvenanceLevel → Bool
same_level (other v) (other w) = str_eq v w
same_level s t = level_tag s == level_tag t

abbrev pub provenance_levels : List ProvenanceLevel
provenance_levels = l4_certain ∷ l3_strong ∷ l2_probable ∷ l1_possible ∷ l0_unknown ∷ []

unfoldable pub level_valid : ProvenanceLevel → Bool
level_valid p = any (same_level p) provenance_levels

-- What `json.Unmarshal` makes of the input: `null`, no JSON string, or a string.
pub data JsonText : Type 0 where
  null malformed : JsonText
  str : String → JsonText

unfoldable pub unmarshal_string_enum : JsonText → (String → Bool) → String → Result String
unmarshal_string_enum null valid name = err "cannot be null"
unmarshal_string_enum malformed valid name = err "decode"
unmarshal_string_enum (str v) valid name = if valid v then ok v else err "unknown"

-- `FindingState(value)`
unfoldable pub to_state : String → FindingState
to_state v =
    if str_eq v "CONFIRMED_EXECUTED"
    then confirmed_executed
    else if str_eq v "CONFIRMED_DOWNLOADED"
    then confirmed_downloaded
    else if str_eq v "CONFIRMED_CALLED_WORKFLOW"
    then confirmed_called_workflow
    else if str_eq v "DECLARED_AT_RUN_SHA"
    then declared_at_run_sha
    else if str_eq v "RUN_IN_WINDOW_MUTABLE_REF"
    then run_in_window_mutable_ref
    else if str_eq v "POTENTIAL_TRANSITIVE"
    then potential_transitive
    else if str_eq v "CURRENT_REFERENCE_ONLY"
    then current_reference_only
    else if str_eq v "NO_MATCH_CONFIRMED"
    then no_match_confirmed
    else if str_eq v "UNKNOWN_EVIDENCE_GAP"
    then unknown_evidence_gap
    else if str_eq v "CONTRADICTORY_EVIDENCE"
    then contradictory_evidence
    else other v

unfoldable pub unmarshal_state : JsonText → Result String
unfolding unmarshal_string_enum state_valid to_state
unmarshal_state input = unmarshal_string_enum input (λ v. state_valid (to_state v)) "finding state"

pub state_text-to_state : (s : FindingState) → state_valid s ≡ true → to_state (state_text s) ≡ s
unfolding state_text to_state state_valid
state_text-to_state (other v) h = cc
state_text-to_state s h = refl
