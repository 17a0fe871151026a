-- ===== src/Collect/Gaps.antt =====
-- internal/collect/coverage.go: the gaps that collection reports, and their reasons.
use cirewind.Base.{◌≡◌, String, Bool, true, false, Option, none, some, List, [], arith}
use cirewind.Base.Int.{ℤ, pos}
use cirewind.Github.{ResponseMeta, ErrorClass, ApiError, CallError}

pub data GapReason : Type 0 where
  unauthorized forbidden not_found retention_or_deletion rate_limited transient : GapReason
  malformed_response pagination api_version validation redirect_expired : GapReason
  unsafe_redirect size_limit local_io density_ceiling partition_limit : GapReason
  live_state_race ambiguous_correlation cancelled unknown : GapReason

pub record Gap : Type 0 where
  pub reason : GapReason
  pub scope : String
  pub repository_id : ℤ
  pub run_id : ℤ
  pub attempt : ℤ
  pub job_id : ℤ
  pub material : Bool
  pub retryable : Bool
  pub diagnostic : String
  pub responses : List ResponseMeta

-- A gap with the fields that a literal leaves out at their zero values.
abbrev pub material_gap : GapReason → String → ℤ → ℤ → Bool → String → Gap
material_gap reason scope repository run retryable diagnostic = record {
  reason = reason;
  scope = scope;
  repository_id = repository;
  run_id = run;
  attempt = pos 0;
  job_id = pos 0;
  material = true;
  retryable = retryable;
  diagnostic = diagnostic;
  responses = [];
}

-- The `switch` on the error's class; a class with no case keeps GapUnknown.
unfoldable pub reason_of : ErrorClass → GapReason
reason_of ErrorClass.unauthorized = GapReason.unauthorized
reason_of ErrorClass.forbidden = GapReason.forbidden
reason_of ErrorClass.not_found = GapReason.not_found
reason_of ErrorClass.retention_or_deletion = GapReason.retention_or_deletion
reason_of ErrorClass.api_version = GapReason.api_version
reason_of ErrorClass.validation = GapReason.validation
reason_of ErrorClass.invalid_request = GapReason.validation
reason_of ErrorClass.rate_limited = GapReason.rate_limited
reason_of ErrorClass.secondary_limit = GapReason.rate_limited
reason_of ErrorClass.transient = GapReason.transient
reason_of ErrorClass.retry_budget = GapReason.transient
reason_of ErrorClass.redirect_expired = GapReason.redirect_expired
reason_of ErrorClass.unsafe_redirect = GapReason.unsafe_redirect
reason_of ErrorClass.size_limit = GapReason.size_limit
reason_of ErrorClass.local_io = GapReason.local_io
reason_of ErrorClass.malformed_response = GapReason.malformed_response
reason_of ErrorClass.unexpected_media = GapReason.malformed_response
reason_of ErrorClass.pagination = GapReason.pagination
reason_of ErrorClass.cancelled = GapReason.cancelled
reason_of _ = GapReason.unknown

gap_of_api : Gap → Option ApiError → Gap
unfolding reason_of
gap_of_api gap none = record gap { diagnostic = "collection operation failed" }
gap_of_api gap (some e) = record gap {
  reason = reason_of e.class;
  retryable = e.retryable;
  diagnostic = e.message;
  responses = e.responses;
}

-- Every caller passes an error that is not nil.
unfoldable pub gap_from_error : String → ℤ → ℤ → ℤ → CallError → Gap
unfolding gap_of_api
gap_from_error scope repository run attempt e =
    gap_of_api
      (record (material_gap GapReason.unknown scope repository run false "") { attempt = attempt })
      e.api

pub gap_from_error-attempt :
    (scope : String) (repository run attempt : ℤ) (e : CallError)
    → (gap_from_error scope repository run attempt e).attempt ≡ attempt
unfolding gap_from_error gap_of_api
gap_from_error-attempt scope repository run attempt e = ground arith
