-- ===== src/Github.antt =====
-- internal/githubapi: the response types that collection reads. Of each struct the model has the
-- fields that internal/collect looks at.
use cirewind.Base.{String, Bool, Option, List, Text}
use cirewind.Base.Int.{ℤ}
use cirewind.Base.Time.{Time}

-- Metadata of one HTTP response; collection carries it along and never reads it.
abbrev pub ResponseMeta : Type 0
ResponseMeta = Text

pub data ErrorClass : Type 0 where
  unauthorized forbidden not_found retention_or_deletion api_version validation : ErrorClass
  rate_limited secondary_limit transient redirect_expired unsafe_redirect size_limit : ErrorClass
  malformed_response unexpected_media pagination cancelled unsupported_target : ErrorClass
  invalid_request retry_budget local_io : ErrorClass
  other : Text → ErrorClass

pub record ApiError : Type 0 where
  pub class : ErrorClass
  pub retryable : Bool
  pub message : String
  pub responses : List ResponseMeta

-- A Go error as `errors.As` and `errors.Is` see it: the `*Error` in its chain, if there is one, and
-- whether the chain holds the context's cancellation or deadline.
pub record CallError : Type 0 where
  pub api : Option ApiError
  pub is_context_error : Bool

-- The value and error that a call returns: the value stands beside an error too.
pub record Outcome (A : Type 0) : Type 0 where
  pub value : A
  pub failure : Option CallError

pub record WorkflowRun : Type 0 where
  pub id : ℤ
  pub run_attempt : ℤ
  pub status : Text
  pub conclusion : Text
  pub created_at : Time
  pub updated_at : Option Time

pub record WorkflowJob : Type 0 where
  pub id : ℤ
  pub run_id : ℤ
  pub name : Text

pub record RunList : Type 0 where
  pub total_count : ℤ
  pub runs : List WorkflowRun
  pub responses : List ResponseMeta
  pub truncated : Bool

pub record RunProbe : Type 0 where
  pub total_count : ℤ
  pub responses : List ResponseMeta

pub record JobList : Type 0 where
  pub jobs : List WorkflowJob
  pub responses : List ResponseMeta

pub record RunObject : Type 0 where
  pub run : WorkflowRun
  pub responses : List ResponseMeta
