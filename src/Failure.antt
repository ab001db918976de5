-- ===== src/Failure.antt =====
-- The errors of the executor: executor_errors.go, with the HTTP errors of the transports
-- (internal/qodertransport/bearer/types.go and internal/qodertransport/cosy/transport_types.go). A Go
-- error is its text and the errors that errors.As and errors.Is find in it, outermost first.
pub mod Codes
use qoder_cpa.Prelude.{
  ℕ, ◌+◌, Bool, true, false, List, [], ◌∷◌, ◌++◌, Option, none, some, Text, text_eq, ◌==◌, codes,
  if◌then◌else◌, ℤ, pos, ltb_ℤ, leb_ℤ, int_eq,
}
use qoder_cpa.Stream.{StreamBusinessError}
use qoder_cpa.Classify.{status_category}
use qoder_cpa.Transport.{itoa}

-- What the host is told; the cause is left out.
pub record ExecutorFailure : Type 0 where
  pub code : Text
  pub message : Text
  pub status : ℤ

-- The category only serves the transport's own callers.
pub record HttpError : Type 0 where
  pub status_code : ℤ
  pub retry_after_sec : ℤ
  pub category : Text
  pub detail : Text

pub data Layer : Type 0 where
  own : ExecutorFailure → Layer
  business : StreamBusinessError → Layer
  bearer_http : HttpError → Layer
  cosy_http : HttpError → Layer
  canceled : Layer
  deadline_exceeded : Layer
  plain : Layer

pub record GoError : Type 0 where
  pub text : Text
  pub chain : List Layer

-- HTTPError.Error; `dialect` is the package's name.
unfoldable pub http_error_text : Text → HttpError → Text
http_error_text dialect e =
    if e.detail == []
    then dialect ++ codes ": HTTP " ++ itoa e.status_code
    else dialect ++ codes ": HTTP " ++ itoa e.status_code ++ codes ": " ++ e.detail

unfoldable pub http_failure : ℤ → ℤ → Text → ExecutorFailure
http_failure status retry_sec msg = record {
  code = status_category status;
  message =
      if ltb_ℤ (pos 0) retry_sec
      then msg ++ codes " retry_after=" ++ itoa retry_sec ++ codes "s"
      else msg;
  status = status;
}

-- errors.As for each type, and errors.Is for the two errors of a context.
abbrev pub first_own : List Layer → Option ExecutorFailure
first_own [] = none
first_own (own f ∷ ls) = some f
first_own (l ∷ ls) = first_own ls

abbrev pub first_business : List Layer → Option StreamBusinessError
first_business [] = none
first_business (business e ∷ ls) = some e
first_business (l ∷ ls) = first_business ls

abbrev pub first_bearer : List Layer → Option HttpError
first_bearer [] = none
first_bearer (bearer_http e ∷ ls) = some e
first_bearer (l ∷ ls) = first_bearer ls

abbrev pub first_cosy : List Layer → Option HttpError
first_cosy [] = none
first_cosy (cosy_http e ∷ ls) = some e
first_cosy (l ∷ ls) = first_cosy ls

abbrev pub is_canceled : List Layer → Bool
is_canceled [] = false
is_canceled (canceled ∷ ls) = true
is_canceled (l ∷ ls) = is_canceled ls

abbrev pub is_over : List Layer → Bool
is_over [] = false
is_over (deadline_exceeded ∷ ls) = true
is_over (l ∷ ls) = is_over ls

-- StreamBusinessError.Error is a parameter: it prints a time.
module _ (business_text : StreamBusinessError → Text) where
  abbrev on_business : StreamBusinessError → ExecutorFailure
  on_business e = record { code = e.category; message = business_text e; status = pos 502 }

  abbrev on_context : GoError → ExecutorFailure
  on_context err =
      if is_canceled err.chain
      then record {
        code = codes "client_canceled";
        message = codes "request canceled";
        status = pos 499;
      }
      else if is_over err.chain
      then record {
        code = codes "upstream_timeout";
        message = codes "upstream timed out";
        status = pos 504;
      }
      else record { code = codes "upstream_error"; message = err.text; status = pos 502 }

  abbrev on_cosy : Option HttpError → GoError → ExecutorFailure
  on_cosy none err = on_context err
  on_cosy (some e) err =
      http_failure e.status_code e.retry_after_sec (http_error_text (codes "cosy") e)

  abbrev on_bearer : Option HttpError → GoError → ExecutorFailure
  on_bearer none err = on_cosy (first_cosy err.chain) err
  on_bearer (some e) err =
      http_failure e.status_code e.retry_after_sec (http_error_text (codes "bearer") e)

  abbrev on_stream : Option StreamBusinessError → GoError → ExecutorFailure
  on_stream none err = on_bearer (first_bearer err.chain) err
  on_stream (some e) err = on_business e

  abbrev on_own : Option ExecutorFailure → GoError → ExecutorFailure
  on_own none err = on_stream (first_business err.chain) err
  on_own (some f) err = f

  unfoldable pub classify_executor_error : GoError → ExecutorFailure
  unfolding http_failure
  classify_executor_error err = on_own (first_own err.chain) err
