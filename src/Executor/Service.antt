-- ===== src/Executor/Service.antt =====
-- executorService of executor.go from a request to its open stream, and the errors of
-- executor_handler.go, which are told to the host and noted for the scheduler. The HTTP client of the
-- host and the adapters of an account are parameters.
pub mod Excluded
use qoder_cpa.Prelude.{
  ℕ, Bool, true, false, not, ◌&&◌, ◌||◌, List, [], ◌∷◌, ◌++◌, Option, none, some, Text, text_eq,
  ◌==◌, codes, if◌then◌else◌, trim_space, ℤ, pos,
}
use qoder_cpa.Classify.{to_lower}
use qoder_cpa.Stream.{StreamBusinessError, Fault, business, eof, canceled, deadline_exceeded, other}
use qoder_cpa.QueueWait.{Upstream, Handle, queue_await, default_policy}
use qoder_cpa.Transport.{Resolved, ok, config_error, adapter_set_error, Selector, select}
use qoder_cpa.Auth.{Credential, new_auth_id}
use qoder_cpa.Auth as Auth
use qoder_cpa.Auth.Provider.{Codec, parse_stored_credential, equal_fold, provider_name}
use qoder_cpa.Registry.{Registry, resolve_model}
use qoder_cpa.Request.{ResolvedModel}
use qoder_cpa.Failure.{
  ExecutorFailure, Layer, own, plain, GoError, first_business, classify_executor_error,
}
use qoder_cpa.Failure as Failure
use qoder_cpa.Executor.{estimate_payload_tokens}
use qoder_cpa.Scheduler.State.{State}
use qoder_cpa.Scheduler.Notes.{note_scheduler_failure}

unfoldable pub is_chat_executor_format : Text → Bool
is_chat_executor_format format =
    let f = to_lower (trim_space format) in
    f == codes "chat-completions"
    || f == codes "chat_completions"
    || f == codes "openai"
    || f == codes "openai-chat-completions"
    || f == codes "openai_chat_completions"

-- rpcExecutorRequest, with the two headers that are read.
pub record ExecutorRequest : Type 0 where
  pub format : Text
  pub auth_provider : Text
  pub auth_id : Text
  pub model : Text
  pub storage_json : Text
  pub payload : Text
  pub x_request_id : Text
  pub x_session_id : Text
  pub stream_id : Text
  pub host_callback_id : Text

pub record StreamRequest : Type 0 where
  pub body : Text
  pub id : Text
  pub session_id : Text

-- A ChatTransport: what it will answer to a request.
abbrev pub ChatTransport : Type 0
ChatTransport = StreamRequest → Upstream

pub data Made : Type 0 where
  made : Selector ChatTransport → Made
  unmade : GoError → Made

-- The client of the host, whose error is its text; selectorFactory; the texts of errors.
pub record Environment : Type 0 where
  pub client_error : Text → Option Text
  pub factory : Credential → (Text → ResolvedModel) → Made
  pub business_text : StreamBusinessError → Text
  pub quoted : Text → Text

pub data Opened : Type 0 where
  opened : Handle → Upstream → Opened
  unopened : GoError → Opened

abbrev failure : Text → Text → ℤ → GoError
failure code message status = record {
  text = message;
  chain = own (record { code = code; message = message; status = status }) ∷ [];
}

-- The errors of a stream as errors of Go.
abbrev go_error : Environment → Fault → GoError
go_error env (business e) = record { text = env.business_text e; chain = Failure.business e ∷ [] }
go_error env eof = record { text = codes "EOF"; chain = plain ∷ [] }
go_error env canceled = record { text = codes "context canceled"; chain = Failure.canceled ∷ [] }
go_error env deadline_exceeded = record {
  text = codes "context deadline exceeded";
  chain = Failure.deadline_exceeded ∷ [];
}
go_error env (other text) = record { text = text; chain = plain ∷ [] }

abbrev or_request : Text → Text → Text
or_request a b = if a == [] then b else a

abbrev pub stream_request : ExecutorRequest → StreamRequest
stream_request req = record {
  body = req.payload;
  id = or_request (trim_space req.x_request_id) (trim_space req.auth_id);
  session_id = trim_space req.x_session_id;
}

-- The id of the account whose catalog is read.
abbrev pub account_of : (Text → Text) → ExecutorRequest → Credential → Text
account_of sha256 req cred = or_request (trim_space req.auth_id) (new_auth_id sha256 cred.user_id)

abbrev pub resolver : Registry → Text → Text → ResolvedModel
resolver r auth public =
    let (internal, meta) = resolve_model r auth public in
    record {
      internal_id = internal;
      is_reasoning = meta.is_reasoning;
      max_input_tokens = meta.max_input_tokens;
    }

module _ (sha256 : Text → Text) (codec : Codec) (env : Environment) where
  abbrev pub on_await : (Handle × Upstream) × Option Fault → Opened
  on_await ((h, w), none) = opened h w
  on_await ((h, w), some f) = unopened (go_error env f)

  abbrev pub on_transport : Resolved ChatTransport → ExecutorRequest → Opened
  on_transport (ok t) req = on_await (queue_await default_policy (t (stream_request req)))
  on_transport (config_error v) req = unopened (record {
    text = codes "qodertransport: unknown transport profile " ++ env.quoted v;
    chain = plain ∷ [];
  })
  on_transport (adapter_set_error v) req = unopened (record {
    text = codes "qodertransport: missing adapter for profile " ++ env.quoted v;
    chain = plain ∷ [];
  })

  abbrev pub on_selector : Made → Credential → ExecutorRequest → Opened
  on_selector (unmade e) cred req = unopened e
  on_selector (made s) cred req = on_transport (select s cred.profile) req

  abbrev pub on_client : Option Text → Credential → ExecutorRequest → Registry → Opened
  on_client (some text) cred req r = unopened (failure (codes "host_unavailable") text (pos 502))
  on_client none cred req r =
      on_selector (env.factory cred (resolver r (account_of sha256 req cred))) cred req

  abbrev pub on_credential : Auth.Result Credential → ExecutorRequest → Registry → Opened
  on_credential (Auth.err e) req r =
      unopened (failure (codes "invalid_auth") (codes "invalid qoder credential") (pos 401))
  on_credential (Auth.ok cred) req r = on_client (env.client_error req.host_callback_id) cred req r

  unfoldable pub open_stream : ExecutorRequest → Registry → Opened
  unfolding is_chat_executor_format
  open_stream req r =
      if not (is_chat_executor_format req.format)
      then unopened (
          failure (codes "unsupported_format")
            (codes "qoder executor only accepts chat-completions") (pos 400))
      else if not (req.auth_provider == []) && not (equal_fold req.auth_provider provider_name)
      then unopened
          (failure (codes "invalid_auth") (codes "qoder executor requires qoder auth") (pos 401))
      else on_credential (parse_stored_credential codec req.storage_json) req r

  -- executeStream up to the start of the pump.
  unfoldable pub execute_stream : ExecutorRequest → Registry → Opened
  unfolding open_stream
  execute_stream req r =
      if trim_space req.stream_id == []
      then unopened (failure (codes "invalid_request") (codes "stream_id is required") (pos 400))
      else open_stream req r

  -- An error as the handler tells it, and the scheduler's state after it was noted.
  abbrev pub noted :
      {F : Type 0} → ℤ → ExecutorRequest → Option StreamBusinessError → State F → State F
  noted now req none s = s
  noted now req (some e) s = note_scheduler_failure now req.auth_id req.model (business e) s

  unfoldable pub answer_error :
      {F : Type 0} → ℤ → ExecutorRequest → GoError → State F → ExecutorFailure × State F
  answer_error now req e s =
      (classify_executor_error env.business_text e, noted now req (first_business e.chain) s)
