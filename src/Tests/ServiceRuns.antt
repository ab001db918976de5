-- ===== src/Tests/ServiceRuns.antt =====
-- A stream that the executor opens, on concrete inputs.
use qoder_cpa.Prelude.{◌≡◌, [], ◌∷◌, none, some, text_eq, codes, pos, trim_space, refl, false}
use qoder_cpa.Classify.{to_lower}
use qoder_cpa.QueueWait.{Upstream, Handle, opened, queue_await, default_policy}
use qoder_cpa.Transport.{Selector, select, resolve_profile, parse_transport_profile}
use qoder_cpa.Auth.{Credential, validate, is_valid_profile, to_credential, from_credential, cosy_cn}
use qoder_cpa.Auth.Provider.{Codec, checked, parse_stored_credential, equal_fold}
use qoder_cpa.Executor.Service.{
  is_chat_executor_format, ExecutorRequest, ChatTransport, made, Environment, open_stream,
  execute_stream,
}
use qoder_cpa.Executor.Service as Executor

program : Unit {0}
unfolding trim_space to_lower queue_await default_policy select resolve_profile
    parse_transport_profile validate is_valid_profile to_credential from_credential checked
    parse_stored_credential equal_fold is_chat_executor_format open_stream execute_stream
program = tt

abbrev account : Credential
account = record {
  access_token = codes "a";
  refresh_token = codes "r";
  expires_at = pos 10;
  user_id = codes "u";
  user_type = [];
  machine_id = codes "m";
  email = [];
  organization_id = [];
  organization_tags = [];
  runtime_info = [];
  runtime_key = [];
  profile = cosy_cn;
}

abbrev codec : Codec
codec = record { encode = λ s. none; decode = λ raw. some (from_credential account) }

-- Nothing is answered; the streams differ in what they have logged.
abbrev silent : Upstream
silent = record { reads = []; opens = []; sleeps = []; log = [] }

abbrev adapter : ChatTransport
adapter = λ req. silent

abbrev adapters : Selector ChatTransport
adapters = record { cosy2 = adapter; cosy3 = adapter; bearer = adapter; cn = adapter }

abbrev env : Environment
env = record {
  client_error = λ callback. none;
  factory = λ cred resolve. made adapters;
  business_text = λ e. e.category;
  quoted = λ v. v;
}

abbrev request : ExecutorRequest
request = record {
  format = codes " OpenAI ";
  auth_provider = codes "Qoder";
  auth_id = [];
  model = codes "auto";
  storage_json = codes "{}";
  payload = codes "{}";
  x_request_id = codes "id";
  x_session_id = [];
  stream_id = codes "s";
  host_callback_id = [];
}

abbrev handle : Handle
handle = record { policy = default_policy; attempts = 1; waited = pos 0; started = false }

abbrev asked : Upstream
asked = record silent { log = opened ∷ [] }

served : execute_stream (λ s. s) codec env request [] ≡ Executor.opened handle asked
unfolding program
served = refl
