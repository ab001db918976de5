-- ===== src/Tests/RequestRuns.antt =====
-- The chat document, the errors and the signed request on concrete inputs.
use qoder_cpa.Prelude.{
  true, false, ◌++◌, if◌then◌else◌, List, [], ◌∷◌, none, some, Text, text_eq, ◌==◌, codes, pos,
  int_eq, has_prefix, trim_space, ◌≡◌, ◌||◌, ◌⊎◌, refl, arith, mem, insert,
}
use qoder_cpa.Classify.{to_lower, status_category}
use qoder_cpa.Transport.{itoa}
use qoder_cpa.Stream.{StreamBusinessError}
use qoder_cpa.Failure.{
  ExecutorFailure, own, plain, GoError, http_failure, http_error_text, classify_executor_error,
}
use qoder_cpa.Failure.Codes.{outward_codes, classify_executor_error_code}
use qoder_cpa.Dial.{
  Exchange, answered, Readers, classify_http_status, is_text_event_stream, read_and_close,
  http_error, on_exchange,
}
use qoder_cpa.Dial.Loopback.{is_loopback_host, host_is_loopback, is_loopback_url}
use qoder_cpa.Cosy.Encoding.{
  body_alphabet, swap_outer_thirds, symbol_at, place_from, symbol, value, encode, encode_body,
  decode_body,
}
use qoder_cpa.Cosy.Encoding.Back.{decode_body-encode_body}
use qoder_cpa.Cosy.Send.{
  endpoint_host, endpoint_url, complete, Signer, Parts, build_http_request_at, Transport, Config,
  new_transport, StreamRequest, endpoint_cn, sent,
}
use qoder_cpa.Cosy.Send.Hosts.{sent_url}
use qoder_cpa.Request.{
  ResolvedModel, MessageWire, ChatPayload, Decoder, MessageIn, message_in, message_text,
  joined_parts, cosy_messages, parse_chat_payload, Parameters, effort_of, parameters_of,
}
use qoder_cpa.Request.System.{other_messages, system_texts, lines, with_lines, cosy_messages_lem}
use qoder_cpa.Request.Thinking.{IsFaithful, parameters_of-IsFaithful}

program : Unit {0}
unfolding trim_space to_lower status_category itoa http_failure http_error_text
    classify_executor_error classify_http_status is_text_event_stream read_and_close http_error
    on_exchange body_alphabet swap_outer_thirds symbol_at place_from symbol value encode encode_body
    endpoint_host endpoint_url complete build_http_request_at new_transport is_loopback_host
    host_is_loopback is_loopback_url message_text joined_parts cosy_messages parse_chat_payload
    effort_of parameters_of other_messages system_texts lines with_lines insert
program = tt

abbrev no_model : ExecutorFailure
no_model = record { code = codes "model_unavailable"; message = codes "no model"; status = pos 404 }

abbrev wrapped : GoError
wrapped = record { text = codes "executor: no model"; chain = plain ∷ own no_model ∷ [] }

abbrev printed : StreamBusinessError → Text
printed e = e.category

classify_executor_error_code_example :
    (mem (classify_executor_error printed wrapped).code outward_codes
      || (classify_executor_error printed wrapped).code == codes "model_unavailable")
    ≡ true
unfolding program
classify_executor_error_code_example =
    classify_executor_error_code (λ c. c == codes "model_unavailable") printed wrapped
      (tt, (refl, tt))

abbrev readers : Readers
readers = record { summarize = λ s. s; parse_retry_after = λ s. pos 0 }

-- A page where a stream was expected.
abbrev page : Exchange
page = answered (record {
  status_code = pos 200;
  content_type = codes "text/html";
  retry_after = [];
  body = record { content = codes "hi"; read_error = none; close_error = none };
})

decode_body-encode_body_example : decode_body (encode_body (codes "{}!")) ≡ some (codes "{}!")
decode_body-encode_body_example =
    decode_body-encode_body (codes "{}!") (omega arith, (omega arith, (omega arith, tt)))

abbrev config : Config
config = record {
  endpoint = endpoint_cn;
  machine_id = codes "m";
  user_id = codes "u";
  organization_id = [];
  organization_tags = [];
  data_policy = [];
  base_url = [];
  timeout = pos 0;
  allow_test_endpoint = false;
}

abbrev transport : Transport
transport = record {
  endpoint = endpoint_cn;
  machine_id = codes "m";
  user_id = codes "u";
  org_id = [];
  org_tags = [];
  data_policy = [];
  base_url = [];
  timeout = pos 30000000000;
}

abbrev signer : Signer
signer = record {
  payload = λ id info version. some id;
  sign = λ payload key date body url. key;
  compose = λ payload sig. sig;
}

abbrev request : StreamRequest
request = record {
  runtime_fields = record { encrypt_user_info = codes "i"; key = codes "k" };
  request_body = codes "{}";
  request_id = codes "id";
  cosy_version = codes "0.1.43";
  model_key = [];
  model_source = [];
  business_product = [];
  header_overrides = [];
}

abbrev chat_url : Text
chat_url =
    codes
      "https://gateway.qoder.com.cn/algo/api/v2/service/pro/sse/agent_chat_generation?FetchKeys=llm_model_result&AgentId=agent_common&Encode=1"

abbrev parts : Parts
parts = record {
  url = chat_url;
  auth = codes "k";
  date = codes "7";
  cosy_key = codes "k";
  cosy_version = codes "0.1.43";
  body = encode_body (codes "{}");
}

sent_url_example :
    (endpoint_url endpoint_cn ≡ some (sent transport parts request).url)
    ⊎ ((false ≡ true) × (is_loopback_url [] ≡ true))
unfolding program
sent_url_example = sent_url config transport signer request (pos 7) parts refl refl

abbrev wire : Text → Text → MessageWire
wire role content = record {
  role = role;
  content = content;
  reasoning = [];
  tool_calls = [];
  tool_call_id = [];
  name = [];
}

abbrev talk : List MessageWire
talk =
    wire (codes "system") (codes "be brief")
    ∷ wire (codes "user") (codes "hello")
    ∷ wire (codes "developer") (codes "and kind")
    ∷ []

abbrev asked : ChatPayload
asked = record {
  model = codes " auto ";
  public_model = [];
  messages = talk;
  tools = [];
  tool_choice = [];
  temperature = none;
  max_tokens = some (pos 5);
  reasoning_effort = some (codes " High ");
  max_completion_tokens = some (pos 9);
  parallel_tool_calls = none;
  response_format = [];
  is_reasoning = false;
  max_input_tokens = pos 0;
}

-- The document is its own text; a document that begins with a digit names the provider.
abbrev json : Decoder
json = record {
  payload = λ raw.
      if has_prefix raw (codes "2")
      then some (record asked { model = codes "qoder/auto" })
      else some asked;
  string = λ raw. some raw;
  parts = λ raw. none;
  calls = λ raw. some raw;
  tool = λ raw. some raw;
}

abbrev catalog : Text → ResolvedModel
catalog public = record {
  internal_id = codes "qmodel";
  is_reasoning = true;
  max_input_tokens = pos 200000;
}

abbrev accepted : ChatPayload
accepted = record asked {
  model = codes "qmodel";
  public_model = codes "qoder/auto";
  is_reasoning = true;
  max_input_tokens = pos 200000;
}

abbrev hello : MessageIn
hello = message_in (wire (codes "user") (codes "hello")) (codes "hello") []

abbrev prompt : Text
prompt = codes "be brief" ++ (10 ∷ codes "and kind")

cosy_messages_lem_example :
    (hello ∷ [] ≡ other_messages json talk) × (prompt ≡ lines (system_texts json talk))
unfolding program
cosy_messages_lem_example = cosy_messages_lem json talk (hello ∷ []) prompt refl

abbrev told : Parameters
told = record {
  max_tokens = some (pos 9);
  reasoning_effort = codes "high";
  tool_choice = [];
  parallel_tool_calls = none;
  enable_thinking = some true;
  context_length = some (pos 200000);
  response_format = [];
}

parameters_of-IsFaithful_example : IsFaithful accepted told
unfolding program
parameters_of-IsFaithful_example = parameters_of-IsFaithful accepted told refl
