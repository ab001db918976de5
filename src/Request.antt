-- ===== src/Request.antt =====
-- internal/qodertransport/chat_request.go: the client's chat document and the requests of the two
-- dialects that are made of it. encoding/json is a record of functions; raw JSON is its text, empty
-- where it is absent.
pub mod Model
pub mod System
pub mod Thinking
use qoder_cpa.Prelude.{
  ℕ, Bool, true, false, not, ◌&&◌, ◌||◌, List, [], ◌∷◌, ◌++◌, Option, none, some, Text, text_eq,
  ◌==◌, codes, if◌then◌else◌, length, has_prefix, trim_prefix, trim_space, ℤ, pos, ltb_ℤ,
}
use qoder_cpa.Classify.{to_lower}

pub record ResolvedModel : Type 0 where
  pub internal_id : Text
  pub is_reasoning : Bool
  pub max_input_tokens : ℤ

pub record MessageWire : Type 0 where
  pub role : Text
  pub content : Text
  pub reasoning : Text
  pub tool_calls : Text
  pub tool_call_id : Text
  pub name : Text

pub record ChatPayload : Type 0 where
  pub model : Text
  pub public_model : Text
  pub messages : List MessageWire
  pub tools : List Text
  pub tool_choice : Text
  pub temperature : Option Text
  pub max_tokens : Option ℤ
  pub reasoning_effort : Option Text
  pub max_completion_tokens : Option ℤ
  pub parallel_tool_calls : Option Bool
  pub response_format : Text
  pub is_reasoning : Bool
  pub max_input_tokens : ℤ

pub record Part : Type 0 where
  pub type : Text
  pub text : Text

-- What encoding/json reads: the document, a text, the parts of a content, and the calls and tools of
-- the bearer dialect, which are kept as the text that they are written as.
pub record Decoder : Type 0 where
  pub payload : Text → Option ChatPayload
  pub string : Text → Option Text
  pub parts : Text → Option (List Part)
  pub calls : Text → Option Text
  pub tool : Text → Option Text

abbrev pub provider_prefix : Text
provider_prefix = codes "qoder/"

abbrev pub prefixed : Text → Text
prefixed raw = if has_prefix raw provider_prefix then raw else provider_prefix ++ raw

abbrev apply_resolved : ChatPayload → ResolvedModel → ChatPayload
apply_resolved p r = record p {
  model = if trim_space r.internal_id == [] then p.model else trim_space r.internal_id;
  is_reasoning = r.is_reasoning;
  max_input_tokens = r.max_input_tokens;
}

-- A nil resolver is `none`.
abbrev resolved : Option (Text → ResolvedModel) → ChatPayload → ChatPayload
resolved none p = p
resolved (some f) p = apply_resolved p (f p.public_model)

abbrev named : ChatPayload → Text → ChatPayload
named p public = record p { public_model = public; model = trim_prefix public provider_prefix }

abbrev no_messages : List MessageWire → Bool
no_messages [] = true
no_messages (m ∷ ms) = false

abbrev pub checked : ChatPayload → Option ChatPayload
checked p = if p.model == [] || no_messages p.messages then none else some p

abbrev decoded : Option (Text → ResolvedModel) → Option ChatPayload → Option ChatPayload
decoded resolve none = none
decoded resolve (some p) =
    if trim_space p.model == []
    then none
    else checked (resolved resolve (named p (prefixed (trim_space p.model))))

-- `none` is the one error, errInvalidChatPayload.
unfoldable pub parse_chat_payload :
    Decoder → Option (Text → ResolvedModel) → Text → Option ChatPayload
parse_chat_payload json resolve raw = decoded resolve (json.payload raw)

abbrev text_part : Part → Text
text_part p = if p.type == codes "text" || p.type == codes "input_text" then p.text else []

unfoldable pub joined_parts : List Part → Text
joined_parts [] = []
joined_parts (p ∷ ps) = text_part p ++ joined_parts ps

abbrev of_parts : Option (List Part) → Option Text
of_parts none = none
of_parts (some ps) = some (joined_parts ps)

abbrev of_string : Option Text → Option (List Part) → Option Text
of_string (some t) parts = some t
of_string none parts = of_parts parts

unfoldable pub message_text : Decoder → Text → Option Text
unfolding joined_parts
message_text json raw =
    if raw == [] || raw == codes "null"
    then some []
    else of_string (json.string raw) (json.parts raw)

pub record MessageIn : Type 0 where
  pub role : Text
  pub content : Text
  pub reasoning : Text
  pub tool_calls : Text
  pub tool_call_id : Text
  pub name : Text

abbrev pub message_in : MessageWire → Text → Text → MessageIn
message_in m content calls = record {
  role = m.role;
  content = content;
  reasoning = m.reasoning;
  tool_calls = calls;
  tool_call_id = m.tool_call_id;
  name = m.name;
}

abbrev pub is_system : Text → Bool
is_system role = role == codes "system" || role == codes "developer"

-- strings.Builder: a line break before each text but the first that is written.
abbrev pub append_system : Text → Text → Text
append_system system content = if system == [] then content else system ++ 10 ∷ content

abbrev pub consed : MessageIn → Option (List MessageIn × Text) → Option (List MessageIn × Text)
consed m none = none
consed m (some (ms, system)) = some (m ∷ ms, system)

-- The loop of toCosyRequest over the messages.
unfoldable pub cosy_messages : Decoder → List MessageWire → Text → Option (List MessageIn × Text)
cosy_messages json [] system = some ([], system)
cosy_messages json (m ∷ ms) system = elim (message_text json m.content) [
  | none ↦ none
  | some content ↦ elim (is_system m.role) [
    | true ↦ cosy_messages json ms (append_system system content)
    | false ↦ consed (message_in m content m.tool_calls) (cosy_messages json ms system)
  ]
]

pub record Parameters : Type 0 where
  pub max_tokens : Option ℤ
  pub reasoning_effort : Text
  pub tool_choice : Text
  pub parallel_tool_calls : Option Bool
  pub enable_thinking : Option Bool
  pub context_length : Option ℤ
  pub response_format : Text

abbrev deref : Option Text → Text
deref none = []
deref (some s) = s

abbrev pub is_some {ℓ} : {A : Type ℓ} → Option A → Bool
is_some none = false
is_some (some a) = true

abbrev pub first_some : Option ℤ → Option ℤ → Option ℤ
first_some none b = b
first_some (some a) b = some a

unfoldable pub effort_of : ChatPayload → Text
effort_of p = to_lower (trim_space (deref p.reasoning_effort))

abbrev pub thinks : ChatPayload → Bool
thinks p = p.is_reasoning && not (effort_of p == codes "none")

-- The parameters of a cosy request; none where no field is set.
unfoldable pub parameters_of : ChatPayload → Option Parameters
parameters_of p =
    if is_some p.max_completion_tokens
      || is_some p.max_tokens
      || not (effort_of p == [])
      || not (p.tool_choice == [])
      || is_some p.parallel_tool_calls
      || not (p.response_format == [])
      || thinks p
      || ltb_ℤ (pos 0) p.max_input_tokens
    then some (record {
      max_tokens = first_some p.max_completion_tokens p.max_tokens;
      reasoning_effort = if effort_of p == codes "none" then [] else effort_of p;
      tool_choice = p.tool_choice;
      parallel_tool_calls = p.parallel_tool_calls;
      enable_thinking =
          if p.is_reasoning || effort_of p == codes "none" then some (thinks p) else none;
      context_length = if ltb_ℤ (pos 0) p.max_input_tokens then some p.max_input_tokens else none;
      response_format = p.response_format;
    })
    else none

-- The fields that are the same for every request are left out.
pub record CosyInput : Type 0 where
  pub request_id : Text
  pub session_id : Text
  pub model_key : Text
  pub system_prompt : Text
  pub messages : List MessageIn
  pub tools : List Text
  pub parameters : Option Parameters
  pub is_reasoning : Bool
  pub max_input_tokens : ℤ

abbrev cosy_input : ChatPayload → Text → Text → Option (List MessageIn × Text) → Option CosyInput
cosy_input p id session none = none
cosy_input p id session (some (ms, system)) = some (record {
  request_id = id;
  session_id = session;
  model_key = p.model;
  system_prompt = system;
  messages = ms;
  tools = p.tools;
  parameters = parameters_of p;
  is_reasoning = p.is_reasoning;
  max_input_tokens = p.max_input_tokens;
})

unfoldable pub to_cosy_request : Decoder → ChatPayload → Text → Text → Option CosyInput
unfolding cosy_messages parameters_of message_text
to_cosy_request json p id session = cosy_input p id session (cosy_messages json p.messages [])

-- The calls of a message of the bearer dialect, which are read where there are any.
abbrev calls_of : Decoder → Text → Option Text
calls_of json raw = if raw == [] then some [] else json.calls raw

-- The loop of toBearerRequest over the messages.
unfoldable pub bearer_messages : Decoder → List MessageWire → Option (List MessageIn)
bearer_messages json [] = some []
bearer_messages json (m ∷ ms) = elim (message_text json m.content) [
  | none ↦ none
  | some content ↦ elim (calls_of json m.tool_calls) [
    | none ↦ none
    | some calls ↦ elim (bearer_messages json ms) [
      | none ↦ none
      | some rest ↦ some (message_in m content calls ∷ rest)
    ]
  ]
]

unfoldable pub bearer_tools : Decoder → List Text → Option (List Text)
bearer_tools json [] = some []
bearer_tools json (t ∷ ts) = elim (json.tool t) [
  | none ↦ none
  | some tool ↦ elim (bearer_tools json ts) [ none ↦ none | some rest ↦ some (tool ∷ rest) ]
]

pub record BearerRequest : Type 0 where
  pub model : Text
  pub messages : List MessageIn
  pub tools : List Text
  pub tool_choice : Text
  pub temperature : Option Text
  pub max_tokens : Option ℤ
  pub reasoning_effort : Option Text
  pub max_completion_tokens : Option ℤ
  pub parallel_tool_calls : Option Bool
  pub request_id : Text
  pub session_id : Text

abbrev bearer_request :
    ChatPayload → Text → Text → Option (List MessageIn) → Option (List Text) → Option BearerRequest
bearer_request p id session none tools = none
bearer_request p id session (some ms) none = none
bearer_request p id session (some ms) (some ts) = some (record {
  model = p.model;
  messages = ms;
  tools = ts;
  tool_choice = p.tool_choice;
  temperature = p.temperature;
  max_tokens = p.max_tokens;
  reasoning_effort = p.reasoning_effort;
  max_completion_tokens = p.max_completion_tokens;
  parallel_tool_calls = p.parallel_tool_calls;
  request_id = id;
  session_id = session;
})

unfoldable pub to_bearer_request : Decoder → ChatPayload → Text → Text → Option BearerRequest
unfolding bearer_messages bearer_tools message_text
to_bearer_request json p id session =
    bearer_request p id session (bearer_messages json p.messages) (bearer_tools json p.tools)
