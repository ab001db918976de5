-- ===== src/Chat.antt =====
-- internal/qodertransport/chat_sse.go: the chunks of an OpenAI chat stream and their frames.
use qoder_cpa.Prelude.{Bool, List, [], ◌∷◌, ◌++◌, Option, none, some, Text, codes, ℤ, ◌≡◌}

pub record FunctionDelta : Type 0 where
  pub name : Text
  pub arguments : Text

pub record ToolDelta : Type 0 where
  pub index : ℤ
  pub call_id : Text
  pub kind : Text
  pub function : FunctionDelta

pub record Delta : Type 0 where
  pub role : Text
  pub content : Text
  pub reasoning : Text
  pub tool_calls : List ToolDelta

pub record Choice : Type 0 where
  pub index : ℤ
  pub delta : Delta
  pub finish_reason : Option Text

pub record Usage : Type 0 where
  pub prompt_tokens : ℤ
  pub completion_tokens : ℤ
  pub total_tokens : ℤ
  pub billable : Option Bool
  pub cached_tokens : ℤ
  pub cacheable_tokens : ℤ
  pub reasoning_tokens : ℤ

pub record Chunk : Type 0 where
  pub id : Text
  pub object : Text
  pub model : Text
  pub choices : List Choice
  pub usage : Option Usage

pub record ToolCallInfo : Type 0 where
  pub call_id : Text
  pub name : Text
  pub arguments : Text

-- encoding/json at the types of the stream; `none` is an error.
pub record Json : Type 0 where
  pub marshal : Chunk → Option Text
  pub unmarshal : Text → Option Chunk
  pub unmarshal_calls : Text → Option (List ToolCallInfo)

-- A chunk is an object, and is read back as it was written.
pub record IsLawful (json : Json) : Type 0 where
  pub object : (c : Chunk) → (body : Text) × (json.marshal c ≡ some (b'{' ∷ (body ++ b'}' ∷ [])))
  pub back : (c : Chunk) (raw : Text) → json.marshal c ≡ some raw → json.unmarshal raw ≡ some c

abbrev pub no_delta : Delta
no_delta = record { role = []; content = []; reasoning = []; tool_calls = [] }

unfoldable pub frame : Text → Text
frame raw = codes "data: " ++ raw ++ codes "\n\n"

unfoldable pub marshal_sse : Json → Chunk → Option Text
unfolding frame
marshal_sse json c = elim (json.marshal c) [ none ↦ none | some raw ↦ some (frame raw) ]

unfoldable pub done_sse : Text
done_sse = codes "data: [DONE]\n\n"
