-- ===== src/Fallback.antt =====
-- internal/qodertransport/text_tool_fallback.go, with its _parse and _format parts: tool calls that
-- the upstream writes as text are turned into tool-call chunks.
use qoder_cpa.Prelude.{
  ℕ, zero, suc, ◌+◌, Bool, true, false, not, ◌&&◌, ◌||◌, List, [], ◌∷◌, ◌++◌, Option, none, some,
  Text, text_eq, ◌==◌, nat_beq, codes, if◌then◌else◌, ltb, leb, length, drop, has_prefix,
  trim_prefix, trim_space, trim_left_blank, ℤ, pos,
}
use qoder_cpa.Chat.{
  FunctionDelta, ToolDelta, Delta, Choice, Chunk, ToolCallInfo, Json, no_delta, marshal_sse,
}
pub mod Reader
pub mod Reading

abbrev pub max_tool_fallback_buf : ℕ
max_tool_fallback_buf = 4194304

abbrev pub max_tool_fallback_calls : ℕ
max_tool_fallback_calls = 128

abbrev pub tool_prefix : Text
tool_prefix = codes "Tool calls:"

-- The payload of a frame, or `none` for the end mark.
unfoldable pub parse_fallback_sse : Text → Option Text
parse_fallback_sse raw =
    let s = trim_space raw in
    if s == codes "data: [DONE]" || s == codes "[DONE]"
    then none
    else if has_prefix s (codes "data:")
    then some (trim_space (trim_prefix s (codes "data:")))
    else some s

unfoldable pub is_tool_calls_prefix : Text → Bool
is_tool_calls_prefix buf =
    if ltb (length tool_prefix) (length buf) then false else has_prefix tool_prefix buf

starts_calls : Text → Bool
starts_calls [] = true
starts_calls (c ∷ rest) = nat_beq c b'[' || nat_beq c b'`'

unfoldable pub buffer_matches_prefix : Text → Bool
unfolding starts_calls
buffer_matches_prefix buf =
    if has_prefix buf tool_prefix
    then starts_calls (trim_left_blank (drop (length tool_prefix) buf))
    else false

-- The text before the first occurrence of a mark, or all of it.
before_mark : Text → Text → Text
before_mark mark [] = []
before_mark mark (c ∷ s) = if has_prefix (c ∷ s) mark then [] else c ∷ before_mark mark s

strip_fence : Text → Text
unfolding before_mark
strip_fence rest =
    if has_prefix rest (codes "```json")
    then trim_space (before_mark (codes "```") (drop 7 rest))
    else rest

accept_calls : Option (List ToolCallInfo) → Option (List ToolCallInfo)
accept_calls none = none
accept_calls (some calls) =
    if nat_beq (length calls) 0 || ltb max_tool_fallback_calls (length calls)
    then none
    else some calls

parse_calls : Json → Text → Option (List ToolCallInfo)
unfolding accept_calls
parse_calls json [] = none
parse_calls json (c ∷ rest) = accept_calls (json.unmarshal_calls (c ∷ rest))

unfoldable pub try_parse_tool_calls : Json → Text → Option (List ToolCallInfo)
unfolding parse_calls strip_fence
try_parse_tool_calls json buf =
    parse_calls json (strip_fence (trim_space (trim_prefix buf tool_prefix)))

abbrev pub text_chunk : Text → Text → Text → Chunk
text_chunk id model text = record {
  id = id;
  object = codes "chat.completion.chunk";
  model = model;
  choices =
      record { index = pos 0; delta = record no_delta { content = text }; finish_reason = none }
      ∷ [];
  usage = none;
}

abbrev pub call_chunk : Text → Text → ℕ → ToolCallInfo → Chunk
call_chunk id model i call = record {
  id = id;
  object = codes "chat.completion.chunk";
  model = model;
  choices =
      record {
        index = pos 0;
        delta = record no_delta {
          tool_calls =
              record {
                index = pos i;
                call_id = call.call_id;
                kind = codes "function";
                function = record { name = call.name; arguments = call.arguments };
              }
              ∷ [];
        };
        finish_reason = none;
      }
      ∷ [];
  usage = none;
}

abbrev pub push_some : Option Text → List Text → List Text
push_some none chunks = chunks
push_some (some raw) chunks = raw ∷ chunks

module _ (json : Json) where
  -- From the call of number `i` on.
  unfoldable pub build_tool_call_chunks : Text → Text → ℕ → List ToolCallInfo → List Text
  build_tool_call_chunks id model i [] = []
  build_tool_call_chunks id model i (call ∷ calls) =
      push_some (marshal_sse json (call_chunk id model i call))
        (build_tool_call_chunks id model (i + 1) calls)

  unfoldable pub build_text_chunks : Text → Text → Text → List Text
  build_text_chunks id model text =
      if text == [] then [] else push_some (marshal_sse json (text_chunk id model text)) []

  abbrev set_finish : Text → List Choice → List Choice
  set_finish reason [] = []
  set_finish reason (c ∷ cs) = elim c.finish_reason [
    | none ↦ c ∷ cs
    | some old ↦ record c { finish_reason = some reason } ∷ cs
  ]

  rewritten : Text → Text → Option Chunk → Text
  rewritten raw reason none = raw
  rewritten raw reason (some cc) =
      elim (marshal_sse json (record cc { choices = set_finish reason cc.choices })) [
        | none ↦ raw
        | some out ↦ out
      ]

  unfoldable pub rewrite_finish : Text → Text → Text
  unfolding rewritten
  rewrite_finish raw reason =
      let s = trim_space raw in
      let payload =
        if has_prefix s (codes "data:") then trim_space (trim_prefix s (codes "data:")) else s in
      rewritten raw reason (json.unmarshal payload)
