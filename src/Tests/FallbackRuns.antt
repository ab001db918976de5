-- ===== src/Tests/FallbackRuns.antt =====
-- Streams with text that starts like tool calls, read through the fallback.
use qoder_cpa.Prelude.{
  List, [], ◌∷◌, ◌++◌, Option, none, some, Text, text_eq, codes, ◌≡◌, refl, All, trim_space,
  trim_left_blank,
}
use qoder_cpa.Stream.{Read, chunk}
use qoder_cpa.Chat.{frame, marshal_sse, done_sse}
use qoder_cpa.Fallback.{
  parse_fallback_sse, is_tool_calls_prefix, buffer_matches_prefix, try_parse_tool_calls, text_chunk,
  build_tool_call_chunks, build_text_chunks, rewrite_finish,
}
use qoder_cpa.Fallback.Reading.{content_of, marshal_sse-back}
use qoder_cpa.Fallback.Reader.{Handle, on_read, step, read_chunk, new_text_tool_fallback}
use qoder_cpa.Fallback.Reader.Keeps.{IsTidy, texts, Kept}
use qoder_cpa.Fallback.Reader.Runs.{read_times, read_times_keeps_text}
use qoder_cpa.Tests.Codec.{json, json-IsLawful, calls_text}

program : Unit {0}
unfolding parse_fallback_sse is_tool_calls_prefix buffer_matches_prefix try_parse_tool_calls
    build_tool_call_chunks build_text_chunks rewrite_finish content_of on_read step read_chunk
    new_text_tool_fallback frame marshal_sse done_sse trim_space trim_left_blank
program = tt

abbrev says : Text → List Read
says t = elim (marshal_sse json (text_chunk (codes "i") (codes "m") t)) [
  | none ↦ []
  | some raw ↦ chunk raw ∷ []
]

abbrev greeting : List Read
greeting = says (codes "Tool") ++ says (codes "s") ++ []

abbrev fresh : List Read → Handle
fresh inner = new_text_tool_fallback inner (codes "i") (codes "m")

abbrev heard : Option (List Read × Handle) → Text
heard none = []
heard (some (rs, h)) = texts json rs

-- The text is held back while it could become the mark, and is delivered as one chunk.
released : heard (read_times json 2 (fresh greeting)) ≡ codes "Tools"
unfolding program
released = refl

-- Text that is a start of the mark when the stream ends is never delivered.
swallowed : heard (read_times json 3 (fresh (says (codes "Tool")))) ≡ []
unfolding program
swallowed = refl

-- A plain answer that is a JSON array of calls is taken for tool calls without the mark.
taken : heard (read_times json 1 (fresh (says calls_text))) ≡ []
unfolding program
taken = refl

marshal_sse-back_example :
    (raw : Text) × (payload : Text) × (marshal_sse json
        (text_chunk (codes "i") (codes "m") (codes "hi"))
      ≡ some raw)
    × (parse_fallback_sse raw ≡ some payload)
    × (json.unmarshal payload ≡ some (text_chunk (codes "i") (codes "m") (codes "hi")))
marshal_sse-back_example =
    marshal_sse-back json json-IsLawful (text_chunk (codes "i") (codes "m") (codes "hi"))

greeting-IsTidy : All (IsTidy json) greeting
unfolding program
greeting-IsTidy = (tt, (tt, tt))

read_times_keeps_text_example :
    (rs : List Read) × (last : Handle) × (read_times json 2
        (new_text_tool_fallback greeting (codes "i") (codes "m"))
      ≡ some (rs, last))
    × Kept json (texts json greeting) (texts json rs) last
read_times_keeps_text_example =
    read_times_keeps_text json json-IsLawful greeting (codes "i") (codes "m") 2 greeting-IsTidy
