-- ===== src/Fallback/Reading.antt =====
-- What the frames of chat_sse.go say when parseFallbackSSE of text_tool_fallback.go reads them back.
use qoder_cpa.Prelude.{
  ℕ, ◌+◌, List, [], ◌∷◌, ◌++◌, Option, none, some, Text, text_eq, ◌≡◌, refl, append_assoc,
  append-nil, trim_space-frame, trim_space-object, arith, ◌≢◌, Bool-cases, inl, inr, ltb, length,
  trim_prefix, trim_space,
}
use qoder_cpa.Stream.{Read, chunk, fail}
use qoder_cpa.Chat.{Chunk, Choice, ToolCallInfo, Json, IsLawful, frame, marshal_sse}
use qoder_cpa.Fallback.{
  max_tool_fallback_calls, accept_calls, parse_calls, strip_fence, tool_prefix,
  try_parse_tool_calls, parse_fallback_sse, text_chunk, build_text_chunks, build_tool_call_chunks,
  call_chunk,
}

abbrev pub first_content : List Choice → Text
first_content [] = []
first_content (c ∷ cs) = c.delta.content

abbrev pub chunk_content : Option Chunk → Text
chunk_content none = []
chunk_content (some cc) = first_content cc.choices

-- The text that a client takes from an answer: the content of the first choice.
unfoldable pub content_of : Json → Read → Text
content_of json (fail err) = []
content_of json (chunk raw) = elim (parse_fallback_sse raw) [
  | none ↦ []
  | some payload ↦ chunk_content (json.unmarshal payload)
]

abbrev pub contents : Json → List Text → Text
contents json [] = []
contents json (c ∷ cs) = content_of json (chunk c) ++ contents json cs

-- The payload of a frame is the object that was framed.
pub parse_fallback_sse-frame :
    (b : Text)
    → parse_fallback_sse (frame (b'{' ∷ (b ++ b'}' ∷ []))) ≡ some (b'{' ∷ (b ++ b'}' ∷ []))
unfolding parse_fallback_sse frame
parse_fallback_sse-frame b =
    rw (append_assoc b (b'}' ∷ []) (10 ∷ 10 ∷ []), trim_space-frame b, trim_space-object b)

accept_calls-cons :
    (found : Option (List ToolCallInfo)) (calls : List ToolCallInfo)
    → accept_calls found ≡ some calls
    → (call : ToolCallInfo) × (rest : List ToolCallInfo) × (calls ≡ call ∷ rest)
unfolding accept_calls
accept_calls-cons none calls h = cc
accept_calls-cons (some []) calls h = cc
accept_calls-cons (some (x ∷ xs)) calls h =
    elim (Bool-cases (ltb max_tool_fallback_calls (length (x ∷ xs)))) [
      | inl many ↦ ground arith
      | inr few ↦ (x, xs, ground arith)
    ]

parse_calls-cons :
    (json : Json) (rest : Text) (calls : List ToolCallInfo)
    → parse_calls json rest ≡ some calls
    → (call : ToolCallInfo) × (others : List ToolCallInfo) × (calls ≡ call ∷ others)
unfolding parse_calls
parse_calls-cons json [] calls h = cc
parse_calls-cons json (c ∷ rest) calls h =
    accept_calls-cons (json.unmarshal_calls (c ∷ rest)) calls h

module _ (json : Json) (lawful : IsLawful json) where
  -- A chunk that is written as a frame is read back as it was; the decoder is lawful.
  pub marshal_sse-back :
      (c : Chunk)
      → (raw : Text) × (payload : Text) × (marshal_sse json c ≡ some raw)
        × (parse_fallback_sse raw ≡ some payload)
        × (json.unmarshal payload ≡ some c)
  unfolding marshal_sse
  marshal_sse-back c =
      let b = (lawful.object c).0 in
      let payload = b'{' ∷ (b ++ b'}' ∷ []) in
      (
        frame payload,
        payload,
        rw (marshal_sse, (lawful.object c).1),
        parse_fallback_sse-frame b,
        lawful.back c payload (lawful.object c).1,
      )

  pub build_text_chunks-content :
      (id model t : Text)
      → t ≢ []
      → (raw : Text) × (build_text_chunks json id model t ≡ raw ∷ [])
        × (content_of json (chunk raw) ≡ t)
  unfolding build_text_chunks content_of
  build_text_chunks-content id model [] some_text = absurd (some_text refl)
  build_text_chunks-content id model (x ∷ t) some_text =
      let (raw, payload, written, parsed, back) = marshal_sse-back (text_chunk id model (x ∷ t)) in
      (raw, rw (build_text_chunks, written), rw (content_of, parsed, back))

  pub build_text_chunks-contents :
      (id model t : Text) → contents json (build_text_chunks json id model t) ≡ t
  unfolding build_text_chunks
  build_text_chunks-contents id model [] = refl
  build_text_chunks-contents id model (x ∷ t) =
      let (raw, built, said) = build_text_chunks-content id model (x ∷ t) (λ e. cc) in
      rw (built, said, append-nil (x ∷ t))

  pub build_tool_call_chunks-cons :
      (id model : Text) (i : ℕ) (call : ToolCallInfo) (calls : List ToolCallInfo)
      → (raw : Text) × (build_tool_call_chunks json id model i (call ∷ calls)
          ≡ raw ∷ build_tool_call_chunks json id model (i + 1) calls)
  unfolding build_tool_call_chunks
  build_tool_call_chunks-cons id model i call calls =
      let back = marshal_sse-back (call_chunk id model i call) in (back.0, rw back.2)

  pub try_parse_tool_calls-cons :
      (buf : Text) (calls : List ToolCallInfo)
      → try_parse_tool_calls json buf ≡ some calls
      → (call : ToolCallInfo) × (rest : List ToolCallInfo) × (calls ≡ call ∷ rest)
  unfolding try_parse_tool_calls
  try_parse_tool_calls-cons buf =
      parse_calls-cons json (strip_fence (trim_space (trim_prefix buf tool_prefix)))
