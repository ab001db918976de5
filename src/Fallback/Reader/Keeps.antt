-- ===== src/Fallback/Reader/Keeps.antt =====
-- What textToolFallbackHandle of internal/qodertransport/text_tool_fallback.go keeps of the text that
-- it reads, and that its ReadChunk returns.
use qoder_cpa.Prelude.{
  ℕ, Bool, true, false, List, [], ◌∷◌, ◌++◌, Option, none, some, Text, text_eq, ◌≡◌, refl, arith,
  text_beq_iff, ◌≢◌, Bool-cases, inl, inr, length, ◌<◌, All, ◌⊎◌,
}
use qoder_cpa.Stream.{Fault, Read, chunk, fail}
use qoder_cpa.Chat.{Chunk, Choice, ToolCallInfo, Json, IsLawful}
use qoder_cpa.Fallback.{
  parse_fallback_sse, is_tool_calls_prefix, try_parse_tool_calls, build_tool_call_chunks,
}
use qoder_cpa.Fallback.Reading.{
  content_of, contents, build_text_chunks-content, build_tool_call_chunks-cons,
  try_parse_tool_calls-cons,
}
use qoder_cpa.Fallback.Reader.{
  FbState, idle, buffering, emitted, Handle, Step, emit, again, panic, pop, is_buffering, text_of,
  flushed, on_fault, on_done, pass_finish, on_finish, on_native_calls,
}

abbrev pub is_emitted : FbState → Bool
is_emitted emitted = true
is_emitted _ = false

-- A chunk that ends the answer carries fails text.
abbrev pub EndsEmpty : List Choice → Type 0
EndsEmpty [] = Unit
EndsEmpty (c ∷ cs) = elim c.finish_reason [ none ↦ Unit | some reason ↦ c.delta.content ≡ [] ]

abbrev pub TidyChunk : Option Chunk → Type 0
TidyChunk none = Unit
TidyChunk (some cc) = EndsEmpty cc.choices

-- What is held back in the idle state could still become the mark of tool calls.
abbrev pub Held : FbState → Text → Type 0
Held idle buf = is_tool_calls_prefix buf ≡ true
Held buffering buf = Unit
Held emitted buf = Unit

pub Held-nil : Held idle []
unfolding is_tool_calls_prefix
Held-nil = refl

module _ (json : Json) where
  abbrev pub IsTidy : Read → Type 0
  IsTidy (fail err) = Unit
  IsTidy (chunk raw) = elim (parse_fallback_sse raw) [
    | none ↦ Unit
    | some payload ↦ TidyChunk (json.unmarshal payload)
  ]

  abbrev pub texts : List Read → Text
  texts [] = []
  texts (r ∷ rs) = content_of json r ++ texts rs

  -- The text of a handle: that still to be delivered, that held back, that still to be read.
  abbrev pub total : Handle → Text
  total h = contents json h.pending ++ h.buf ++ texts h.inner

  abbrev pub Kept : Text → Text → Handle → Type 0
  Kept goal said h = (is_emitted h.state ≡ true) ⊎ ((said ++ total h ≡ goal) × Held h.state h.buf)

  -- What one step leaves: it keeps the text unless tool calls were found, and never indexes an
  -- empty slice.
  abbrev pub Keeps : List Read → Text → Step → Type 0
  Keeps rest goal (emit r h) = (h.inner ≡ rest) × Kept goal (content_of json r) h
  Keeps rest goal (again h) = (h.inner ≡ rest) × (h.pending ≡ []) × Kept goal [] h
  Keeps rest goal panic = ⊥

  -- Between two calls of ReadChunk.
  abbrev pub IsOpen : Handle → Type 0
  IsOpen h = Held h.state h.buf × All (IsTidy) h.inner

  abbrev pub Stuck : Handle → Handle → Type 0
  Stuck h h' = (is_emitted h.state ≡ false) ⊎ (is_emitted h'.state ≡ true)

  -- What a step has done: it kept the text, and an unfinished one has taken a read.
  abbrev pub Advances : ℕ → Handle → Step → Type 0
  Advances n h (emit r h') =
      All (IsTidy) h'.inner × Kept (total h) (content_of json r) h' × Stuck h h'
  Advances n h (again h') =
      (length h'.inner < n) × All (IsTidy) h'.inner × Kept (total h) [] h' × Stuck h h'
  Advances n h panic = ⊥

  module _ (lawful : IsLawful json) where
    is_buffering-full : (h : Handle) → is_buffering h ≡ true → h.buf ≢ []
    is_buffering-full h holds empty = ground (arith, text_beq_iff h.buf [])

    pub on_fault-Keeps :
        (h : Handle) (err : Fault)
        → h.pending ≡ []
        → Held h.state h.buf
        → Keeps h.inner (h.buf ++ texts h.inner) (on_fault json h err)
    unfolding on_fault content_of
    on_fault-Keeps h err p held = elim (Bool-cases (is_buffering h)) [
      | inr fails ↦ rw (on_fault, fails) (refl, inr (rw p, held))
      | inl holds ↦
          let (raw, built, said) =
            build_text_chunks-content json lawful h.id h.model h.buf (is_buffering-full h holds) in
          rw (on_fault, holds, built) (refl, inr (rw said, Held-nil))
    ]

    pub on_done-Keeps :
        (h : Handle) (raw : Text)
        → h.pending ≡ []
        → Held h.state h.buf
        → content_of json (chunk raw) ≡ []
        → Keeps h.inner (h.buf ++ texts h.inner) (on_done json h raw)
    unfolding on_done
    on_done-Keeps h raw p held silent = elim (Bool-cases (is_buffering h)) [
      | inr fails ↦ rw (on_done, fails) (refl, inr (rw (silent, p), held))
      | inl holds ↦
          let (out, built, said) =
            build_text_chunks-content json lawful h.id h.model h.buf (is_buffering-full h holds) in
          rw (on_done, holds, built) (refl, inr (rw (said, silent), Held-nil))
    ]

    pass_finish-Keeps :
        (st : FbState) (h : Handle) (raw : Text)
        → h.state ≡ st
        → h.pending ≡ []
        → Held h.state h.buf
        → content_of json (chunk raw) ≡ []
        → Keeps h.inner (h.buf ++ texts h.inner) (pass_finish json st h raw)
    unfolding pass_finish
    pass_finish-Keeps emitted h raw st p held silent = (refl, inl (rw st refl))
    pass_finish-Keeps idle h raw st p held silent = (refl, inr (rw (silent, p), held))
    pass_finish-Keeps buffering h raw st p held silent = (refl, inr (rw (silent, p), held))

    pub on_native_calls-Keeps :
        (st : FbState) (h : Handle) (raw : Text) (goal : Text)
        → Keeps h.inner goal (on_native_calls json st h raw)
    unfolding on_native_calls
    on_native_calls-Keeps idle h raw goal = (refl, inl refl)
    on_native_calls-Keeps buffering h raw goal = (refl, inl refl)
    on_native_calls-Keeps emitted h raw goal = (refl, inl refl)

    pub on_finish-Keeps :
        (h : Handle) (raw : Text)
        → h.pending ≡ []
        → Held h.state h.buf
        → content_of json (chunk raw) ≡ []
        → Keeps h.inner (h.buf ++ texts h.inner) (on_finish json h raw)
    unfolding on_finish
    on_finish-Keeps h raw p held silent = elim (Bool-cases (is_buffering h)) [
      | inr fails ↦ rw (on_finish, fails) (pass_finish-Keeps h.state h raw refl p held silent)
      | inl holds ↦
          let (out, built, said) =
            build_text_chunks-content json lawful h.id h.model h.buf (is_buffering-full h holds) in
          rw (on_finish, holds, built) (refl, inr (rw (said, silent), Held-nil))
    ]

    pub flush-Keeps :
        (h : Handle)
        → h.buf ≢ []
        → Keeps h.inner (h.buf ++ texts h.inner) (pop (text_of json h) (flushed json h))
    flush-Keeps h full =
        let (out, built, said) = build_text_chunks-content json lawful h.id h.model h.buf full in
        rw built (refl, inr (rw said, Held-nil))

    pub calls-Keeps :
        (h : Handle) (calls : List ToolCallInfo) (goal : Text)
        → try_parse_tool_calls json h.buf ≡ some calls
        → Keeps h.inner goal (
            pop
              (build_tool_call_chunks json h.id h.model 0 calls)
              (record h { buf = []; state = emitted }))
    calls-Keeps h calls goal found =
        let (call, others, split) = try_parse_tool_calls-cons json lawful h.buf calls found in
        let (out, built) = build_tool_call_chunks-cons json lawful h.id h.model 0 call others in
        rw (split, built) (refl, inl refl)
