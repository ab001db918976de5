-- ===== src/Fallback/Reader.antt =====
-- textToolFallbackHandle of internal/qodertransport/text_tool_fallback.go: ReadChunk.
use qoder_cpa.Prelude.{
  ℕ, zero, suc, ◌+◌, Bool, true, false, not, ◌&&◌, ◌||◌, List, [], ◌∷◌, ◌++◌, Option, none, some,
  Text, text_eq, ◌==◌, codes, if◌then◌else◌, ltb, length,
}
use qoder_cpa.Stream.{Fault, Read, chunk, fail}
use qoder_cpa.Chat.{Choice, Chunk, Json}
use qoder_cpa.Fallback.{
  max_tool_fallback_buf, parse_fallback_sse, is_tool_calls_prefix, buffer_matches_prefix,
  try_parse_tool_calls, build_tool_call_chunks, build_text_chunks, rewrite_finish,
}
pub mod Keeps
pub mod Choices
pub mod Conserve
pub mod Runs

pub data FbState : Type 0 where
  idle buffering emitted : FbState

-- The inner handle is the list of the reads to come, and EOF after them.
pub record Handle : Type 0 where
  pub inner : List Read
  pub id : Text
  pub model : Text
  pub state : FbState
  pub buf : Text
  pub pending : List Text
  pub saved_err : Option Fault
  pub done : Bool

-- One call returns, calls itself again, or indexes an empty slice.
pub data Step : Type 0 where
  emit : Read → Handle → Step
  again : Handle → Step
  panic : Step

-- `c := h.pending[0]; h.pending = h.pending[1:]; return c, nil`.
abbrev pub pop : List Text → Handle → Step
pop [] h = panic
pop (c ∷ cs) h = emit (chunk c) (record h { pending = cs })

abbrev pub is_buffering : Handle → Bool
is_buffering h = elim h.state [ buffering ↦ not (h.buf == []) | _ ↦ false ]

module _ (json : Json) where
  abbrev pub text_of : Handle → List Text
  text_of h = build_text_chunks json h.id h.model h.buf

  abbrev pub flushed : Handle → Handle
  flushed h = record h { buf = []; state = idle }

  pub on_fault : Handle → Fault → Step
  on_fault h err =
      if is_buffering h
      then elim (text_of h) [
        | [] ↦ emit (fail err) (record (flushed h) { saved_err = some err })
        | c ∷ cs ↦ emit (chunk c) (record (flushed h) { saved_err = some err; pending = cs })
      ]
      else emit (fail err) h

  pub on_done : Handle → Text → Step
  on_done h raw =
      if is_buffering h
      then pop (text_of h ++ raw ∷ []) (record (flushed h) { done = true })
      else emit (chunk raw) (record h { done = true })

  pass_finish : FbState → Handle → Text → Step
  pass_finish emitted h raw = emit (chunk (rewrite_finish json raw (codes "tool_calls"))) h
  pass_finish idle h raw = emit (chunk raw) h
  pass_finish buffering h raw = emit (chunk raw) h

  pub on_finish : Handle → Text → Step
  unfolding pass_finish
  on_finish h raw =
      if is_buffering h then pop (text_of h ++ raw ∷ []) (flushed h) else pass_finish h.state h raw

  pub on_native_calls : FbState → Handle → Text → Step
  on_native_calls buffering h raw = emit (chunk raw) (record h { buf = []; state = emitted })
  on_native_calls idle h raw = emit (chunk raw) (record h { state = emitted })
  on_native_calls emitted h raw = emit (chunk raw) (record h { state = emitted })

  -- The rest of the idle case, after the buffer was tried for tool calls.
  idle_rest : Handle → Step
  idle_rest h =
      if buffer_matches_prefix h.buf
      then again (record h { state = buffering })
      else if is_tool_calls_prefix h.buf
      then again h
      else elim (text_of h) [
        | [] ↦ again (record h { buf = [] })
        | c ∷ cs ↦ emit (chunk c) (record h { buf = [] })
      ]

  on_idle : Handle → Step
  unfolding idle_rest
  on_idle h = elim (try_parse_tool_calls json h.buf) [
    | none ↦ idle_rest h
    | some calls ↦ elim (build_tool_call_chunks json h.id h.model 0 calls) [
      | [] ↦ idle_rest (record h { buf = []; state = emitted })
      | c ∷ cs ↦ emit (chunk c) (record h { buf = []; state = emitted; pending = cs })
    ]
  ]

  on_buffering : Handle → Step
  on_buffering h =
      if ltb max_tool_fallback_buf (length h.buf)
      then pop (text_of h) (flushed h)
      else elim (try_parse_tool_calls json h.buf) [
        | some calls ↦
            pop (build_tool_call_chunks json h.id h.model 0 calls)
              (record h { buf = []; state = emitted })
        | none ↦ if buffer_matches_prefix h.buf then again h else pop (text_of h) (flushed h)
      ]

  on_text : FbState → Handle → Text → Step
  unfolding on_idle on_buffering
  on_text emitted h content = again h
  on_text buffering h content = on_buffering (record h { buf = h.buf ++ content })
  on_text idle h content = on_idle (record h { buf = h.buf ++ content })

  pub on_choice : Handle → Text → Choice → Step
  unfolding on_native_calls on_finish on_text
  on_choice h raw c = elim c.delta.tool_calls [
    | t ∷ ts ↦ on_native_calls h.state h raw
    | [] ↦ elim c.finish_reason [
      | some reason ↦ on_finish h raw
      | none ↦
          if c.delta.content == [] then emit (chunk raw) h else on_text h.state h c.delta.content
    ]
  ]

  on_choices : Handle → Text → List Choice → Step
  unfolding on_choice
  on_choices h raw [] = emit (chunk raw) h
  on_choices h raw (c ∷ cs) = on_choice h raw c

  on_payload : Handle → Text → Option Chunk → Step
  unfolding on_choices
  on_payload h raw none = emit (chunk raw) h
  on_payload h raw (some cc) = on_choices h raw cc.choices

  unfoldable pub on_read : Read → Handle → Step
  unfolding on_fault on_done on_payload
  on_read (fail err) h = on_fault h err
  on_read (chunk raw) h = elim (parse_fallback_sse raw) [
    | none ↦ on_done h raw
    | some payload ↦ on_payload h raw (json.unmarshal payload)
  ]

  from_inner : List Read → Handle → Step
  unfolding on_read
  from_inner [] h = on_read (fail Fault.eof) h
  from_inner (r ∷ rs) h = on_read r (record h { inner = rs })

  from_done : Bool → Handle → Step
  unfolding from_inner
  from_done true h = emit (fail Fault.eof) h
  from_done false h = from_inner h.inner h

  from_saved : Option Fault → Handle → Step
  unfolding from_done
  from_saved (some err) h = emit (fail err) (record h { saved_err = none })
  from_saved none h = from_done h.done h

  from_pending : List Text → Handle → Step
  unfolding from_saved
  from_pending (c ∷ cs) h = emit (chunk c) (record h { pending = cs })
  from_pending [] h = from_saved h.saved_err h

  unfoldable pub step : Handle → Step
  unfolding from_pending
  step h = from_pending h.pending h

  -- A call of ReadChunk with the calls that it makes of itself. `none`: the fuel ran out, or an
  -- empty slice was indexed.
  unfoldable pub read_chunk : ℕ → Handle → Option (Read × Handle)
  read_chunk zero h = none
  read_chunk (suc fuel) h = elim (step h) [
    | emit r h' ↦ some (r, h')
    | again h' ↦ read_chunk fuel h'
    | panic ↦ none
  ]

  -- Each call but the last takes a read from the inner handle.
  abbrev pub read : Handle → Option (Read × Handle)
  read h = read_chunk (suc (length h.inner)) h

-- A handle as newTextToolFallback makes it.
unfoldable pub new_text_tool_fallback : List Read → Text → Text → Handle
new_text_tool_fallback inner id model = record {
  inner = inner;
  id = id;
  model = model;
  state = idle;
  buf = [];
  pending = [];
  saved_err = none;
  done = false;
}
