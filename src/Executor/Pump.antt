-- ===== src/Executor/Pump.antt =====
-- pumpStream of executor.go: the chunks of a stream are handed to the host one by one.
use qoder_cpa.Prelude.{
  ℕ, zero, suc, Bool, true, false, not, ◌&&◌, ◌||◌, List, [], ◌∷◌, ◌++◌, Option, none, some, Text,
  codes, if◌then◌else◌, ℤ, int_eq, ◌==◌, pos, ◌+ℤ◌, map, ◌≡◌, refl, ap, arith,
}
use qoder_cpa.Stream.{Fault, Read, chunk, fail}
use qoder_cpa.Chat.{ToolDelta}
use qoder_cpa.Executor.{
  AggregateChoice, AggregateChunk, AggregateUsage, ChunkDecoder, estimate_payload_tokens, Payload,
  end_mark, invalid, payload, executor_stream_payload,
}
pub mod Emits

-- What the host is called for. A close has the message of an error, empty if there was none.
pub data HostCall : Type 0 where
  emitted : Text → HostCall
  closed : Text → HostCall

pub record Tracker : Type 0 where
  pub input_tokens : ℤ
  pub output_tokens : ℤ
  pub real_usage : Bool

abbrev tool_output : List ToolDelta → ℤ → ℤ
tool_output [] n = n
tool_output (t ∷ ts) n =
    tool_output ts
      (n +ℤ estimate_payload_tokens t.function.name +ℤ estimate_payload_tokens t.function.arguments)

abbrev choice_output : List AggregateChoice → ℤ → ℤ
choice_output [] n = n
choice_output (c ∷ cs) n = choice_output cs (
    tool_output c.delta.tool_calls
      (n +ℤ estimate_payload_tokens c.delta.content +ℤ estimate_payload_tokens c.delta.reasoning))

abbrev has_usage : Option AggregateUsage → Bool
has_usage none = false
has_usage (some u) = true

abbrev observed_chunk : Option AggregateChunk → Tracker → Tracker
observed_chunk none t = t
observed_chunk (some ev) t = record t {
  real_usage = t.real_usage || has_usage ev.usage;
  output_tokens = choice_output ev.choices t.output_tokens;
}

module _ (dec : ChunkDecoder) (error_text : Fault → Text) where
  unfoldable pub observe : Text → Tracker → Tracker
  observe body t = observed_chunk (dec.observed body) t

  unfoldable pub estimated_chunk : Tracker → Option Text
  estimated_chunk t =
      if t.real_usage || (t.input_tokens == pos 0 && t.output_tokens == pos 0)
      then none
      else dec.estimate t.input_tokens t.output_tokens (t.input_tokens +ℤ t.output_tokens)

  -- What the host answers to the emits to come: an error message, or none; none after them.
  abbrev answer : List (Option Text) → Option Text
  answer [] = none
  answer (a ∷ answers) = a

  abbrev later : List (Option Text) → List (Option Text)
  later [] = []
  later (a ∷ answers) = answers

  -- A payload is emitted, and the stream is closed if the host refuses it.
  abbrev emit_then : Text → Option Text → List HostCall → List HostCall
  emit_then body none rest = emitted body ∷ rest
  emit_then body (some message) rest = emitted body ∷ closed message ∷ []

  abbrev end_stream : Tracker → List (Option Text) → List HostCall
  end_stream t answers = elim (estimated_chunk t) [
    | none ↦ closed [] ∷ []
    | some usage ↦ emit_then usage (answer answers) (closed [] ∷ [])
  ]

  abbrev pub invalid_payload : Text
  invalid_payload = codes "invalid chat stream payload"

  -- The reads of the handle to come, and EOF after them.
  unfoldable pub pump_from : List Read → Tracker → List (Option Text) → List HostCall
  unfolding observe estimated_chunk
  pump_from [] t answers = end_stream t answers
  pump_from (fail Fault.eof ∷ reads) t answers = end_stream t answers
  pump_from (fail err ∷ reads) t answers = closed (error_text err) ∷ []
  pump_from (chunk raw ∷ reads) t answers = elim (executor_stream_payload dec raw) [
    | invalid ↦ closed invalid_payload ∷ []
    | end_mark ↦ pump_from reads t answers
    | payload body ↦
        emit_then body (answer answers) (pump_from reads (observe body t) (later answers))
  ]

  unfoldable pub pump_stream : List Read → ℤ → List (Option Text) → List HostCall
  unfolding pump_from
  pump_stream reads input answers =
      pump_from reads (record { input_tokens = input; output_tokens = pos 0; real_usage = false })
        answers
