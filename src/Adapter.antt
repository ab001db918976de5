-- ===== src/Adapter.antt =====
-- internal/qodertransport: adapter_events.go, and the handles of adapters.go that turn the events of a
-- parser into chunks. The results of ParseContext to come are a list, and EOF after them.
use qoder_cpa.Prelude.{
  ℕ, zero, suc, Bool, true, false, not, ◌&&◌, List, [], ◌∷◌, ◌++◌, Option, none, some, Text,
  text_eq, ◌==◌, codes, if◌then◌else◌, length, ℤ, pos,
}
use qoder_cpa.Stream.{StreamBusinessError, Fault, business, other, Read, chunk, fail}
use qoder_cpa.Chat.{
  FunctionDelta, ToolDelta, Delta, Choice, Chunk, Usage, Json, no_delta, marshal_sse, done_sse,
}
use qoder_cpa.Sse.{
  unknown, text_delta, reasoning_delta, tool_call, tool_delta, usage, terminal, error, SseTool,
  StreamError, SseEvent, Got, parsed, failed,
}
pub mod Terminal

unfoldable pub completion_id : Text → Text
completion_id request_id =
    codes "chatcmpl-" ++ (if request_id == [] then codes "qoder" else request_id)

pub record HandleState : Type 0 where
  pub id : Text
  pub model : Text
  pub terminal_sent : Bool
  pub done : Bool

-- What an event makes: nothing, a chunk, or the error that ends the stream.
pub data Out : Type 0 where
  skip : Out
  emit : Text → Out
  raise : Fault → Out

abbrev pub marshal_error : Fault
marshal_error = other (codes "json: unsupported value")

abbrev pub unknown_stream : Fault
unknown_stream = other (codes "qodertransport: upstream stream error")

abbrev out_of : Option Text → Out
out_of none = raise marshal_error
out_of (some raw) = emit raw

abbrev pub business_fault : StreamError → Fault
business_fault err = business (record {
  error_code = err.error_code;
  category = err.message;
  reset_at = err.reset_at;
  outer_code = err.outer_code;
  queue = err.queue;
})

abbrev pub one_choice : Text → Text → Delta → Option Text → Chunk
one_choice id model delta reason = record {
  id = id;
  object = codes "chat.completion.chunk";
  model = model;
  choices = record { index = pos 0; delta = delta; finish_reason = reason } ∷ [];
  usage = none;
}

abbrev pub tool_delta_of : SseTool → Delta
tool_delta_of t = record no_delta {
  tool_calls =
      record {
        index = t.index;
        call_id = t.call_id;
        kind = codes "function";
        function = record { name = t.name; arguments = t.arguments };
      }
      ∷ [];
}

abbrev pub cosy_counts : Usage → Usage
cosy_counts u = u

abbrev pub bearer_counts : Usage → Usage
bearer_counts u = record u { billable = none; cacheable_tokens = pos 0 }

-- A cosyHandle or a bearerHandle.
pub record Handle : Type 0 where
  pub events : List Got
  pub state : HandleState

module _ (json : Json) where
  unfoldable pub delta_chunk : Text → Text → Delta → Out
  delta_chunk id model delta = out_of (marshal_sse json (one_choice id model delta none))

  unfoldable pub usage_chunk : Text → Text → Usage → Out
  usage_chunk id model u = out_of (
      marshal_sse json (record {
        id = id;
        object = codes "chat.completion.chunk";
        model = model;
        choices = [];
        usage = some u;
      }))

  unfoldable pub finish_chunk : HandleState → Out × HandleState
  finish_chunk s = (
    out_of (marshal_sse json (one_choice s.id s.model no_delta (some (codes "stop")))),
    record s { terminal_sent = true },
  )

  abbrev spoken : Option Text → (Text → Out) → Out
  spoken none make = skip
  spoken (some content) make = make content

  abbrev called : Option SseTool → (SseTool → Out) → Out
  called none make = skip
  called (some t) make = make t

  abbrev counted : Option Usage → (Usage → Out) → Out
  counted none make = skip
  counted (some u) make = make u

  abbrev refused : Option StreamError → Out
  refused none = raise unknown_stream
  refused (some err) = raise (business_fault err)

  -- cosyEventChunk and bearerEventChunk, which differ in the counts that they pass on.
  unfoldable pub event_chunk : (Usage → Usage) → HandleState → SseEvent → Out × HandleState
  unfolding delta_chunk usage_chunk finish_chunk
  event_chunk counts s ev = elim ev.kind [
    | text_delta ↦
        (spoken ev.text (λ t. delta_chunk s.id s.model (record no_delta { content = t })), s)
    | reasoning_delta ↦
        (spoken ev.reasoning (λ t. delta_chunk s.id s.model (record no_delta { reasoning = t })), s)
    | tool_delta ↦ (called ev.tool (λ t. delta_chunk s.id s.model (tool_delta_of t)), s)
    | usage ↦ (counted ev.usage (λ u. usage_chunk s.id s.model (counts u)), s)
    | terminal ↦ finish_chunk s
    | error ↦ (refused ev.stream_error, s)
    | unknown ↦ (skip, s)
    | tool_call ↦ (skip, s)
  ]

  unfoldable pub read_events : (Usage → Usage) → HandleState → List Got → Read × Handle
  unfolding event_chunk
  read_events counts s [] = (fail Fault.eof, record { events = []; state = s })
  read_events counts s (failed err ∷ gs) = (fail err, record { events = gs; state = s })
  read_events counts s (parsed ev ∷ gs) =
      let out = event_chunk counts s ev in
      let rest = read_events counts out.1 gs in
      elim out.0 [
        | skip ↦ rest
        | emit raw ↦ (chunk raw, record { events = gs; state = out.1 })
        | raise err ↦ (fail err, record { events = gs; state = out.1 })
      ]

  unfoldable pub next_terminal : HandleState → Option (Text × HandleState)
  next_terminal s =
      if s.terminal_sent && not s.done then some (done_sse, record s { done = true }) else none

  unfoldable pub read_chunk : (Usage → Usage) → Handle → Read × Handle
  unfolding read_events next_terminal
  read_chunk counts h =
      let through = read_events counts h.state h.events in
      elim (next_terminal h.state) [
        | some (raw, s) ↦ (chunk raw, record h { state = s })
        | none ↦ if h.state.done then (fail Fault.eof, h) else through
      ]
