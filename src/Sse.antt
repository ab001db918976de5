-- ===== src/Sse.antt =====
-- The incremental event parser that internal/qodertransport/bearer/sse.go and
-- internal/qodertransport/cosy/sse.go have in the same words, with the event types of sse_types.go.
-- The two differ in how they classify a payload, which is an argument here.
use qoder_cpa.Prelude.{
  ℕ, zero, suc, ◌+◌, ◌-◌, Bool, true, false, ◌&&◌, ◌||◌, List, [], ◌∷◌, ◌++◌, Option, none, some,
  Text, text_eq, ◌==◌, nat_beq, ltb, codes, if◌then◌else◌, length, drop, has_prefix, trim_space, ℤ,
  pos,
}
use qoder_cpa.Stream.{QueuePayload, Fault, canceled, deadline_exceeded, other}
use qoder_cpa.Chat.{Usage}
use qoder_cpa.Classify.{is_rate_limit_text}
pub mod Tail
pub mod Loop
pub mod Bounds
pub mod Wire

pub data Kind : Type 0 where
  unknown text_delta reasoning_delta tool_call tool_delta usage terminal error : Kind

pub record SseTool : Type 0 where
  pub index : ℤ
  pub call_id : Text
  pub name : Text
  pub arguments : Text

pub record StreamError : Type 0 where
  pub error_code : ℤ
  pub message : Text
  pub reset_at : Text
  pub outer_code : ℤ
  pub queue : Option QueuePayload

-- The pointers of SSEEvent; the contents of text and reasoning deltas stand for themselves.
pub record SseEvent : Type 0 where
  pub kind : Kind
  pub text : Option Text
  pub reasoning : Option Text
  pub tool : Option SseTool
  pub usage : Option Usage
  pub stream_error : Option StreamError

abbrev pub no_event : SseEvent
no_event = record {
  kind = unknown;
  text = none;
  reasoning = none;
  tool = none;
  usage = none;
  stream_error = none;
}

abbrev pub terminal_event : SseEvent
terminal_event = record no_event { kind = terminal }

abbrev pub plain_error : ℤ → Text → StreamError
plain_error code message = record {
  error_code = code;
  message = message;
  reset_at = [];
  outer_code = pos 0;
  queue = none;
}

abbrev pub error_event : StreamError → SseEvent
error_event err = record no_event { kind = error; stream_error = some err }

abbrev pub rate_limited_event : SseEvent
rate_limited_event = error_event (plain_error (pos 429) (codes "rate_limited"))

-- strings.TrimRight(s, "\r\n"), and trimCRLF.
unfoldable pub trim_crlf : Text → Text
trim_crlf [] = []
trim_crlf (c ∷ s) = elim (trim_crlf s) [
  | [] ↦ if nat_beq c 10 || nat_beq c 13 then [] else c ∷ []
  | d ∷ t ↦ c ∷ d ∷ t
]

unfoldable pub is_terminal : Text → Bool
unfolding trim_crlf
is_terminal s = trim_crlf s == codes "[DONE]"

abbrev pub max_event_bytes : ℕ
max_event_bytes = 1048576

abbrev pub max_line_bytes : ℕ
max_line_bytes = 65536

abbrev pub max_tail : ℕ
max_tail = 96

unfoldable pub rate_tail : Text → Text → Text
rate_tail prev add =
    let s = prev ++ add in if ltb max_tail (length s) then drop (length s - max_tail) s else s

pub data CtxErr : Type 0 where
  ctx_canceled ctx_deadline : CtxErr

abbrev pub ctx_fault : CtxErr → Fault
ctx_fault ctx_canceled = canceled
ctx_fault ctx_deadline = deadline_exceeded

-- The reader gives its lines, each with the line end, then `rest` together with the error `ending`,
-- and that error again at each further call. `polls` are the answers of ctx.Err to come, nil after
-- them.
pub record Parser : Type 0 where
  pub lines : List Text
  pub rest : Text
  pub ending : Fault
  pub polls : List (Option CtxErr)
  pub buffer : Text
  pub event : Text
  pub seen_terminal : Bool
  pub aborted : Bool
  pub text_tail : Text

unfoldable pub new_parser : List Text → Text → Fault → List (Option CtxErr) → Parser
new_parser lines rest ending polls = record {
  lines = lines;
  rest = rest;
  ending = ending;
  polls = polls;
  buffer = [];
  event = [];
  seen_terminal = false;
  aborted = false;
  text_tail = [];
}

pub data Got : Type 0 where
  parsed : SseEvent → Got
  failed : Fault → Got

pub data Iteration : Type 0 where
  returned : Got → Parser → Iteration
  looped : Parser → Iteration

abbrev pub short_buffer : Fault
short_buffer = other (codes "short buffer")

abbrev is_eof : Option Fault → Bool
is_eof none = false
is_eof (some Fault.eof) = true
is_eof (some _) = false

-- ReadString('\n').
abbrev pub read_string : Parser → (Text × Option Fault) × Parser
read_string p = elim p.lines [
  | [] ↦ ((p.rest, some p.ending), record p { rest = [] })
  | l ∷ ls ↦ ((l, none), record p { lines = ls })
]

module _ (name : Text) (classify : Text → SseEvent) where
  abbrev pub too_large : Fault
  too_large = other (name ++ codes ": SSE event exceeds 1 MiB limit")

  abbrev pub missing_terminal : Fault
  missing_terminal = other (name ++ codes ": stream ended without terminal event")

  unfoldable pub eof_fallback : Parser → Iteration
  eof_fallback p =
      if p.seen_terminal
      then returned (failed Fault.eof) (record p { aborted = true })
      else returned (failed missing_terminal) (record p { aborted = true })

  abbrev mark_terminal : SseEvent → Parser → Parser
  mark_terminal ev p = elim ev.kind [ terminal ↦ record p { seen_terminal = true } | _ ↦ p ]

  -- A text delta, with the tail that it makes.
  abbrev with_tail : SseEvent → Text → Parser → SseEvent × Parser
  with_tail ev tail p =
      let ev' = if is_rate_limit_text tail then rate_limited_event else ev in
      (ev', mark_terminal ev' (record p { text_tail = tail }))

  abbrev without_tail : SseEvent → Parser → SseEvent × Parser
  without_tail ev p = (ev, mark_terminal ev (record p { text_tail = [] }))

  unfoldable pub classified : SseEvent → Parser → SseEvent × Parser
  classified ev p = elim ev.kind [
    | text_delta ↦ elim ev.text [
      | none ↦ without_tail ev p
      | some content ↦ with_tail ev (rate_tail p.text_tail content) p
    ]
    | _ ↦ without_tail ev p
  ]

  unfoldable pub dispatch : Parser → SseEvent × Parser
  unfolding classified
  dispatch p =
      let raw = trim_space p.buffer in
      let p' = record p { buffer = []; event = [] } in
      if is_terminal raw
      then (terminal_event, record p' { seen_terminal = true })
      else classified (classify raw) p'

  abbrev dispatched : Parser → Iteration
  dispatched p = let out = dispatch p in returned (parsed out.0) out.1

  -- The data so far with another line of it. Writing to a bytes.Buffer gives no error.
  abbrev pub joined : Text → Text → Text
  joined buffer d = if buffer == [] then d else buffer ++ 10 ∷ d

  abbrev pub add_data : Text → Parser → Option Parser
  add_data whole p =
      if ltb max_event_bytes (length whole) then none else some (record p { buffer = whole })

  -- What a line that is not blank adds, unless it makes the event too large.
  unfoldable pub take_line : Text → Parser → Option Parser
  take_line trimmed p =
      if has_prefix trimmed (codes "event:")
      then some (record p { event = trim_space (drop 6 trimmed) })
      else if has_prefix trimmed (codes "data:")
      then add_data (joined p.buffer (trim_space (drop 5 trimmed))) p
      else some p

  abbrev pub overfull : Text → Parser → Parser
  overfull trimmed p = record p {
    buffer = joined p.buffer (trim_space (drop 5 trimmed));
    aborted = true;
  }

  unfoldable pub after_line : Text → Option Fault → Parser → Iteration
  unfolding dispatch eof_fallback take_line
  after_line trimmed err p =
      if trimmed == []
      then if p.buffer == [] then if is_eof err then eof_fallback p else looped p else dispatched p
      else elim (take_line trimmed p) [
        | none ↦ returned (failed too_large) (overfull trimmed p)
        | some p' ↦
            if is_eof err
            then if p'.buffer == [] then eof_fallback p' else dispatched p'
            else looped p'
      ]

  unfoldable pub read_line : Parser → Iteration
  unfolding after_line
  read_line p =
      let got = read_string p in
      if ltb (max_line_bytes + 2) (length got.0.0)
      then returned (failed short_buffer) (record got.1 { buffer = []; aborted = true })
      else after_line (trim_crlf got.0.0) got.0.1 got.1

  unfoldable pub polled : List (Option CtxErr) → Parser → Iteration
  unfolding read_line
  polled [] p = read_line p
  polled (none ∷ polls) p = read_line (record p { polls = polls })
  polled (some err ∷ polls) p = returned (failed (ctx_fault err)) (record p { polls = polls })

  -- One pass of the loop: ctx.Err, then a line.
  unfoldable pub iterate : Parser → Iteration
  unfolding polled
  iterate p = polled p.polls p

  -- `none`: the fuel ran out.
  unfoldable pub parse_loop : ℕ → Parser → Option (Got × Parser)
  unfolding iterate
  parse_loop zero p = none
  parse_loop (suc fuel) p = elim (iterate p) [
    | returned got p' ↦ some (got, p')
    | looped p' ↦ parse_loop fuel p'
  ]

  unfoldable pub resumed : Bool → ℕ → Parser → Option (Got × Parser)
  unfolding parse_loop
  resumed true fuel p = some (failed Fault.eof, p)
  resumed false fuel p = parse_loop fuel p

  unfoldable pub parse_context : ℕ → Parser → Option (Got × Parser)
  unfolding resumed
  parse_context fuel p = resumed p.aborted fuel p
