-- ===== src/Sse/Wire.antt =====
-- How the payload of an event is classified: classifyEvent and what it calls, in
-- internal/qodertransport/bearer/sse.go and sse_business.go, and in
-- internal/qodertransport/cosy/sse_wire.go and sse_business.go.
use qoder_cpa.Prelude.{
  ℕ, zero, suc, Bool, true, false, not, ◌&&◌, ◌||◌, List, [], ◌∷◌, ◌++◌, Option, none, some, Text,
  text_eq, ◌==◌, nat_beq, ltb, codes, if◌then◌else◌, ℤ, pos, negsuc, ltb_ℤ,
}
use qoder_cpa.Stream.{QueuePayload}
use qoder_cpa.Chat.{Usage}
use qoder_cpa.Classify.{Decoder, is_rate_limit_text, classify_business}
use qoder_cpa.Sse.{
  Kind, unknown, text_delta, reasoning_delta, tool_delta, usage, terminal, error, SseTool,
  StreamError, SseEvent, no_event, terminal_event, plain_error, error_event, rate_limited_event,
  is_terminal,
}
pub mod Complete

pub record WireError : Type 0 where
  pub number : Text
  pub message : Text

pub record WireChoice : Type 0 where
  pub finish : Option Text
  pub reasoning : Option Text
  pub content : Option Text
  pub tools : List SseTool

-- encoding/json at the wire types, with strconv and time as parseResetTime uses them; `none` is an
-- error, and a missing number or text is empty.
pub record WireDecoder : Type 0 where
  pub business : Decoder
  pub wire_error : Text → Option WireError
  pub int_of : Text → Option ℤ
  pub choice_count : Text → Option ℕ
  pub usage_block : Text → Option (ℕ × Option Usage)
  pub usage_of : Text → Option Usage
  pub choices : Text → Option (List WireChoice)
  pub envelope : Text → Option Text
  pub status : Text → Option ℤ
  pub message : Text → Option Text
  pub reset_number : Text → Option Text
  pub unquote : Text → Option Text
  pub format_millis : ℤ → Text

abbrev is_zero : ℤ → Bool
is_zero (pos n) = nat_beq n 0
is_zero (negsuc n) = false

abbrev no_counts : Usage → Bool
no_counts u = is_zero u.prompt_tokens && is_zero u.completion_tokens && is_zero u.total_tokens

-- A pointer to a text that is not empty.
abbrev spoken : Option Text → Option Text
spoken none = none
spoken (some []) = none
spoken (some (c ∷ s)) = some (c ∷ s)

abbrev tool_event : List SseTool → Option SseEvent
tool_event [] = none
tool_event (t ∷ ts) = some (record no_event { kind = tool_delta; tool = some t })

-- The event that one choice makes; `none` where the loop goes on to the next.
unfoldable pub choice_event : WireChoice → Option SseEvent
choice_event ch = elim ch.finish [
  | some reason ↦ some terminal_event
  | none ↦ elim (spoken ch.reasoning) [
    | some content ↦ some (record no_event { kind = reasoning_delta; reasoning = some content })
    | none ↦ elim (spoken ch.content) [
      | some content ↦
          if is_rate_limit_text content
          then some rate_limited_event
          else some (record no_event { kind = text_delta; text = some content })
      | none ↦ tool_event ch.tools
    ]
  ]
]

unfoldable pub first_event : List WireChoice → SseEvent
unfolding choice_event
first_event [] = no_event
first_event (ch ∷ chs) =
    let rest = first_event chs in elim (choice_event ch) [ none ↦ rest | some ev ↦ ev ]

module _ (dec : WireDecoder) where
  unfoldable pub classify_choices : Text → SseEvent
  unfolding first_event
  classify_choices raw = elim (dec.choices raw) [
    | none ↦ error_event (plain_error (pos 0) (codes "invalid JSON"))
    | some chs ↦ first_event chs
  ]

  abbrev usage_event : Usage → SseEvent
  usage_event u = record no_event { kind = usage; usage = some u }

  -- A decoded error with a number that is a 64-bit integer.
  abbrev pub coded : Text → Option (ℤ × Text)
  coded raw = elim (dec.wire_error raw) [
    | none ↦ none
    | some we ↦
        if we.number == []
        then none
        else elim (dec.int_of we.number) [ none ↦ none | some code ↦ some (code, we.message) ]
  ]

  abbrev has_choices : Text → Bool
  has_choices raw = elim (dec.choice_count raw) [ none ↦ false | some n ↦ ltb 0 n ]

  abbrev business_error : ℤ → Text → Text → ℤ → StreamError
  business_error code message raw outer =
      let out = classify_business dec.business code message raw in
      record {
        error_code = code;
        message = out.0;
        reset_at = [];
        outer_code = outer;
        queue = out.1;
      }

  unfoldable pub bearer_error : Text → Option SseEvent
  bearer_error raw = elim (coded raw) [
    | none ↦ none
    | some (code, message) ↦
        if has_choices raw
        then none
        else some (error_event (business_error code message raw (pos 0)))
  ]

  abbrev bearer_counts : Usage → SseEvent
  bearer_counts u = usage_event (record u { billable = none; cacheable_tokens = pos 0 })

  unfoldable pub bearer_usage : Text → Option SseEvent
  bearer_usage raw = elim (dec.usage_block raw) [
    | none ↦ none
    | some (n, none) ↦ none
    | some (n, some u) ↦ if ltb 0 n || no_counts u then none else some (bearer_counts u)
  ]

  unfoldable pub bearer_classify : Text → SseEvent
  unfolding bearer_error bearer_usage classify_choices
  bearer_classify payload =
      if is_terminal payload then terminal_event else elim (bearer_error payload) [
        | some ev ↦ ev
        | none ↦ elim (bearer_usage payload) [ some ev ↦ ev | none ↦ classify_choices payload ]
      ]

  -- At most `n` envelopes are taken off.
  unfoldable pub unwrap_levels : ℕ → Text → Text
  unwrap_levels zero current = current
  unwrap_levels (suc n) current = elim (dec.envelope current) [
    | none ↦ current
    | some [] ↦ current
    | some (c ∷ body) ↦ unwrap_levels n (c ∷ body)
  ]

  unfoldable pub unwrap_body : Text → Text
  unfolding unwrap_levels
  unwrap_body raw = unwrap_levels 3 raw

  unfoldable pub extract_status_code_value : Text → ℤ
  extract_status_code_value raw = elim (dec.status raw) [ none ↦ pos 0 | some code ↦ code ]

  abbrev at_millis : ℤ → Text
  at_millis ms = if ltb_ℤ (pos 0) ms then dec.format_millis ms else []

  unfoldable pub parse_reset_time : Text → Text
  parse_reset_time raw = elim (dec.reset_number raw) [
    | none ↦ []
    | some [] ↦ []
    | some (c ∷ number) ↦ elim (dec.int_of (c ∷ number)) [
      | some ms ↦ at_millis ms
      | none ↦ elim (dec.unquote (34 ∷ c ∷ number ++ 34 ∷ [])) [
        | none ↦ []
        | some s ↦ elim (dec.int_of s) [ none ↦ [] | some ms ↦ at_millis ms ]
      ]
    ]
  ]

  unfoldable pub reset_levels : ℕ → Text → Option Text
  unfolding parse_reset_time
  reset_levels zero current = none
  reset_levels (suc n) current = elim (dec.message current) [
    | none ↦ none
    | some [] ↦ none
    | some (c ∷ message) ↦ elim (parse_reset_time (c ∷ message)) [
      | [] ↦ reset_levels n (c ∷ message)
      | d ∷ at ↦ some (d ∷ at)
    ]
  ]

  unfoldable pub extract_agent_limit_reset_time : Text → Text
  unfolding reset_levels
  extract_agent_limit_reset_time raw = elim (reset_levels 3 raw) [
    | some at ↦ at
    | none ↦ parse_reset_time raw
  ]

  unfoldable pub cosy_error : Text → ℤ → Option StreamError
  cosy_error raw outer = elim (coded raw) [
    | none ↦ none
    | some (code, message) ↦ some (business_error code message raw outer)
  ]

  unfoldable pub cosy_usage : Text → Option SseEvent
  cosy_usage raw = elim (dec.usage_of raw) [
    | none ↦ none
    | some u ↦ if no_counts u then none else some (usage_event u)
  ]

  abbrev is_ok_status : ℤ → Bool
  is_ok_status (pos n) = nat_beq n 0 || nat_beq n 200
  is_ok_status (negsuc n) = false

  -- The unwrapped payload with the status of its wrapper.
  unfoldable pub cosy_payload : ℤ → Text → SseEvent
  unfolding cosy_error cosy_usage classify_choices extract_agent_limit_reset_time
  cosy_payload status payload =
      if is_terminal payload then terminal_event else elim (cosy_error payload status) [
        | some err ↦ error_event (record err { reset_at = extract_agent_limit_reset_time payload })
        | none ↦
            if not (is_ok_status status)
            then error_event (record (business_error status [] payload status) {
              reset_at = extract_agent_limit_reset_time payload;
            })
            else elim (cosy_usage payload) [ some ev ↦ ev | none ↦ classify_choices payload ]
      ]

  unfoldable pub cosy_classify : Text → SseEvent
  unfolding cosy_payload
  cosy_classify payload = cosy_payload (extract_status_code_value payload) (unwrap_body payload)
