-- ===== src/Tests/SseRuns.antt =====
-- Upstream events, their classification, and the chunks that they become.
use qoder_cpa.Prelude.{
  ◌+◌, true, false, List, [], ◌∷◌, ◌++◌, none, some, Text, text_eq, ◌==◌, ◌||◌, codes, ◌≡◌, refl,
  inr, arith, length, pos, trim_space, if◌then◌else◌, contains,
}
use qoder_cpa.Stream.{eof, cat_queue_unavailable}
use qoder_cpa.Chat.{done_sse, frame, marshal_sse}
use qoder_cpa.Classify.{
  Decoder, Probe, to_lower, is_rate_limit_text, is_code, is_queue_shaped, extract_queue,
  descend_json, descend_one, merge_queue, found_queue, extract_levels, classify_business, no_queue,
}
use qoder_cpa.Classify.Rules.{classify_business_queue_iff}
use qoder_cpa.Classify.Queue.{levels, merge_all, any_found}
use qoder_cpa.Sse.{
  SseEvent, Parser, parsed, terminal_event, new_parser, trim_crlf, is_terminal, rate_tail,
  eof_fallback, classified, dispatch, take_line, after_line, read_line, polled, iterate, parse_loop,
  resumed, parse_context,
}
use qoder_cpa.Sse.Loop.{Returns, parse_context-Returns}
use qoder_cpa.Sse.Bounds.{Fits, EofSeen, parse_context_bounded}
use qoder_cpa.Sse.Tail.{text_event, after_deltas}
use qoder_cpa.Sse.Wire.{
  WireDecoder, choice_event, first_event, classify_choices, bearer_error, bearer_usage,
  bearer_classify,
}
use qoder_cpa.Fallback.{parse_fallback_sse}
use qoder_cpa.Fallback.Reading.{content_of}
use qoder_cpa.Adapter.{
  HandleState, Handle, event_chunk, delta_chunk, usage_chunk, finish_chunk, read_events,
  next_terminal, read_chunk, cosy_counts,
}
use qoder_cpa.Adapter.Terminal.{repeat, read_times, got_texts, read_texts, read_times_text}
use qoder_cpa.Tests.Codec.{json, json-IsLawful}

program : Unit {0}
unfolding to_lower is_rate_limit_text is_queue_shaped extract_queue descend_json descend_one
    merge_queue found_queue extract_levels classify_business levels merge_all any_found new_parser
    trim_crlf is_terminal rate_tail eof_fallback classified dispatch take_line after_line read_line
    polled iterate parse_loop resumed parse_context choice_event first_event classify_choices
    bearer_error bearer_usage bearer_classify content_of event_chunk delta_chunk usage_chunk
    finish_chunk read_events next_terminal read_chunk parse_fallback_sse trim_space marshal_sse
    done_sse frame contains
program = tt

-- A wrapper whose message is the text of an object with a queue payload.
abbrev outer_probe : Probe
outer_probe = record {
  is_queued = none;
  queue_type = none;
  service_available = none;
  retry_after_seconds = none;
  wait_time = none;
  body = [];
  message = codes "{in}";
  payload = [];
}

abbrev inner_probe : Probe
inner_probe = record outer_probe {
  queue_type = some (codes "p3");
  retry_after_seconds = some (pos 7);
  message = [];
}

abbrev queue_decoder : Decoder
queue_decoder = record {
  probe = λ s.
      if s == codes "{out}"
      then some outer_probe
      else if s == codes "{in}"
      then some inner_probe
      else none;
  string = λ s. none;
}

nested :
    extract_queue queue_decoder (codes "{out}")
    ≡ some (record no_queue { queue_type = codes "p3"; retry_after_seconds = pos 7 })
unfolding program
nested = refl

classify_business_queue_iff_example :
    ((classify_business queue_decoder (pos 500) (codes "no") (codes "{out}")).0
      == cat_queue_unavailable)
    ≡ (is_code (pos 500) 10605 || is_queue_shaped (extract_queue queue_decoder (codes "{out}")))
classify_business_queue_iff_example =
    classify_business_queue_iff queue_decoder (pos 500) (codes "no") (codes "{out}")

-- Each payload that is no end mark is an answer of that text.
abbrev wire : WireDecoder
wire = record {
  business = queue_decoder;
  wire_error = λ s. none;
  int_of = λ s. none;
  choice_count = λ s. none;
  usage_block = λ s. none;
  usage_of = λ s. none;
  choices =
      λ s. some (record { finish = none; reasoning = none; content = some s; tools = [] } ∷ []);
  envelope = λ s. none;
  status = λ s. none;
  message = λ s. none;
  reset_number = λ s. none;
  unquote = λ s. none;
  format_millis = λ n. [];
}

abbrev lines : List Text
lines =
    (codes "event: x" ++ 13 ∷ 10 ∷ [])
    ∷ codes "data: hi\n"
    ∷ codes "\n"
    ∷ codes "data: [DONE]\n"
    ∷ []

abbrev parser : Parser
parser = new_parser lines [] eof []

abbrev bearer : Text → SseEvent
bearer = bearer_classify wire

-- The data line is dispatched at the blank line after it.
first_event_parsed :
    parse_context (codes "bearer") bearer 5 parser
    ≡ some (
      parsed (text_event (codes "hi")),
      record (new_parser (codes "data: [DONE]\n" ∷ []) [] eof []) { text_tail = codes "hi" },
    )
unfolding program
first_event_parsed = refl

abbrev after_first : Parser → Parser
after_first p = record p { lines = codes "data: [DONE]\n" ∷ []; text_tail = codes "hi" }

parse_context-Returns_example :
    Returns (parse_context (codes "bearer") bearer (length parser.lines + 1) parser)
unfolding new_parser
parse_context-Returns_example = parse_context-Returns (codes "bearer") bearer parser refl

parse_context_bounded_example :
    EofSeen (parsed (text_event (codes "hi"))) (after_first parser) × Fits (after_first parser)
unfolding program
parse_context_bounded_example =
    parse_context_bounded (codes "bearer") bearer 5 parser (parsed (text_event (codes "hi")))
      (after_first parser) refl (inr (omega arith)) refl

abbrev long_part : Text
long_part = codes "are rate-limited" ++ repeat 90 120

-- The phrase is in the text, and is not found when its second part goes on for long.
phrase_lost :
    (is_rate_limit_text (codes "available upstream accounts " ++ long_part) ≡ true)
    × ((classified (codes "bearer") bearer (text_event long_part) (
          after_deltas
            (codes "bearer")
            bearer
            (codes "available upstream accounts " ∷ [])
            parser)).0
        ≡ text_event long_part)
unfolding program
phrase_lost = (refl, refl)

abbrev open_state : HandleState
open_state = record { id = codes "i"; model = codes "m"; terminal_sent = false; done = false }

abbrev handle : Handle
handle = record {
  events =
      parsed (text_event (codes "a"))
      ∷ parsed (text_event (codes "b"))
      ∷ parsed terminal_event
      ∷ [];
  state = open_state;
}

read_times_text_example :
    read_texts json (read_times json cosy_counts 2 handle).0
      ++ got_texts (read_times json cosy_counts 2 handle).1.events
    ≡ got_texts handle.events
read_times_text_example = read_times_text json json-IsLawful cosy_counts 2 handle
