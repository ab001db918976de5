-- ===== src/Tests/ExecutorRuns.antt =====
-- A stream that is put together to one answer, and one that is handed to the host.
use qoder_cpa.Prelude.{
  ℕ, true, false, List, [], ◌∷◌, none, some, Text, text_eq, codes, pos, ◌≡◌, refl, trim_space,
  lookup, insert, ◌+ℤ◌,
}
use qoder_cpa.Stream.{Fault, Read, chunk}
use qoder_cpa.Chat.{ToolDelta}
use qoder_cpa.Executor.{
  AggregateUsage, AggregateChunk, ChunkDecoder, estimate_payload_tokens, executor_stream_payload,
}
use qoder_cpa.Executor.Aggregate.{
  Result, answered, new_aggregate, apply_tool, apply_tools, apply_choice, apply_choices,
  apply_aggregate_chunk, collect_tools, usage_or_estimate, finish_aggregate, aggregate_payload,
  aggregate_from, aggregate_chat,
}
use qoder_cpa.Executor.Aggregate.Content.{
  events_of, all_content, all_reasoning, aggregate_chat_text,
}
use qoder_cpa.Executor.Aggregate.Tools.{arguments_for}
use qoder_cpa.Executor.Pump.{emitted, closed, pump_stream}
use qoder_cpa.Executor.Pump.Emits.{ClosesOnce, payloads, pump_stream-ClosesOnce}

program : Unit {0}
unfolding estimate_payload_tokens executor_stream_payload new_aggregate apply_tool apply_tools
    apply_choice apply_choices apply_aggregate_chunk collect_tools usage_or_estimate
    finish_aggregate aggregate_payload aggregate_from aggregate_chat events_of arguments_for
    pump_stream payloads trim_space lookup insert ◌+ℤ◌
program = tt

abbrev tool_delta : ℕ → Text → ToolDelta
tool_delta i arguments = record {
  index = pos i;
  call_id = codes "c";
  kind = codes "function";
  function = record { name = codes "ls"; arguments = arguments };
}

abbrev counts : AggregateUsage
counts = record {
  prompt_tokens = pos 1;
  completion_tokens = pos 2;
  total_tokens = pos 3;
  estimated = false;
  billable = none;
  cached_tokens = pos 0;
  cacheable_tokens = pos 0;
  reasoning_tokens = pos 0;
}

-- A payload is the text that it says, and comes with one tool call of index 1.
abbrev says : Text → AggregateChunk
says t = record {
  id = codes "i";
  model = codes "m";
  choices =
      record {
        delta = record { content = t; reasoning = []; tool_calls = tool_delta 1 t ∷ [] };
        finish_reason = none;
      }
      ∷ [];
  usage = some counts;
}

abbrev decoder : ChunkDecoder
decoder = record {
  aggregate = λ s. some (says s);
  observed = λ s. some (says s);
  valid = λ s. true;
  estimate = λ a b c. some (codes "usage");
}

abbrev stream : List Read
stream =
    chunk (codes "data: a\n\n")
    ∷ chunk (codes "data: b\n\n")
    ∷ chunk (codes "data: [DONE]\n\n")
    ∷ []

-- The one call has the index 1, and is not in the answer.
abbrev answer : Result
answer = record {
  id = codes "i";
  object = codes "chat.completion";
  model = codes "m";
  content = codes "ab";
  reasoning = [];
  tool_calls = [];
  finish_reason = [];
  usage = some counts;
}

gap_drops_call : aggregate_chat decoder (pos 9) stream ≡ answered answer
unfolding program
gap_drops_call = refl

aggregate_chat_text_example :
    (answer.content ≡ all_content (events_of decoder stream))
    × (answer.reasoning ≡ all_reasoning (events_of decoder stream))
aggregate_chat_text_example = aggregate_chat_text decoder (pos 9) stream answer gap_drops_call

abbrev deltas : List ToolDelta
deltas = tool_delta 0 (codes "{") ∷ tool_delta 1 (codes "x") ∷ tool_delta 0 (codes "}") ∷ []

abbrev error_text : Fault → Text
error_text err = codes "failed"

pumped :
    pump_stream decoder error_text stream (pos 9) []
    ≡ emitted (codes "a") ∷ emitted (codes "b") ∷ closed [] ∷ []
unfolding program
pumped = refl

pump_stream-ClosesOnce_example :
    ClosesOnce (pump_stream decoder error_text stream (pos 9) (none ∷ some (codes "gone") ∷ []))
pump_stream-ClosesOnce_example =
    pump_stream-ClosesOnce decoder error_text stream (pos 9) (none ∷ some (codes "gone") ∷ [])
