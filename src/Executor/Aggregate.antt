-- ===== src/Executor/Aggregate.antt =====
-- executor_aggregate.go: a stream of chat chunks becomes one answer.
use qoder_cpa.Prelude.{
  ℕ, zero, suc, ◌+◌, Bool, true, false, List, [], ◌∷◌, ◌++◌, Option, none, some, Text, text_eq,
  ◌==◌, codes, if◌then◌else◌, length, trim_prefix, trim_space, ℤ, int_eq, pos, ◌+ℤ◌, lookup, insert,
}
use qoder_cpa.Stream.{Fault, other, Read, chunk, fail}
use qoder_cpa.Chat.{ToolDelta}
use qoder_cpa.Executor.{
  AggregateDelta, AggregateChoice, AggregateUsage, AggregateChunk, ChunkDecoder,
  estimate_payload_tokens,
}
pub mod Content
pub mod Tools

pub record ToolCall : Type 0 where
  pub call_id : Text
  pub kind : Text
  pub name : Text
  pub arguments : Text

-- The one choice of the answer stands for itself; its index is 0 and its role `assistant`.
pub record Result : Type 0 where
  pub id : Text
  pub object : Text
  pub model : Text
  pub content : Text
  pub reasoning : Text
  pub tool_calls : List ToolCall
  pub finish_reason : Text
  pub usage : Option AggregateUsage

-- The answer so far with the map of tool calls by index.
pub record Aggregate : Type 0 where
  pub result : Result
  pub tools : List (ℤ × ToolCall)

pub data Outcome : Type 0 where
  answered : Result → Outcome
  refused : Fault → Outcome

unfoldable pub new_aggregate : Aggregate
new_aggregate = record {
  result = record {
    id = [];
    object = codes "chat.completion";
    model = [];
    content = [];
    reasoning = [];
    tool_calls = [];
    finish_reason = [];
    usage = none;
  };
  tools = [];
}

abbrev pub tool_at : Option ToolCall → ToolDelta → ToolCall
tool_at none d = record { call_id = d.call_id; kind = codes "function"; name = []; arguments = [] }
tool_at (some t) d = t

abbrev pub unless_empty : Text → Text → Text
unless_empty new old = if new == [] then old else new

unfoldable pub apply_tool : List (ℤ × ToolCall) → ToolDelta → List (ℤ × ToolCall)
apply_tool tools d =
    let t = tool_at (lookup d.index tools) d in
    insert d.index
      (record {
        call_id = unless_empty d.call_id t.call_id;
        kind = t.kind;
        name = unless_empty d.function.name t.name;
        arguments = t.arguments ++ d.function.arguments;
      })
      tools

unfoldable pub apply_tools : List ToolDelta → List (ℤ × ToolCall) → List (ℤ × ToolCall)
unfolding apply_tool
apply_tools [] tools = tools
apply_tools (d ∷ ds) tools = apply_tools ds (apply_tool tools d)

abbrev finish_of : Option Text → Text → Text
finish_of none old = old
finish_of (some reason) old = reason

unfoldable pub apply_choice : AggregateChoice → Aggregate → Aggregate
unfolding apply_tools
apply_choice c a = record {
  result = record (a.result) {
    content = a.result.content ++ c.delta.content;
    reasoning = a.result.reasoning ++ c.delta.reasoning;
    finish_reason = finish_of c.finish_reason a.result.finish_reason;
  };
  tools = apply_tools c.delta.tool_calls a.tools;
}

unfoldable pub apply_choices : List AggregateChoice → Aggregate → Aggregate
unfolding apply_choice
apply_choices [] a = a
apply_choices (c ∷ cs) a = apply_choices cs (apply_choice c a)

abbrev with_name : AggregateChunk → Result → Result
with_name ev r = if r.id == [] then record r { id = ev.id; model = ev.model } else r

abbrev with_usage : Option AggregateUsage → Result → Result
with_usage none r = r
with_usage (some u) r = record r { usage = some u }

unfoldable pub apply_aggregate_chunk : AggregateChunk → Aggregate → Aggregate
unfolding apply_choices
apply_aggregate_chunk ev a =
    apply_choices ev.choices (record a { result = with_usage ev.usage (with_name ev a.result) })

-- `tools[index]` for each index from `i` on, `n` of them.
unfoldable pub collect_tools : ℕ → ℕ → List (ℤ × ToolCall) → List ToolCall
collect_tools zero i tools = []
collect_tools (suc n) i tools =
    let rest = collect_tools n (i + 1) tools in
    elim (lookup (pos i) tools) [ none ↦ rest | some t ↦ t ∷ rest ]

abbrev tool_tokens : List ToolCall → ℤ → ℤ
tool_tokens [] n = n
tool_tokens (t ∷ ts) n =
    tool_tokens ts (n +ℤ estimate_payload_tokens t.name +ℤ estimate_payload_tokens t.arguments)

abbrev estimated_usage : ℤ → ℤ → AggregateUsage
estimated_usage input output = record {
  prompt_tokens = input;
  completion_tokens = output;
  total_tokens = input +ℤ output;
  estimated = true;
  billable = none;
  cached_tokens = pos 0;
  cacheable_tokens = pos 0;
  reasoning_tokens = pos 0;
}

unfoldable pub usage_or_estimate : ℤ → Result → Option AggregateUsage → Option AggregateUsage
usage_or_estimate input r (some u) = some u
usage_or_estimate input r none = some (
    estimated_usage input (
      tool_tokens r.tool_calls
        (estimate_payload_tokens r.content +ℤ estimate_payload_tokens r.reasoning)))

unfoldable pub finish_aggregate : ℤ → Aggregate → Result
unfolding collect_tools usage_or_estimate
finish_aggregate input a =
    let r = record (a.result) { tool_calls = collect_tools (length a.tools) 0 a.tools } in
    record r { usage = usage_or_estimate input r r.usage }

abbrev pub incomplete_stream : Fault
incomplete_stream = other (codes "qoder executor: stream ended without [DONE]")

abbrev pub bad_json : Fault
bad_json = other (codes "json: invalid payload")

unfoldable pub aggregate_payload : Text → Text
aggregate_payload raw = trim_space (trim_prefix (trim_space raw) (codes "data:"))

module _ (dec : ChunkDecoder) (input : ℤ) where
  -- The reads of the handle to come, and EOF after them.
  unfoldable pub aggregate_from : List Read → Aggregate → Outcome
  unfolding apply_aggregate_chunk finish_aggregate
  aggregate_from [] a = refused incomplete_stream
  aggregate_from (fail Fault.eof ∷ reads) a = refused incomplete_stream
  aggregate_from (fail err ∷ reads) a = refused err
  aggregate_from (chunk raw ∷ reads) a =
      let payload = aggregate_payload raw in
      let stopped = answered (finish_aggregate input a) in
      if payload == codes "[DONE]" then stopped else elim (dec.aggregate payload) [
        | none ↦ refused bad_json
        | some ev ↦ aggregate_from reads (apply_aggregate_chunk ev a)
      ]

  unfoldable pub aggregate_chat : List Read → Outcome
  unfolding aggregate_from new_aggregate
  aggregate_chat reads = aggregate_from reads new_aggregate
