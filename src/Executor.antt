-- ===== src/Executor.antt =====
-- The executor of executor.go, executor_aggregate.go and executor_errors.go: what it makes of the
-- stream of a chat. The host and encoding/json are parameters.
use qoder_cpa.Prelude.{
  ℕ, zero, suc, ◌+◌, ◌/◌, Bool, true, false, not, ◌&&◌, ◌||◌, List, [], ◌∷◌, ◌++◌, Option, none,
  some, Text, text_eq, ◌==◌, nat_beq, codes, if◌then◌else◌, length, has_prefix, trim_prefix,
  trim_space, ℤ, pos, negsuc, ◌+ℤ◌,
}
use qoder_cpa.Chat.{ToolDelta}
pub mod Aggregate
pub mod Pump
pub mod Service

pub record AggregateDelta : Type 0 where
  pub content : Text
  pub reasoning : Text
  pub tool_calls : List ToolDelta

pub record AggregateChoice : Type 0 where
  pub delta : AggregateDelta
  pub finish_reason : Option Text

pub record AggregateUsage : Type 0 where
  pub prompt_tokens : ℤ
  pub completion_tokens : ℤ
  pub total_tokens : ℤ
  pub estimated : Bool
  pub billable : Option Bool
  pub cached_tokens : ℤ
  pub cacheable_tokens : ℤ
  pub reasoning_tokens : ℤ

pub record AggregateChunk : Type 0 where
  pub id : Text
  pub model : Text
  pub choices : List AggregateChoice
  pub usage : Option AggregateUsage

-- encoding/json as the executor uses it; `estimate` encodes the usage block of a stream.
pub record ChunkDecoder : Type 0 where
  pub aggregate : Text → Option AggregateChunk
  pub observed : Text → Option AggregateChunk
  pub valid : Text → Bool
  pub estimate : ℤ → ℤ → ℤ → Option Text

abbrev pub at_least_one : ℕ → ℕ
at_least_one zero = 1
at_least_one (suc n) = suc n

unfoldable pub estimate_payload_tokens : Text → ℤ
estimate_payload_tokens [] = pos 0
estimate_payload_tokens (c ∷ s) = pos (at_least_one (length (c ∷ s) / 4))

pub data Payload : Type 0 where
  end_mark : Payload
  invalid : Payload
  payload : Text → Payload

unfoldable pub executor_stream_payload : ChunkDecoder → Text → Payload
executor_stream_payload dec raw =
    let s = trim_space raw in
    let body =
      if has_prefix s (codes "data:") then trim_space (trim_prefix s (codes "data:")) else s in
    if s == codes "data: [DONE]" || s == codes "[DONE]"
    then end_mark
    else if dec.valid body
    then payload body
    else invalid
