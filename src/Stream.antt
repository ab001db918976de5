-- ===== src/Stream.antt =====
-- The typed errors of a chat stream: internal/qodertransport/errors.go and the queue payload of
-- internal/qodertransport/qoderstream/classify.go. `Fault` is the Go `error` of a stream, told
-- apart as `errors.As` and `==` tell it apart.
use qoder_cpa.Prelude.{Bool, Option, Text, ℤ, text_eq, codes}

pub record QueuePayload : Type 0 where
  pub is_queued : Bool
  pub queue_type : Text
  pub service_available : Bool
  pub retry_after_seconds : ℤ
  pub wait_time : ℤ

-- The time of a quota reset is kept as the text that it prints to, empty if absent.
pub record StreamBusinessError : Type 0 where
  pub error_code : ℤ
  pub category : Text
  pub reset_at : Text
  pub outer_code : ℤ
  pub queue : Option QueuePayload

pub data Fault : Type 0 where
  business : StreamBusinessError → Fault
  eof : Fault
  canceled : Fault
  deadline_exceeded : Fault
  other : Text → Fault

abbrev pub cat_queue_unavailable : Text
cat_queue_unavailable = codes "queue_unavailable"

-- What a read of a stream gives: the next chunk, or the error that ends it.
pub data Read : Type 0 where
  chunk : Text → Read
  fail : Fault → Read
