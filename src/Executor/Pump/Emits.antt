-- ===== src/Executor/Pump/Emits.antt =====
-- What pumpStream (executor.go) tells the host: the payloads in order, and one close at the end.
use qoder_cpa.Prelude.{
  ◌≤◌, List, [], ◌∷◌, ◌++◌, Option, none, some, Text, ℤ, map, ◌≡◌, refl, ap, arith, inl, inr,
  Option-cases, length,
}
use qoder_cpa.Stream.{Fault, Read, chunk, fail}
use qoder_cpa.Executor.{ChunkDecoder, Payload, end_mark, invalid, payload, executor_stream_payload}
use qoder_cpa.Executor.Pump.{
  HostCall, emitted, closed, Tracker, observe, estimated_chunk, answer, later, emit_then,
  end_stream, invalid_payload, pump_from, pump_stream,
}

-- The payloads of a stream up to its first error or invalid chunk; end marks are left out.
unfoldable pub payloads : ChunkDecoder → List Read → List Text
payloads dec [] = []
payloads dec (fail err ∷ reads) = []
payloads dec (chunk raw ∷ reads) =
    let rest = payloads dec reads in
    elim (executor_stream_payload dec raw) [
      | invalid ↦ []
      | end_mark ↦ rest
      | payload body ↦ body ∷ rest
    ]

-- Payloads, and one close after them.
abbrev pub ClosesOnce : List HostCall → Type 0
ClosesOnce calls =
    (bodies : List Text) × (message : Text) × (calls ≡ map emitted bodies ++ closed message ∷ [])

-- The given payloads, at most one more, and one close after them.
abbrev pub EmitsAll : List Text → List HostCall → Type 0
EmitsAll bodies calls =
    (extra : List Text) × (message : Text) × (length extra ≤ 1)
    × (calls ≡ map emitted bodies ++ map emitted extra ++ closed message ∷ [])

module _ (dec : ChunkDecoder) (error_text : Fault → Text) where
  emit_then-ClosesOnce :
      (body : Text) (o : Option Text) (rest : List HostCall)
      → ClosesOnce rest
      → ClosesOnce (emit_then dec error_text body o rest)
  emit_then-ClosesOnce body none rest (bodies, message, same) =
      (body ∷ bodies, message, ap (◌∷◌ (emitted body)) same)
  emit_then-ClosesOnce body (some refusal) rest once = (body ∷ [], refusal, refl)

  end_stream-ClosesOnce :
      (t : Tracker) (answers : List (Option Text))
      → ClosesOnce (end_stream dec error_text t answers)
  end_stream-ClosesOnce t answers = elim (Option-cases (estimated_chunk dec error_text t)) [
    | inl real ↦ rw (end_stream, real) ([], [], refl)
    | inr (usage, guessed) ↦
        rw (end_stream, guessed)
          (emit_then-ClosesOnce usage (answer dec error_text answers) (closed [] ∷ [])
            ([], [], refl))
  ]

  after_chunk-ClosesOnce :
      (p : Payload) (reads : List Read) (t : Tracker) (answers : List (Option Text))
      → ((t' : Tracker) (answers' : List (Option Text))
          → ClosesOnce (pump_from dec error_text reads t' answers'))
      → ClosesOnce (elim p [
        | invalid ↦ closed (invalid_payload dec error_text) ∷ []
        | end_mark ↦ pump_from dec error_text reads t answers
        | payload body ↦ emit_then dec error_text body (answer dec error_text answers) (
            pump_from dec error_text reads
              (observe dec error_text body t)
              (later dec error_text answers))
      ])
  after_chunk-ClosesOnce invalid reads t answers rest = ([], _, refl)
  after_chunk-ClosesOnce end_mark reads t answers rest = rest t answers
  after_chunk-ClosesOnce (payload body) reads t answers rest =
      emit_then-ClosesOnce body (answer dec error_text answers) _ (rest _ _)

  pump_from-ClosesOnce :
      (reads : List Read) (t : Tracker) (answers : List (Option Text))
      → ClosesOnce (pump_from dec error_text reads t answers)
  unfolding pump_from
  pump_from-ClosesOnce [] t answers = end_stream-ClosesOnce t answers
  pump_from-ClosesOnce (fail Fault.eof ∷ reads) t answers = end_stream-ClosesOnce t answers
  pump_from-ClosesOnce (fail Fault.canceled ∷ reads) t answers = ([], _, refl)
  pump_from-ClosesOnce (fail Fault.deadline_exceeded ∷ reads) t answers = ([], _, refl)
  pump_from-ClosesOnce (fail (Fault.other s) ∷ reads) t answers = ([], _, refl)
  pump_from-ClosesOnce (fail (Fault.business e) ∷ reads) t answers = ([], _, refl)
  pump_from-ClosesOnce (chunk raw ∷ reads) t answers =
      after_chunk-ClosesOnce (executor_stream_payload dec raw) reads t answers
        (pump_from-ClosesOnce reads)

  -- Whatever the stream gives and the host answers, pumpStream returns, emits payloads, and closes the
  -- stream once, at the end.
  pub pump_stream-ClosesOnce :
      (reads : List Read) (input : ℤ) (answers : List (Option Text))
      → ClosesOnce (pump_stream dec error_text reads input answers)
  unfolding pump_stream
  pump_stream-ClosesOnce reads input answers = pump_from-ClosesOnce reads _ answers

  end_stream-EmitsAll : (t : Tracker) → EmitsAll [] (end_stream dec error_text t [])
  end_stream-EmitsAll t = elim (Option-cases (estimated_chunk dec error_text t)) [
    | inl real ↦ rw (end_stream, real) ([], [], omega arith, refl)
    | inr (usage, guessed) ↦ rw (end_stream, guessed) (usage ∷ [], [], omega arith, refl)
  ]

  after_chunk-EmitsAll :
      (p : Payload) (reads : List Read) (t : Tracker)
      → ((t' : Tracker) → EmitsAll (payloads dec reads) (pump_from dec error_text reads t' []))
      → EmitsAll
          (elim p [
            | invalid ↦ []
            | end_mark ↦ payloads dec reads
            | payload body ↦ body ∷ payloads dec reads
          ])
          (elim p [
            | invalid ↦ closed (invalid_payload dec error_text) ∷ []
            | end_mark ↦ pump_from dec error_text reads t []
            | payload body ↦
                emitted body ∷ pump_from dec error_text reads (observe dec error_text body t) []
          ])
  after_chunk-EmitsAll invalid reads t rest = ([], _, omega arith, refl)
  after_chunk-EmitsAll end_mark reads t rest = rest t
  after_chunk-EmitsAll (payload body) reads t rest =
      let (extra, message, few, same) = rest (observe dec error_text body t) in
      (extra, message, few, ap (◌∷◌ (emitted body)) same)

  pump_from-EmitsAll :
      (reads : List Read) (t : Tracker)
      → EmitsAll (payloads dec reads) (pump_from dec error_text reads t [])
  unfolding pump_from payloads
  pump_from-EmitsAll [] t = end_stream-EmitsAll t
  pump_from-EmitsAll (fail Fault.eof ∷ reads) t = end_stream-EmitsAll t
  pump_from-EmitsAll (fail Fault.canceled ∷ reads) t = ([], _, omega arith, refl)
  pump_from-EmitsAll (fail Fault.deadline_exceeded ∷ reads) t = ([], _, omega arith, refl)
  pump_from-EmitsAll (fail (Fault.other s) ∷ reads) t = ([], _, omega arith, refl)
  pump_from-EmitsAll (fail (Fault.business e) ∷ reads) t = ([], _, omega arith, refl)
  pump_from-EmitsAll (chunk raw ∷ reads) t =
      after_chunk-EmitsAll (executor_stream_payload dec raw) reads t (pump_from-EmitsAll reads)

  -- A host that takes every payload is given all payloads of the stream up to its first error, in
  -- order, then at most one more, and then the close.
  pub pump_stream-EmitsAll :
      (reads : List Read) (input : ℤ)
      → EmitsAll (payloads dec reads) (pump_stream dec error_text reads input [])
  unfolding pump_stream
  pump_stream-EmitsAll reads input = pump_from-EmitsAll reads _
