-- ===== src/Sse/Wire/Complete.antt =====
-- The events of classifyEvent (internal/qodertransport/bearer/sse.go and cosy/sse_wire.go) carry what
-- their kind says, and errors carry a category of the closed list.
use qoder_cpa.Prelude.{
  List, [], ◌∷◌, Option, none, some, Text, codes, ◌≡◌, refl, arith, ◌⊎◌, inl, inr, ℤ, Bool-cases,
  Option-cases, text_eq, subst,
}
use qoder_cpa.Classify.Rules.{IsSafe, classify_business-IsSafe}
use qoder_cpa.Sse.{
  is_terminal, unknown, text_delta, reasoning_delta, tool_call, tool_delta, usage, terminal, error,
  StreamError, SseEvent,
}
use qoder_cpa.Sse.Wire.{
  WireChoice, WireDecoder, choice_event, first_event, classify_choices, bearer_error, bearer_usage,
  bearer_classify, cosy_error, cosy_usage, cosy_payload, cosy_classify, extract_status_code_value,
  unwrap_body, coded, has_choices, is_ok_status,
}

abbrev IsPresent {ℓ} : {A : Type ℓ} → Option A → Type 0
IsPresent none = ⊥
IsPresent (some a) = Unit

-- A closed category, or the one text for payloads that are no JSON.
abbrev SafeMessage : Option StreamError → Type 0
SafeMessage none = ⊥
SafeMessage (some err) = IsSafe err.message ⊎ (err.message ≡ codes "invalid JSON")

-- What the kind of an event promises; the kind `tool_call` does not occur.
abbrev pub IsComplete : SseEvent → Type 0
IsComplete ev = elim ev.kind [
  | unknown ↦ Unit
  | text_delta ↦ IsPresent ev.text
  | reasoning_delta ↦ IsPresent ev.reasoning
  | tool_call ↦ ⊥
  | tool_delta ↦ IsPresent ev.tool
  | usage ↦ IsPresent ev.usage
  | terminal ↦ Unit
  | error ↦ SafeMessage ev.stream_error
]

rate_limited-IsSafe : IsSafe (codes "rate_limited")
rate_limited-IsSafe = record { listed = refl }

abbrev CompleteIf : Option SseEvent → Type 0
CompleteIf none = Unit
CompleteIf (some ev) = IsComplete ev

choice_event-CompleteIf : (ch : WireChoice) → CompleteIf (choice_event ch)
unfolding choice_event
choice_event-CompleteIf ch = ground (arith, rate_limited-IsSafe)

first_event-IsComplete : (chs : List WireChoice) → IsComplete (first_event chs)
unfolding first_event
first_event-IsComplete [] = tt
first_event-IsComplete (ch ∷ chs) =
    ground (arith, first_event-IsComplete chs, choice_event-CompleteIf ch)

module _ (dec : WireDecoder) where
  classify_choices-IsComplete : (raw : Text) → IsComplete (classify_choices dec raw)
  unfolding classify_choices
  classify_choices-IsComplete raw = elim (Option-cases (dec.choices raw)) [
    | inl bad ↦ rw (classify_choices, bad) (inr refl)
    | inr (chs, good) ↦ rw (classify_choices, good) (first_event-IsComplete chs)
  ]

  bearer_error-CompleteIf : (raw : Text) → CompleteIf (bearer_error dec raw)
  unfolding bearer_error
  bearer_error-CompleteIf raw = elim (Option-cases (coded dec raw)) [
    | inl bad ↦ rw (bearer_error, bad) tt
    | inr ((code, message), good) ↦ elim (Bool-cases (has_choices dec raw)) [
      | inl some_choice ↦ rw (bearer_error, good, some_choice) tt
      | inr no_choice ↦
          rw (bearer_error, good, no_choice)
            (inl (classify_business-IsSafe dec.business code message raw))
    ]
  ]

  bearer_usage-CompleteIf : (raw : Text) → CompleteIf (bearer_usage dec raw)
  unfolding bearer_usage
  bearer_usage-CompleteIf raw = ground arith

  -- A bearer event carries what its kind says, so that no event is dropped for a missing part, and an
  -- error carries a category of the closed list or says that the payload was no JSON.
  pub bearer_classify-IsComplete : (payload : Text) → IsComplete (bearer_classify dec payload)
  unfolding bearer_classify
  bearer_classify-IsComplete payload = elim (Bool-cases (is_terminal payload)) [
    | inl over ↦ rw (bearer_classify, over) tt
    | inr more ↦ elim (Option-cases (bearer_error dec payload)) [
      | inr (ev, bad) ↦
          rw (bearer_classify, more, bad) (subst CompleteIf bad (bearer_error-CompleteIf payload))
      | inl fine ↦ elim (Option-cases (bearer_usage dec payload)) [
        | inr (ev, counted) ↦
            rw (bearer_classify, more, fine, counted)
              (subst CompleteIf counted (bearer_usage-CompleteIf payload))
        | inl uncounted ↦
            rw (bearer_classify, more, fine, uncounted) (classify_choices-IsComplete payload)
      ]
    ]
  ]

  cosy_usage-CompleteIf : (raw : Text) → CompleteIf (cosy_usage dec raw)
  unfolding cosy_usage
  cosy_usage-CompleteIf raw = ground arith

  cosy_error-SafeMessage :
      (raw : Text) (outer : ℤ) (err : StreamError)
      → cosy_error dec raw outer ≡ some err
      → IsSafe err.message
  unfolding cosy_error
  cosy_error-SafeMessage raw outer err found = elim (Option-cases (coded dec raw)) [
    | inl bad ↦ ground arith
    | inr ((code, message), good) ↦
        ground (arith, classify_business-IsSafe dec.business code message raw)
  ]

  cosy_payload-IsComplete :
      (status : ℤ) (payload : Text) → IsComplete (cosy_payload dec status payload)
  unfolding cosy_payload
  cosy_payload-IsComplete status payload = elim (Bool-cases (is_terminal payload)) [
    | inl over ↦ rw (cosy_payload, over) tt
    | inr more ↦ elim (Option-cases (cosy_error dec payload status)) [
      | inr (err, bad) ↦
          rw (cosy_payload, more, bad) (inl (cosy_error-SafeMessage payload status err bad))
      | inl fine ↦ elim (Bool-cases (is_ok_status dec status)) [
        | inr refused ↦
            rw (cosy_payload, more, fine, refused)
              (inl (classify_business-IsSafe dec.business status [] payload))
        | inl ok ↦ elim (Option-cases (cosy_usage dec payload)) [
          | inr (ev, counted) ↦
              rw (cosy_payload, more, fine, ok, counted)
                (subst CompleteIf counted (cosy_usage-CompleteIf payload))
          | inl uncounted ↦
              rw (cosy_payload, more, fine, ok, uncounted) (classify_choices-IsComplete payload)
        ]
      ]
    ]
  ]

  -- A cosy event carries what its kind says, and an error carries a category of the closed list or
  -- says that the payload was no JSON.
  pub cosy_classify-IsComplete : (payload : Text) → IsComplete (cosy_classify dec payload)
  unfolding cosy_classify
  cosy_classify-IsComplete payload =
      cosy_payload-IsComplete (extract_status_code_value dec payload) (unwrap_body dec payload)
