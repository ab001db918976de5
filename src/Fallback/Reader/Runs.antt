-- ===== src/Fallback/Reader/Runs.antt =====
-- Whole calls of ReadChunk of textToolFallbackHandle (internal/qodertransport/text_tool_fallback.go)
-- and runs of them.
use qoder_cpa.Prelude.{
  ℕ, zero, suc, ◌<◌, true, List, [], ◌∷◌, ◌++◌, Option, none, some, Text, ◌≡◌, refl, ap, ◌∙◌,
  append_assoc, arith, inl, inr, length, All, subst,
}
use qoder_cpa.Stream.{Read}
use qoder_cpa.Chat.{Json, IsLawful}
use qoder_cpa.Fallback.Reading.{content_of}
use qoder_cpa.Fallback.Reader.{
  Handle, Step, emit, again, panic, step, read_chunk, read, new_text_tool_fallback,
}
use qoder_cpa.Fallback.Reader.Keeps.{
  is_emitted, Held, Held-nil, IsTidy, texts, total, Kept, IsOpen, Stuck, Advances,
}
use qoder_cpa.Fallback.Reader.Conserve.{step-Advances}

-- `n` calls of ReadChunk one after the other, and the handle after them.
abbrev pub read_times : Json → ℕ → Handle → Option (List Read × Handle)
read_times json zero h = some ([], h)
read_times json (suc n) h = elim (read json h) [
  | none ↦ none
  | some (r, h') ↦ elim (read_times json n h') [
    | none ↦ none
    | some (rs, last) ↦ some (r ∷ rs, last)
  ]
]

module _ (json : Json) (lawful : IsLawful json) where
  Held-emitted : (h : Handle) → is_emitted h.state ≡ true → Held h.state h.buf
  Held-emitted h over = ground arith

  Kept-Held : (goal said : Text) (h : Handle) → Kept json goal said h → Held h.state h.buf
  Kept-Held goal said h (inl over) = Held-emitted h over
  Kept-Held goal said h (inr (same, held)) = held

  Kept-join :
      (goal said : Text) (h1 h2 : Handle)
      → Kept json goal [] h1
      → Kept json (total json h1) said h2
      → Stuck json h1 h2
      → Kept json goal said h2
  Kept-join goal said h1 h2 (inl over) second (inl fresh) = cc
  Kept-join goal said h1 h2 (inl over) second (inr stays) = inl stays
  Kept-join goal said h1 h2 (inr (same, held)) second stuck =
      subst (λ g. Kept json g said h2) same second

  Kept-append :
      (goal said more : Text) (h1 h2 : Handle)
      → Kept json goal said h1
      → Kept json (total json h1) more h2
      → Stuck json h1 h2
      → Kept json goal (said ++ more) h2
  Kept-append goal said more h1 h2 (inl over) second (inl fresh) = cc
  Kept-append goal said more h1 h2 (inl over) second (inr stays) = inl stays
  Kept-append goal said more h1 h2 (inr first) (inl over) stuck = inl over
  Kept-append goal said more h1 h2 (inr (same, held)) (inr (again_same, held2)) stuck =
      inr (append_assoc said more (total json h2) ∙ ap (◌++◌ said) again_same ∙ same, held2)

  emitted_or : (h : Handle) → Stuck json h h
  emitted_or h = ground arith

  Stuck-join : (h1 h2 h3 : Handle) → Stuck json h1 h2 → Stuck json h2 h3 → Stuck json h1 h3
  Stuck-join h1 h2 h3 (inl fresh) b = inl fresh
  Stuck-join h1 h2 h3 (inr stays) (inl fresh) = cc
  Stuck-join h1 h2 h3 (inr stays) (inr goes_on) = inr goes_on

  -- A call that returned.
  abbrev Answers : Handle → Option (Read × Handle) → Type 0
  Answers h out =
      (r : Read) × (h' : Handle) × (out ≡ some (r, h'))
      × All (IsTidy json) h'.inner
      × Kept json (total json h) (content_of json r) h'
      × Stuck json h h'

  after_step-Answers :
      (fuel : ℕ) (h : Handle) (s : Step)
      → Advances json (length h.inner) h s
      → ((h' : Handle)
          → length h'.inner < length h.inner
          → IsOpen json h'
          → Answers h' (read_chunk json fuel h'))
      → Answers h
          (elim s [ emit r h' ↦ some (r, h') | again h' ↦ read_chunk json fuel h' | panic ↦ none ])
  after_step-Answers fuel h (emit r h') ok rest = (r, h', refl, ok.0, ok.1, ok.2)
  after_step-Answers fuel h (again h1) (shorter, tidy, kept, stuck) rest =
      let (r, h2, out, tidy2, kept2, stuck2) =
        rest h1 shorter (Kept-Held (total json h) [] h1 kept, tidy) in
      (
        r,
        h2,
        out,
        tidy2,
        Kept-join (total json h) (content_of json r) h1 h2 kept kept2 stuck2,
        Stuck-join h h1 h2 stuck stuck2,
      )
  after_step-Answers fuel h panic ok rest = absurd ok

  read_chunk-Answers :
      (fuel : ℕ) (h : Handle)
      → length h.inner < fuel
      → IsOpen json h
      → Answers h (read_chunk json fuel h)
  unfolding read_chunk
  read_chunk-Answers zero h enough good = absurd (omega arith)
  read_chunk-Answers (suc fuel) h enough good =
      after_step-Answers fuel h (step json h) (step-Advances json lawful h good)
        λ h' shorter good'. read_chunk-Answers fuel h' (omega arith) good'

  -- Runs from any handle between two calls.
  abbrev RunAnswers : Handle → Option (List Read × Handle) → Type 0
  RunAnswers h out =
      (rs : List Read) × (last : Handle) × (out ≡ some (rs, last))
      × Kept json (total json h) (texts json rs) last
      × Stuck json h last

  after_read-RunAnswers :
      (n : ℕ) (h : Handle) (out : Option (Read × Handle))
      → Answers h out
      → ((h' : Handle) → IsOpen json h' → RunAnswers h' (read_times json n h'))
      → RunAnswers h (elim out [
        | none ↦ none
        | some (r, h') ↦ elim (read_times json n h') [
          | none ↦ none
          | some (rs, last) ↦ some (r ∷ rs, last)
        ]
      ])
  after_read-RunAnswers n h out (r, h1, answered, tidy, kept, stuck) rest =
      let (rs, last, ran, kept2, stuck2) =
        rest h1 (Kept-Held (total json h) (content_of json r) h1 kept, tidy) in
      (
        r ∷ rs,
        last,
        rw (answered, ran) refl,
        Kept-append (total json h) (content_of json r) (texts json rs) h1 last kept kept2 stuck2,
        Stuck-join h h1 last stuck stuck2,
      )

  read_times-RunAnswers : (n : ℕ) (h : Handle) → IsOpen json h → RunAnswers h (read_times json n h)
  read_times-RunAnswers zero h good = ([], h, refl, inr (refl, good.0), emitted_or h)
  read_times-RunAnswers (suc n) h good =
      after_read-RunAnswers n h (read json h)
        (read_chunk-Answers (suc (length h.inner)) h (omega arith) good) (read_times-RunAnswers n)

  -- Any number of calls of ReadChunk on a new handle return, and unless tool calls were found by
  -- then, what they delivered and what the handle still holds or has still to read is the text of
  -- the stream, in order; what is held back outside the buffering state is a start of `Tool calls:`.
  -- Chunks that end the answer carry no text, and what is encoded is decoded again.
  pub read_times_keeps_text :
      (inner : List Read) (id model : Text) (n : ℕ)
      → All (IsTidy json) inner
      → (rs : List Read) × (last : Handle) × (read_times json n
            (new_text_tool_fallback inner id model)
          ≡ some (rs, last))
        × Kept json (texts json inner) (texts json rs) last
  unfolding new_text_tool_fallback
  read_times_keeps_text inner id model n tidy =
      let (rs, last, ran, kept, stuck) =
        read_times-RunAnswers n (new_text_tool_fallback inner id model) (Held-nil, tidy) in
      (rs, last, ran, kept)
