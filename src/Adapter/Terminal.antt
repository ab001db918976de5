-- ===== src/Adapter/Terminal.antt =====
-- How a cosyHandle or a bearerHandle (internal/qodertransport/adapters.go) ends an answer, and the
-- text that it passes on.
use qoder_cpa.Prelude.{
  ℕ, zero, suc, true, false, List, [], ◌∷◌, ◌++◌, Option, none, some, Text, ◌≡◌, refl, ap, ◌∙◌,
  append_assoc, arith, codes, trim_space,
}
use qoder_cpa.Stream.{Fault, Read, chunk, fail}
use qoder_cpa.Chat.{Chunk, Usage, Json, IsLawful, done_sse, marshal_sse, no_delta}
use qoder_cpa.Sse.{unknown, text_delta, SseTool, StreamError, SseEvent, Got, parsed, failed}
use qoder_cpa.Sse.Wire.Complete.{IsComplete}
use qoder_cpa.Fallback.{parse_fallback_sse}
use qoder_cpa.Fallback.Reading.{content_of, marshal_sse-back, first_content}
use qoder_cpa.Adapter.{
  HandleState, Handle, Out, skip, emit, raise, event_chunk, delta_chunk, usage_chunk, finish_chunk,
  read_events, next_terminal, read_chunk, out_of, spoken, called, counted, refused, one_choice,
  tool_delta_of,
}

abbrev pub repeat {ℓ} : {A : Type ℓ} → ℕ → A → List A
repeat zero a = []
repeat (suc n) a = a ∷ repeat n a

module _ (json : Json) (counts : Usage → Usage) where
  -- The answers of `n` calls of ReadChunk one after the other, and the handle after them.
  abbrev pub read_times : ℕ → Handle → List Read × Handle
  read_times zero h = ([], h)
  read_times (suc n) h =
      let out = read_chunk json counts h in
      let rest = read_times n out.1 in (out.0 ∷ rest.0, rest.1)

  closed_reads :
      (n : ℕ) (events : List Got) (s : HandleState)
      → (read_times n
          (record { events = events; state = record s { terminal_sent = true; done = true } })).0
        ≡ repeat n (fail Fault.eof)
  unfolding read_chunk next_terminal
  closed_reads zero events s = refl
  closed_reads (suc n) events s = rw (closed_reads n events s) refl

  -- After the chunk that ends the answer, whatever the parser has left, ReadChunk gives the end mark
  -- once and then EOF for good.
  pub read_times_after_terminal :
      (n : ℕ) (events : List Got) (s : HandleState)
      → (read_times
          (suc n)
          (record { events = events; state = record s { terminal_sent = true; done = false } })).0
        ≡ chunk done_sse ∷ repeat n (fail Fault.eof)
  unfolding read_chunk next_terminal
  read_times_after_terminal n events s = rw (closed_reads n events s) refl

  -- A complete event is passed over only if its kind is unknown.
  pub event_chunk_skips :
      (s : HandleState) (ev : SseEvent)
      → IsComplete ev
      → (event_chunk json counts s ev).0 ≡ skip
      → ev.kind ≡ unknown
  unfolding event_chunk delta_chunk usage_chunk finish_chunk
  event_chunk_skips s ev complete passed = ground arith

-- The text of the answer that an event carries.
abbrev option_text : Option Text → Text
option_text none = []
option_text (some t) = t

abbrev pub event_text : SseEvent → Text
event_text ev = elim ev.kind [ text_delta ↦ option_text ev.text | _ ↦ [] ]

abbrev pub got_texts : List Got → Text
got_texts [] = []
got_texts (parsed ev ∷ gs) = event_text ev ++ got_texts gs
got_texts (failed err ∷ gs) = got_texts gs

abbrev pub read_texts : Json → List Read → Text
read_texts json [] = []
read_texts json (r ∷ rs) = content_of json r ++ read_texts json rs

module _ (json : Json) (lawful : IsLawful json) (counts : Usage → Usage) where
  abbrev out_text : Out → Text
  out_text skip = []
  out_text (emit raw) = content_of json (chunk raw)
  out_text (raise err) = []

  out_of-text : (c : Chunk) → out_text (out_of (marshal_sse json c)) ≡ first_content c.choices
  unfolding content_of
  out_of-text c =
      let (raw, payload, written, read_as, back) = marshal_sse-back json lawful c in
      rw (written, content_of, read_as, back) refl

  spoken-text :
      (o : Option Text) (s : HandleState)
      → out_text
          (spoken json o (λ t. delta_chunk json s.id s.model (record no_delta { content = t })))
        ≡ option_text o
  unfolding delta_chunk
  spoken-text none s = refl
  spoken-text (some t) s = out_of-text _

  silent-text :
      (o : Option Text) (s : HandleState)
      → out_text
          (spoken json o (λ t. delta_chunk json s.id s.model (record no_delta { reasoning = t })))
        ≡ []
  unfolding delta_chunk
  silent-text none s = refl
  silent-text (some t) s = out_of-text _

  called-text :
      (o : Option SseTool) (s : HandleState)
      → out_text (called json o (λ t. delta_chunk json s.id s.model (tool_delta_of t))) ≡ []
  unfolding delta_chunk
  called-text none s = refl
  called-text (some t) s = out_of-text _

  counted-text :
      (o : Option Usage) (s : HandleState)
      → out_text (counted json o (λ u. usage_chunk json s.id s.model (counts u))) ≡ []
  unfolding usage_chunk
  counted-text none s = refl
  counted-text (some u) s = out_of-text _

  refused-text : (o : Option StreamError) → out_text (refused json o) ≡ []
  refused-text none = refl
  refused-text (some err) = refl

  event_chunk-text :
      (s : HandleState) (ev : SseEvent) → out_text (event_chunk json counts s ev).0 ≡ event_text ev
  unfolding event_chunk finish_chunk
  event_chunk-text s ev = ground (
    arith,
    spoken-text ev.text s,
    silent-text ev.reasoning s,
    called-text ev.tool s,
    counted-text ev.usage s,
    refused-text ev.stream_error,
    out_of-text (one_choice s.id s.model no_delta (some (codes "stop"))),
  )

  -- An answer with the events after it.
  abbrev Passes : Text → Read × Handle → Type 0
  Passes goal out = content_of json out.0 ++ got_texts out.1.events ≡ goal

  after_event-Passes :
      (o : Out) (s : HandleState) (t : Text) (gs : List Got) (rest : Read × Handle)
      → out_text o ≡ t
      → Passes (got_texts gs) rest
      → Passes (t ++ got_texts gs) (elim o [
        | skip ↦ rest
        | emit raw ↦ (chunk raw, record { events = gs; state = s })
        | raise err ↦ (fail err, record { events = gs; state = s })
      ])
  unfolding content_of
  after_event-Passes skip s t gs rest said passes = passes ∙ ap (λ u. u ++ got_texts gs) said
  after_event-Passes (emit raw) s t gs rest said passes = ap (λ u. u ++ got_texts gs) said
  after_event-Passes (raise err) s t gs rest said passes = ap (λ u. u ++ got_texts gs) said

  read_events-Passes :
      (s : HandleState) (gs : List Got) → Passes (got_texts gs) (read_events json counts s gs)
  unfolding read_events content_of
  read_events-Passes s [] = refl
  read_events-Passes s (failed err ∷ gs) = refl
  read_events-Passes s (parsed ev ∷ gs) =
      let out = event_chunk json counts s ev in
      after_event-Passes out.0 out.1 (event_text ev) gs (read_events json counts out.1 gs)
        (event_chunk-text s ev) (read_events-Passes out.1 gs)

  done_sse-text : content_of json (chunk done_sse) ≡ []
  unfolding content_of done_sse parse_fallback_sse trim_space
  done_sse-text = refl

  read_chunk-Passes : (h : Handle) → Passes (got_texts h.events) (read_chunk json counts h)
  unfolding read_chunk next_terminal content_of
  read_chunk-Passes h = ground (arith, done_sse-text, read_events-Passes h.state h.events)

  -- What any number of calls of ReadChunk gives and what the parser has still to give together carry
  -- the text of the events, in order and whole; what is encoded is decoded again.
  pub read_times_text :
      (n : ℕ) (h : Handle)
      → read_texts json (read_times json counts n h).0
          ++ got_texts (read_times json counts n h).1.events
        ≡ got_texts h.events
  read_times_text zero h = refl
  read_times_text (suc n) h =
      let out = read_chunk json counts h in
      append_assoc (content_of json out.0) (read_texts json (read_times json counts n out.1).0)
        (got_texts (read_times json counts n out.1).1.events)
      ∙ ap (◌++◌ (content_of json out.0)) (read_times_text n out.1)
      ∙ read_chunk-Passes h
