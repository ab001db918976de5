-- ===== src/Fallback/Reader/Choices.antt =====
-- What a text delta and a chunk do to the text that textToolFallbackHandle of
-- internal/qodertransport/text_tool_fallback.go holds.
use qoder_cpa.Prelude.{
  List, [], ◌∷◌, ◌++◌, Option, none, some, Text, text_eq, ◌≡◌, refl, ◌∙◌, append-nil, ◌≢◌,
  Bool-cases, Option-cases, inl, inr, length, List-cases, eq→path, neq→not_path, subst, ◌==◌, ltb,
}
use qoder_cpa.Stream.{chunk}
use qoder_cpa.Chat.{Choice, Json, IsLawful}
use qoder_cpa.Fallback.{
  max_tool_fallback_buf, buffer_matches_prefix, is_tool_calls_prefix, try_parse_tool_calls,
}
use qoder_cpa.Fallback.Reading.{
  content_of, build_text_chunks-content, build_tool_call_chunks-cons, try_parse_tool_calls-cons,
}
use qoder_cpa.Fallback.Reader.{
  FbState, idle, buffering, emitted, Handle, emit, on_finish, idle_rest, on_idle, on_buffering,
  on_text, on_choice,
}
use qoder_cpa.Fallback.Reader.Keeps.{
  Held, Held-nil, EndsEmpty, texts, Keeps, on_finish-Keeps, on_native_calls-Keeps, flush-Keeps,
  calls-Keeps,
}

module _ (json : Json) (lawful : IsLawful json) where
  idle_rest-Keeps :
      (h : Handle)
      → h.pending ≡ []
      → h.state ≡ idle
      → h.buf ≢ []
      → Keeps json h.inner (h.buf ++ texts json h.inner) (idle_rest json h)
  unfolding idle_rest
  idle_rest-Keeps h p st full = elim (Bool-cases (buffer_matches_prefix h.buf)) [
    | inl marked ↦ rw (idle_rest, marked) (refl, p, inr (rw p refl, _))
    | inr plain ↦ elim (Bool-cases (is_tool_calls_prefix h.buf)) [
      | inl starts ↦ rw (idle_rest, plain, starts) (refl, p, inr (rw p refl, rw st starts))
      | inr other ↦
          let (out, built, said) = build_text_chunks-content json lawful h.id h.model h.buf full in
          rw (idle_rest, plain, other, built) (refl, inr (rw (p, said), rw st Held-nil))
    ]
  ]

  on_idle-Keeps :
      (h : Handle)
      → h.pending ≡ []
      → h.state ≡ idle
      → h.buf ≢ []
      → Keeps json h.inner (h.buf ++ texts json h.inner) (on_idle json h)
  unfolding on_idle
  on_idle-Keeps h p st full = elim (Option-cases (try_parse_tool_calls json h.buf)) [
    | inl none_yet ↦ rw (on_idle, none_yet) (idle_rest-Keeps h p st full)
    | inr (calls, found) ↦
        let (call, others, split) = try_parse_tool_calls-cons json lawful h.buf calls found in
        let (out, built) = build_tool_call_chunks-cons json lawful h.id h.model 0 call others in
        rw (on_idle, found, split, built) (refl, inl refl)
  ]

  on_buffering-Keeps :
      (h : Handle)
      → h.pending ≡ []
      → h.state ≡ buffering
      → h.buf ≢ []
      → Keeps json h.inner (h.buf ++ texts json h.inner) (on_buffering json h)
  unfolding on_buffering
  on_buffering-Keeps h p st full = elim (Bool-cases (ltb max_tool_fallback_buf (length h.buf))) [
    | inl big ↦ rw (on_buffering, big) (flush-Keeps json lawful h full)
    | inr fits ↦ elim (Option-cases (try_parse_tool_calls json h.buf)) [
      | inr (calls, found) ↦
          rw (on_buffering, fits, found)
            (calls-Keeps json lawful h calls (h.buf ++ texts json h.inner) found)
      | inl none_yet ↦ elim (Bool-cases (buffer_matches_prefix h.buf)) [
        | inl marked ↦ rw (on_buffering, fits, none_yet, marked) (refl, p, inr (rw p, rw st _))
        | inr plain ↦ rw (on_buffering, fits, none_yet, plain) (flush-Keeps json lawful h full)
      ]
    ]
  ]

  ends_empty :
      (c : Choice) (cs : List Choice) (reason : Text)
      → c.finish_reason ≡ some reason
      → EndsEmpty (c ∷ cs)
      → c.delta.content ≡ []
  ends_empty c cs reason over ends =
      subst (λ (o : Option Text). elim o [ none ↦ Unit | some r ↦ c.delta.content ≡ [] ]) over ends

  append-full : (b t : Text) → t ≢ [] → (b ++ t) ≢ []
  append-full [] t full e = full e
  append-full (x ∷ b) t full e = cc

  on_text-Keeps :
      (st : FbState) (h : Handle) (t : Text)
      → h.state ≡ st
      → h.pending ≡ []
      → t ≢ []
      → Keeps json h.inner (h.buf ++ t ++ texts json h.inner) (on_text json st h t)
  unfolding on_text
  on_text-Keeps emitted h t st p full = (refl, p, inl (rw st refl))
  on_text-Keeps buffering h t st p full =
      on_buffering-Keeps (record h { buf = h.buf ++ t }) p st (append-full h.buf t full)
  on_text-Keeps idle h t st p full =
      on_idle-Keeps (record h { buf = h.buf ++ t }) p st (append-full h.buf t full)

  -- A chunk without text is passed on.
  pub pass-Keeps :
      (h : Handle) (raw : Text) (t : Text)
      → h.pending ≡ []
      → Held h.state h.buf
      → content_of json (chunk raw) ≡ t
      → t ≡ []
      → Keeps json h.inner (h.buf ++ t ++ texts json h.inner) (emit (chunk raw) h)
  pass-Keeps h raw t p held said silent =
      (refl, inr (rw (said, silent, p, append-nil h.buf) refl, held))

  ending-Keeps :
      (h : Handle) (raw t : Text)
      → h.pending ≡ []
      → Held h.state h.buf
      → content_of json (chunk raw) ≡ t
      → t ≡ []
      → Keeps json h.inner (h.buf ++ t ++ texts json h.inner) (on_finish json h raw)
  ending-Keeps h raw t p held said silent =
      rw (silent, append-nil h.buf) (on_finish-Keeps json lawful h raw p held (said ∙ silent))

  pub on_choice-Keeps :
      (h : Handle) (raw : Text) (c : Choice) (cs : List Choice)
      → h.pending ≡ []
      → Held h.state h.buf
      → content_of json (chunk raw) ≡ c.delta.content
      → EndsEmpty (c ∷ cs)
      → Keeps json h.inner (h.buf ++ c.delta.content ++ texts json h.inner) (on_choice json h raw c)
  unfolding on_choice
  on_choice-Keeps h raw c cs p held said ends = elim (List-cases c.delta.tool_calls) [
    | inr (t, ts, native) ↦
        rw (on_choice, native)
          (on_native_calls-Keeps json lawful h.state h raw
            (h.buf ++ c.delta.content ++ texts json h.inner))
    | inl none_native ↦ elim (Option-cases c.finish_reason) [
      | inr (reason, over) ↦
          rw (on_choice, none_native, over)
            (ending-Keeps h raw c.delta.content p held said (ends_empty c cs reason over ends))
      | inl more ↦ elim (Bool-cases (c.delta.content == [])) [
        | inl silent ↦
            rw (on_choice, none_native, more, silent)
              (pass-Keeps h raw c.delta.content p held said (eq→path c.delta.content [] silent))
        | inr speaks ↦
            rw (on_choice, none_native, more, speaks)
              (on_text-Keeps h.state h c.delta.content refl p
                (neq→not_path c.delta.content [] speaks))
      ]
    ]
  ]
