-- ===== src/Fallback/Reader/Conserve.antt =====
-- What ReadChunk of textToolFallbackHandle (internal/qodertransport/text_tool_fallback.go) keeps of
-- the text that it reads, over whole runs.
use qoder_cpa.Prelude.{
  ℕ, ◌<◌, Bool, true, false, List, [], ◌∷◌, ◌++◌, Option, none, some, Text, ◌≡◌, refl, sym, ap, ◌∙◌,
  append_assoc, append-nil, arith, Option-cases, inl, inr, length, ◌⊎◌, All, subst,
}
use qoder_cpa.Stream.{Fault, Read, chunk, fail}
use qoder_cpa.Chat.{Chunk, Choice, Json, IsLawful}
use qoder_cpa.Fallback.{parse_fallback_sse}
use qoder_cpa.Fallback.Reading.{first_content, chunk_content, content_of, contents}
use qoder_cpa.Fallback.Reader.{
  emitted, Handle, Step, emit, again, panic, on_fault, on_done, on_choice, on_native_calls,
  on_finish, on_text, pass_finish, on_choices, on_payload, on_read, from_inner, from_saved,
  from_done, from_pending, step,
}
use qoder_cpa.Fallback.Reader.Keeps.{
  is_emitted, EndsEmpty, TidyChunk, Held, IsTidy, texts, total, Kept, IsOpen, Advances, Keeps,
  on_fault-Keeps, on_done-Keeps,
}
use qoder_cpa.Fallback.Reader.Choices.{pass-Keeps, on_choice-Keeps}

module _ (json : Json) (lawful : IsLawful json) where
  on_choices-Keeps :
      (h : Handle) (raw : Text) (cs : List Choice)
      → h.pending ≡ []
      → Held h.state h.buf
      → content_of json (chunk raw) ≡ first_content cs
      → EndsEmpty cs
      → Keeps json h.inner
          (h.buf ++ first_content cs ++ texts json h.inner)
          (on_choices json h raw cs)
  unfolding on_choices
  on_choices-Keeps h raw [] p held said ends = pass-Keeps json lawful h raw [] p held said refl
  on_choices-Keeps h raw (c ∷ cs) p held said ends =
      on_choice-Keeps json lawful h raw c cs p held said ends

  on_payload-Keeps :
      (h : Handle) (raw : Text) (o : Option Chunk)
      → h.pending ≡ []
      → Held h.state h.buf
      → content_of json (chunk raw) ≡ chunk_content o
      → TidyChunk o
      → Keeps json h.inner
          (h.buf ++ chunk_content o ++ texts json h.inner)
          (on_payload json h raw o)
  unfolding on_payload
  on_payload-Keeps h raw none p held said ends = pass-Keeps json lawful h raw [] p held said refl
  on_payload-Keeps h raw (some cc) p held said ends =
      on_choices-Keeps h raw cc.choices p held said ends

  on_read-Keeps :
      (r : Read) (h : Handle)
      → h.pending ≡ []
      → Held h.state h.buf
      → IsTidy json r
      → Keeps json h.inner (h.buf ++ content_of json r ++ texts json h.inner) (on_read json r h)
  unfolding on_read content_of
  on_read-Keeps (fail err) h p held tidy =
      rw (append-nil h.buf) (on_fault-Keeps json lawful h err p held)
  on_read-Keeps (chunk raw) h p held tidy = elim (Option-cases (parse_fallback_sse raw)) [
    | inl end ↦
        rw (on_read, content_of, end, append-nil h.buf)
          (on_done-Keeps json lawful h raw p held (rw (content_of, end) refl))
    | inr (payload, open_end) ↦
        rw (on_read, content_of, open_end)
          (on_payload-Keeps h raw (json.unmarshal payload) p held (rw (content_of, open_end) refl) (
            subst
              (λ (o : Option Text). elim o [ none ↦ Unit | some x ↦ TidyChunk (json.unmarshal x) ])
              open_end tidy))
  ]

  -- Once tool calls were found no text is delivered any more.
  abbrev Stays : Step → Type 0
  Stays (emit r h) = is_emitted h.state ≡ true
  Stays (again h) = is_emitted h.state ≡ true
  Stays panic = Unit

  on_read-Stays : (r : Read) (h : Handle) → h.state ≡ emitted → Stays (on_read json r h)
  unfolding on_read on_fault on_done on_payload on_choices on_choice on_native_calls on_finish
      on_text pass_finish
  on_read-Stays r h st = ground arith

  to-Advances :
      (h : Handle) (rest : List Read) (n : ℕ) (goal : Text) (s : Step)
      → goal ≡ total json h
      → length rest < n
      → All (IsTidy json) rest
      → Keeps json rest goal s
      → (is_emitted h.state ≡ false) ⊎ Stays s
      → Advances json n h s
  to-Advances h rest n goal (emit r h') same shorter tidy kept stays = (
    subst (All (IsTidy json)) (sym kept.0) tidy,
    subst (λ g. Kept json g (content_of json r) h') same kept.1,
    stays,
  )
  to-Advances h rest n goal (again h') same shorter tidy kept stays = (
    subst (λ rs. length rs < n) (sym kept.0) shorter,
    subst (All (IsTidy json)) (sym kept.0) tidy,
    subst (λ g. Kept json g [] h') same kept.2,
    stays,
  )
  to-Advances h rest n goal panic same shorter tidy kept stays = kept

  emitted-cases : (h : Handle) → (is_emitted h.state ≡ false) ⊎ (h.state ≡ emitted)
  emitted-cases h = ground arith

  emitted_or : (h : Handle) → (is_emitted h.state ≡ false) ⊎ (is_emitted h.state ≡ true)
  emitted_or h = ground arith

  read-Stays : (r : Read) (h : Handle) → (is_emitted h.state ≡ false) ⊎ Stays (on_read json r h)
  read-Stays r h = elim (emitted-cases h) [
    | inl fresh ↦ inl fresh
    | inr over ↦ inr (on_read-Stays r h over)
  ]

  abbrev ends_call : Step → Bool
  ends_call (emit r h) = true
  ends_call (again h) = false
  ends_call panic = false

  -- An error ends the call.
  ends_call-on_fault : (h : Handle) (err : Fault) → ends_call (on_fault json h err) ≡ true
  unfolding on_fault
  ends_call-on_fault h err = ground arith

  end-Advances :
      (h : Handle) (n : ℕ) (goal : Text) (s : Step)
      → goal ≡ total json h
      → ends_call s ≡ true
      → All (IsTidy json) h.inner
      → Keeps json h.inner goal s
      → (is_emitted h.state ≡ false) ⊎ Stays s
      → Advances json n h s
  end-Advances h n goal (emit r h') same ends tidy kept stays = (
    subst (All (IsTidy json)) (sym kept.0) tidy,
    subst (λ g. Kept json g (content_of json r) h') same kept.1,
    stays,
  )
  end-Advances h n goal (again h') same ends tidy kept stays = cc
  end-Advances h n goal panic same ends tidy kept stays = cc

  from_inner-Advances :
      (rs : List Read) (h : Handle)
      → h.inner ≡ rs
      → h.pending ≡ []
      → IsOpen json h
      → Advances json (length h.inner) h (from_inner json rs h)
  unfolding from_inner on_read
  from_inner-Advances [] h same p good =
      end-Advances h (length h.inner) (h.buf ++ texts json h.inner) (on_fault json h Fault.eof)
        (rw p refl) (ends_call-on_fault h Fault.eof) good.1
        (on_fault-Keeps json lawful h Fault.eof p good.0) (read-Stays (fail Fault.eof) h)
  from_inner-Advances (r ∷ rs) h same p good =
      let tidy = subst (All (IsTidy json)) same good.1 in
      to-Advances h rs (length h.inner) (h.buf ++ content_of json r ++ texts json rs)
        (on_read json r (record h { inner = rs }))
        (rw (p, same) (append_assoc h.buf (content_of json r) (texts json rs)))
        (subst (λ l. length rs < length l) (sym same) (omega arith)) tidy.1
        (on_read-Keeps r (record h { inner = rs }) p good.0 tidy.0)
        (read-Stays r (record h { inner = rs }))

  from_done-Advances :
      (over : Bool) (h : Handle)
      → h.pending ≡ []
      → IsOpen json h
      → Advances json (length h.inner) h (from_done json over h)
  unfolding from_done content_of
  from_done-Advances true h p good = (good.1, inr (refl, good.0), emitted_or h)
  from_done-Advances false h p good = from_inner-Advances h.inner h refl p good

  from_saved-Advances :
      (saved : Option Fault) (h : Handle)
      → h.pending ≡ []
      → IsOpen json h
      → Advances json (length h.inner) h (from_saved json saved h)
  unfolding from_saved content_of
  from_saved-Advances (some err) h p good = (good.1, inr (refl, good.0), emitted_or h)
  from_saved-Advances none h p good = from_done-Advances h.done h p good

  regroup : (x y b t : Text) → x ++ (y ++ b ++ t) ≡ x ++ y ++ b ++ t
  regroup x y b t =
      sym (append_assoc x (y ++ b) t) ∙ ap (λ (z : Text). z ++ t) (sym (append_assoc x y b))

  from_pending-Advances :
      (waiting : List Text) (h : Handle)
      → h.pending ≡ waiting
      → IsOpen json h
      → Advances json (length h.inner) h (from_pending json waiting h)
  unfolding from_pending
  from_pending-Advances [] h same good = from_saved-Advances h.saved_err h same good
  from_pending-Advances (c ∷ cs) h same good = (
    good.1,
    inr (
      regroup (content_of json (chunk c)) (contents json cs) h.buf (texts json h.inner)
          ∙ ap (λ w. contents json w ++ h.buf ++ texts json h.inner) (sym same),
      good.0,
    ),
    emitted_or h,
  )

  pub step-Advances : (h : Handle) → IsOpen json h → Advances json (length h.inner) h (step json h)
  unfolding step
  step-Advances h good = from_pending-Advances h.pending h refl good
