-- ===== src/Sse/Bounds.antt =====
-- What the parser of internal/qodertransport/bearer/sse.go and cosy/sse.go holds at most, and which
-- streams it ends by EOF.
use qoder_cpa.Prelude.{
  refl, inl, inr, Bool-cases, Option-cases, text_eq, ◌==◌, if◌then◌else◌, ℕ, zero, suc, ◌≤◌, true,
  false, List, [], ◌∷◌, Option, none, some, Text, ◌≡◌, sym, arith, ◌⊎◌, length, subst, ap, ◌∙◌,
}
use qoder_cpa.Stream.{Fault}
use qoder_cpa.Sse.{
  dispatched, is_eof, SseEvent, CtxErr, ctx_canceled, ctx_deadline, Parser, Got, parsed, failed,
  Iteration, returned, looped, max_event_bytes, read_string, eof_fallback, dispatch, take_line,
  after_line, read_line, polled, iterate, parse_loop, resumed, parse_context, trim_crlf, classified,
}

-- The data of an unfinished event is within its bound, unless the parser has given up.
abbrev pub Fits : Parser → Type 0
Fits p = (p.aborted ≡ true) ⊎ (length p.buffer ≤ max_event_bytes)

-- EOF is only answered after the end of the answer was seen.
abbrev pub EofSeen : Got → Parser → Type 0
EofSeen (parsed ev) p = Unit
EofSeen (failed Fault.eof) p = p.seen_terminal ≡ true
EofSeen (failed _) p = Unit

module _ (name : Text) (classify : Text → SseEvent) where
  abbrev Good : Iteration → Type 0
  Good (returned got p) = EofSeen got p × Fits p
  Good (looped p) = Fits p

  classified-buffer :
      (ev : SseEvent) (p : Parser) → (classified name classify ev p).1.buffer ≡ p.buffer
  unfolding classified
  classified-buffer ev p = ground arith

  dispatch-buffer : (p : Parser) → (dispatch name classify p).1.buffer ≡ []
  unfolding dispatch
  dispatch-buffer p =
      ground (arith, λ (ev : SseEvent). classified-buffer ev (record p { buffer = []; event = [] }))

  eof_fallback-Good : (p : Parser) → Good (eof_fallback name classify p)
  unfolding eof_fallback
  eof_fallback-Good p = elim (Bool-cases p.seen_terminal) [
    | inl seen ↦ ground arith
    | inr unseen ↦ ground arith
  ]

  dispatched-Good : (p : Parser) → Good (dispatched name classify p)
  dispatched-Good p = (tt, inr (ground (arith, dispatch-buffer p)))

  take_line-Fits :
      (trimmed : Text) (p q : Parser) → Fits p → take_line name classify trimmed p ≡ some q → Fits q
  unfolding take_line
  take_line-Fits trimmed p q fits taken = ground arith

  end-Good :
      (err : Option Fault) (p : Parser)
      → Fits p
      → Good (
          if is_eof err
          then if p.buffer == [] then eof_fallback name classify p else dispatched name classify p
          else looped p)
  end-Good err p fits = elim (Bool-cases (is_eof err)) [
    | inr more ↦ rw more fits
    | inl ended ↦ elim (Bool-cases (p.buffer == [])) [
      | inl nothing ↦ rw (ended, nothing) (eof_fallback-Good p)
      | inr something ↦ rw (ended, something) (dispatched-Good p)
    ]
  ]

  after_line-Good :
      (trimmed : Text) (err : Option Fault) (p : Parser)
      → Fits p
      → Good (after_line name classify trimmed err p)
  unfolding after_line
  after_line-Good trimmed err p fits = elim (Bool-cases (trimmed == [])) [
    | inl blank ↦ elim (Bool-cases (p.buffer == [])) [
      | inl nothing ↦ elim (Bool-cases (is_eof err)) [
        | inl ended ↦ rw (after_line, blank, nothing, ended) (eof_fallback-Good p)
        | inr more ↦ rw (after_line, blank, nothing, more) fits
      ]
      | inr something ↦ rw (after_line, blank, something) (dispatched-Good p)
    ]
    | inr filled ↦ elim (Option-cases (take_line name classify trimmed p)) [
      | inl big ↦ rw (after_line, filled, big) (tt, inl refl)
      | inr (q, taken) ↦
          rw (after_line, filled, taken) (end-Good err q (take_line-Fits trimmed p q fits taken))
    ]
  ]

  read_line-Good : (p : Parser) → Fits p → Good (read_line name classify p)
  unfolding read_line
  read_line-Good p fits =
      ground (
        arith,
        after_line-Good (trim_crlf (read_string p).0.0) (read_string p).0.1 (read_string p).1,
      )

  polled-Good :
      (polls : List (Option CtxErr)) (p : Parser) → Fits p → Good (polled name classify polls p)
  unfolding polled
  polled-Good [] p fits = read_line-Good p fits
  polled-Good (none ∷ polls) p fits = read_line-Good (record p { polls = polls }) fits
  polled-Good (some ctx_canceled ∷ polls) p fits = (tt, fits)
  polled-Good (some ctx_deadline ∷ polls) p fits = (tt, fits)

  -- What a call that returned gives.
  abbrev GoodOut : Option (Got × Parser) → Type 0
  GoodOut none = Unit
  GoodOut (some (got, p)) = EofSeen got p × Fits p

  after_pass-GoodOut :
      (fuel : ℕ) (it : Iteration)
      → Good it
      → ((p : Parser) → Fits p → GoodOut (parse_loop name classify fuel p))
      → GoodOut
          (elim it [ returned got p ↦ some (got, p) | looped p ↦ parse_loop name classify fuel p ])
  after_pass-GoodOut fuel (returned got p) good rest = good
  after_pass-GoodOut fuel (looped p) good rest = rest p good

  parse_loop-GoodOut : (fuel : ℕ) (p : Parser) → Fits p → GoodOut (parse_loop name classify fuel p)
  unfolding parse_loop iterate
  parse_loop-GoodOut zero p fits = tt
  parse_loop-GoodOut (suc fuel) p fits =
      after_pass-GoodOut fuel (iterate name classify p) (polled-Good p.polls p fits)
        (parse_loop-GoodOut fuel)

  resumed-GoodOut : (fuel : ℕ) (p : Parser) → Fits p → GoodOut (resumed name classify false fuel p)
  unfolding resumed
  resumed-GoodOut fuel p fits = parse_loop-GoodOut fuel p fits

  -- A call of ParseContext that returns on a parser that has not given up leaves the data of an
  -- unfinished event within 1 MiB or has given up, and answers EOF only if the end of the answer was
  -- seen; the data was within the bound before.
  pub parse_context_bounded :
      (fuel : ℕ) (p : Parser) (got : Got) (last : Parser)
      → p.aborted ≡ false
      → Fits p
      → parse_context name classify fuel p ≡ some (got, last)
      → EofSeen got last × Fits last
  unfolding parse_context
  parse_context_bounded fuel p got last fresh fits ran =
      subst GoodOut (ap (λ b. resumed name classify b fuel p) (sym fresh) ∙ ran)
        (resumed-GoodOut fuel p fits)
