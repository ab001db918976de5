-- ===== src/Sse/Loop.antt =====
-- The loop of ParseContext (internal/qodertransport/bearer/sse.go and cosy/sse.go): when it returns,
-- and what the parser is left with.
use qoder_cpa.Prelude.{
  ℕ, zero, suc, ◌+◌, ◌<◌, Bool, true, false, List, [], ◌∷◌, Option, none, some, Text, ◌≡◌, refl,
  arith, ◌⊎◌, length, ◌∙◌,
}
use qoder_cpa.Stream.{Fault, eof, other}
use qoder_cpa.Sse.{
  SseEvent, CtxErr, Parser, Got, failed, Iteration, returned, looped, read_string, eof_fallback,
  take_line, after_line, read_line, polled, iterate, parse_loop, resumed, parse_context, trim_crlf,
  is_eof,
}

abbrev pub Returns : Option (Got × Parser) → Type 0
Returns out = (got : Got) × (last : Parser) × (out ≡ some (got, last))

-- A parser with no data of an event, whose connection failed with an error that is not EOF.
abbrev pub broken : Parser → Text → Parser
broken p why = record p {
  lines = [];
  rest = [];
  ending = other why;
  polls = [];
  buffer = [];
  aborted = false;
}

module _ (name : Text) (classify : Text → SseEvent) where
  -- A pass that goes on has used up a line.
  abbrev Shrinks : Parser → Iteration → Type 0
  Shrinks p (returned got p') = Unit
  Shrinks p (looped p') = (p'.ending ≡ p.ending) × (length p'.lines < length p.lines)

  after_line-Shrinks :
      (q : Parser) (trimmed : Text) (err : Option Fault) (p : Parser)
      → p.ending ≡ q.ending
      → (is_eof err ≡ true) ⊎ (length p.lines < length q.lines)
      → Shrinks q (after_line name classify trimmed err p)
  unfolding after_line take_line eof_fallback
  after_line-Shrinks q trimmed err p same shorter = ground arith

  read_line-Shrinks :
      (q p : Parser)
      → p.ending ≡ q.ending
      → p.ending ≡ eof
      → p.lines ≡ q.lines
      → Shrinks q (read_line name classify p)
  unfolding read_line
  read_line-Shrinks q p same ends lines = ground (
    arith,
    after_line-Shrinks q (trim_crlf (read_string p).0.0) (read_string p).0.1 (read_string p).1,
  )

  polled-Shrinks :
      (polls : List (Option CtxErr)) (p : Parser)
      → p.ending ≡ eof
      → Shrinks p (polled name classify polls p)
  unfolding polled
  polled-Shrinks [] p ends = read_line-Shrinks p p refl ends refl
  polled-Shrinks (none ∷ polls) p ends =
      read_line-Shrinks p (record p { polls = polls }) refl ends refl
  polled-Shrinks (some err ∷ polls) p ends = tt

  after_pass-Returns :
      (fuel : ℕ) (p : Parser) (it : Iteration)
      → Shrinks p it
      → ((p' : Parser)
          → p'.ending ≡ p.ending
          → length p'.lines < length p.lines
          → Returns (parse_loop name classify fuel p'))
      → Returns (elim it [
        | returned got p' ↦ some (got, p')
        | looped p' ↦ parse_loop name classify fuel p'
      ])
  after_pass-Returns fuel p (returned got p') shrinks rest = (got, p', refl)
  after_pass-Returns fuel p (looped p') shrinks rest = rest p' shrinks.0 shrinks.1

  parse_loop-Returns :
      (fuel : ℕ) (p : Parser)
      → p.ending ≡ eof
      → length p.lines < fuel
      → Returns (parse_loop name classify fuel p)
  unfolding parse_loop iterate
  parse_loop-Returns zero p ends enough = absurd (omega arith)
  parse_loop-Returns (suc fuel) p ends enough =
      after_pass-Returns fuel p (iterate name classify p) (polled-Shrinks p.polls p ends)
        λ p' same shorter. parse_loop-Returns fuel p' (same ∙ ends) (omega arith)

  resumed-Returns :
      (aborted : Bool) (fuel : ℕ) (p : Parser)
      → p.ending ≡ eof
      → length p.lines < fuel
      → Returns (resumed name classify aborted fuel p)
  unfolding resumed
  resumed-Returns true fuel p ends enough = (failed eof, p, refl)
  resumed-Returns false fuel p ends enough = parse_loop-Returns fuel p ends enough

  -- On a stream that ends by EOF a call of ParseContext returns, within one pass for each line and
  -- one more.
  pub parse_context-Returns :
      (p : Parser) → p.ending ≡ eof → Returns (parse_context name classify (length p.lines + 1) p)
  unfolding parse_context
  parse_context-Returns p ends = resumed-Returns p.aborted (length p.lines + 1) p ends (omega arith)

  parse_loop-broken :
      (p : Parser) (why : Text) (fuel : ℕ) → parse_loop name classify fuel (broken p why) ≡ none
  unfolding parse_loop iterate polled read_line after_line trim_crlf
  parse_loop-broken p why zero = refl
  parse_loop-broken p why (suc fuel) = parse_loop-broken p why fuel

  -- Between two events, on a connection that failed and a context that is not cancelled, ParseContext
  -- runs on without end: no number of passes makes it return.
  pub parse_context_never_returns :
      (p : Parser) (why : Text) (fuel : ℕ) → parse_context name classify fuel (broken p why) ≡ none
  unfolding parse_context resumed
  parse_context_never_returns p why fuel = parse_loop-broken p why fuel
