-- ===== src/Dial/Frees.antt =====
-- What a transport leaves behind where it opens no stream, and how its failures reach the host.
use qoder_cpa.Prelude.{
  true, List, [], ◌∷◌, Text, text_eq, ◌==◌, codes, pos, int_eq, ◌≡◌, refl, arith, inl, inr,
  Bool-cases, eq→path,
}
use qoder_cpa.Stream.{StreamBusinessError}
use qoder_cpa.Failure.{canceled, GoError, classify_executor_error}
use qoder_cpa.Dial.{
  Exchange, broke, answered, Effect, ended, body_read, body_closed, Context, alive, Dialed, opened,
  refused, Dialect, Readers, on_exchange, read_and_close, is_text_event_stream,
}

-- A stream that is open keeps its context and its body, and is an event stream with status 200. A
-- refusal has ended its context, and has closed the body if there was a response.
abbrev pub IsFreed : Exchange → Dialed → List Effect → Type 0
IsFreed (broke text) (opened r) es = ⊥
IsFreed (broke text) (refused e) es = es ≡ ended ∷ []
IsFreed (answered r) (opened s) es =
    (es ≡ []) × (r ≡ s) × (r.status_code ≡ pos 200) × (is_text_event_stream r.content_type ≡ true)
IsFreed (answered r) (refused e) es = es ≡ ended ∷ body_read ∷ body_closed ∷ []

module _ (d : Dialect) (readers : Readers) (ctx : Context) where
  -- Whatever the HTTP client gives, nothing is left open but the stream that is returned.
  pub on_exchange-IsFreed :
      (x : Exchange) → IsFreed x (on_exchange d readers ctx x).0 (on_exchange d readers ctx x).1
  unfolding on_exchange read_and_close
  on_exchange-IsFreed (broke text) = refl
  on_exchange-IsFreed (answered r) = elim (Bool-cases (r.status_code == pos 200)) [
    | inr bad ↦ rw bad refl
    | inl fine ↦ elim (Bool-cases (is_text_event_stream r.content_type)) [
      | inr other ↦ rw (fine, other) refl
      | inl events ↦ rw (fine, events) (refl, refl, eq→path r.status_code (pos 200) fine, events)
    ]
  ]

-- A request that the network breaks while nobody has cancelled it is told to the host as one that the
-- client cancelled, with status 499, and what broke it is lost.
pub on_exchange_broken :
    (d : Dialect) (readers : Readers) (text : Text) (business_text : StreamBusinessError → Text)
    (e : GoError)
    → (on_exchange d readers alive (broke text)).0 ≡ refused e
    → classify_executor_error business_text e ≡ record {
      code = codes "client_canceled";
      message = codes "request canceled";
      status = pos 499;
    }
unfolding on_exchange classify_executor_error
on_exchange_broken d readers text business_text e h =
    let same : record { text = codes "context canceled"; chain = canceled ∷ [] } ≡ e =
      ground arith in
    rw (← same) refl
