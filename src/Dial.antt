-- ===== src/Dial.antt =====
-- The requests of the transports, internal/qodertransport/bearer/transport.go and
-- internal/qodertransport/cosy/transport.go, which have the same text from the request on. What a
-- transport does to its context and to the body of the response is a list of effects. net/http and
-- the body of the request are parameters.
pub mod Frees
pub mod Loopback
pub mod Bearer
use qoder_cpa.Prelude.{
  ℕ, zero, suc, ◌+◌, Bool, true, false, not, ◌&&◌, ◌||◌, List, [], ◌∷◌, ◌++◌, Option, none, some,
  Text, text_eq, ◌==◌, nat_beq, leb, ltb, codes, if◌then◌else◌, length, take, drop, has_prefix,
  trim_space, ℤ, pos, int_eq, leb_ℤ, insert,
}
use qoder_cpa.Classify.{to_lower}
use qoder_cpa.Failure.{
  HttpError, Layer, bearer_http, cosy_http, canceled, deadline_exceeded, plain, GoError,
  http_error_text,
}

-- classifyHTTPStatus.
unfoldable pub classify_http_status : ℤ → Text
classify_http_status code =
    if code == pos 401
    then codes "auth_failure"
    else if code == pos 403
    then codes "forbidden"
    else if code == pos 429
    then codes "rate_limited"
    else if leb_ℤ (pos 500) code
    then codes "upstream_error"
    else codes "unknown"

abbrev pub blank_end : Text → Bool
blank_end [] = true
blank_end (c ∷ s) = nat_beq c b';' || nat_beq c 32

unfoldable pub is_text_event_stream : Text → Bool
is_text_event_stream ct =
    let low = trim_space (to_lower ct) in
    has_prefix low (codes "text/event-stream") && blank_end (drop 17 low)

-- A body: what can be read of it, and whether reading and closing fail.
pub record Body : Type 0 where
  pub content : Text
  pub read_error : Option GoError
  pub close_error : Option GoError

pub record Response : Type 0 where
  pub status_code : ℤ
  pub content_type : Text
  pub retry_after : Text
  pub body : Body

-- How a request ends: with an error of net/http, or with a response.
pub data Exchange : Type 0 where
  broke : Text → Exchange
  answered : Response → Exchange

-- What a transport does to its context and to the body.
pub data Effect : Type 0 where
  began : Effect
  ended : Effect
  body_read : Effect
  body_closed : Effect

-- The context of the request before it is cancelled: alive, cancelled by the caller, or too late.
pub data Context : Type 0 where
  alive : Context
  stopped : Context
  late : Context

-- streamCtx.Err() after streamCancel().
abbrev pub err_after_cancel : Context → GoError
err_after_cancel alive = record { text = codes "context canceled"; chain = canceled ∷ [] }
err_after_cancel stopped = record { text = codes "context canceled"; chain = canceled ∷ [] }
err_after_cancel late = record {
  text = codes "context deadline exceeded";
  chain = deadline_exceeded ∷ [];
}

-- The errors of reading and closing together; none where both went well.
abbrev joined : Option GoError → Option GoError → Option (List Layer)
joined none none = none
joined (some a) none = some a.chain
joined none (some b) = some b.chain
joined (some a) (some b) = some (a.chain ++ b.chain)

-- readAndClose: at most 64 KiB, with the errors of the read and of the close, and what was done to the
-- body: it is closed whatever the read gives.
unfoldable pub read_and_close : Body → (Text × Option (List Layer)) × List Effect
read_and_close b =
    ((take 65536 b.content, joined b.read_error b.close_error), body_read ∷ body_closed ∷ [])

abbrev causes : Option (List Layer) → List Layer
causes none = []
causes (some ls) = ls

-- A stream that is open, or an error.
pub data Dialed : Type 0 where
  opened : Response → Dialed
  refused : GoError → Dialed

abbrev pub plain_error : Text → GoError
plain_error text = record { text = text; chain = plain ∷ [] }

-- The package's own names and the type of its error.
pub record Dialect : Type 0 where
  pub name : Text
  pub http : HttpError → Layer

abbrev pub bearer_dialect : Dialect
bearer_dialect = record { name = codes "bearer"; http = bearer_http }

abbrev pub cosy_dialect : Dialect
cosy_dialect = record { name = codes "cosy"; http = cosy_http }

-- summarizeErrorBody decodes JSON and qoderstream.ParseRetryAfter HTTP dates.
pub record Readers : Type 0 where
  pub summarize : Text → Text
  pub parse_retry_after : Text → ℤ

module _ (d : Dialect) (readers : Readers) where
  -- HTTPError, of a response and of what was read of its body.
  unfoldable pub http_error : Response → Text × Option (List Layer) → GoError
  unfolding classify_http_status
  http_error r (content, failed) =
      let e : HttpError = record {
        status_code = r.status_code;
        retry_after_sec = readers.parse_retry_after r.retry_after;
        category = classify_http_status r.status_code;
        detail = readers.summarize content;
      } in
      record { text = http_error_text d.name e; chain = d.http e ∷ causes failed }

  -- InvalidContentTypeError, or the error of closing.
  abbrev invalid_type : Option (List Layer) → Text → GoError
  invalid_type none ct =
      if ct == []
      then plain_error (d.name ++ codes ": missing text/event-stream content type")
      else plain_error (d.name ++ codes ": unexpected content type " ++ ct)
  invalid_type (some ls) ct = record {
    text = d.name ++ codes ": close invalid response";
    chain = plain ∷ ls;
  }

  -- From the call of the HTTP client on; the effects are in the order in which they happen.
  unfoldable pub on_exchange : Context → Exchange → Dialed × List Effect
  unfolding read_and_close http_error is_text_event_stream
  on_exchange ctx (broke text) = (refused (err_after_cancel ctx), ended ∷ [])
  on_exchange ctx (answered r) =
      let (got, done) = read_and_close r.body in
      if not (r.status_code == pos 200)
      then (refused (http_error r got), ended ∷ done)
      else if not (is_text_event_stream r.content_type)
      then (refused (invalid_type got.1 r.content_type), ended ∷ done)
      else (opened r, [])
