-- ===== src/HostHttp.antt =====
-- host_http.go: HTTP over calls of the host. What the host will answer is a list; the calls that are
-- made of a stream are a log, the last one first. Its JSON is decoded by a parameter.
pub mod Reads
pub mod Drain
pub mod Closes
use qoder_cpa.Prelude.{
  ℕ, Bool, true, false, not, ◌&&◌, ◌||◌, List, [], ◌∷◌, ◌++◌, Option, none, some, Text, text_eq,
  ◌==◌, codes, if◌then◌else◌, take, drop, contains, lookup, ℤ, pos, int_eq,
}
use qoder_cpa.Classify.{to_lower}

abbrev pub Headers : Type 0
Headers = List (Text × List Text)

-- What encoding/json reads of an answer; a nil map or slice is `none`.
pub record Wire : Type 0 where
  pub status_code_camel : ℤ
  pub status_code_snake : ℤ
  pub headers : Option Headers
  pub headers_lower : Option Headers
  pub body : Option Text
  pub body_lower : Option Text

pub record HostHttpResponse : Type 0 where
  pub status_code : ℤ
  pub headers : Option Headers
  pub body : Option Text

abbrev or_lower {ℓ} : {A : Type ℓ} → Option A → Option A → Option A
or_lower none b = b
or_lower (some a) b = some a

unfoldable pub unmarshal : Wire → HostHttpResponse
unmarshal w = record {
  status_code = if w.status_code_camel == pos 0 then w.status_code_snake else w.status_code_camel;
  headers = or_lower w.headers w.headers_lower;
  body = or_lower w.body w.body_lower;
}

-- A chunk that came with the response, and one that is read later.
pub record Chunk : Type 0 where
  pub payload : Text
  pub failed : Bool

pub record StreamRead : Type 0 where
  pub payload : Text
  pub error : Text
  pub done : Bool

pub record StreamResponse : Type 0 where
  pub status_code : ℤ
  pub headers : Option Headers
  pub stream_id : Text
  pub chunks : List Chunk

-- A call of the host: an error, an answer that is not decoded, or what it tells.
pub data Answer (A : Type 0) : Type 0 where
  broke : Text → Answer A
  undecoded : Answer A
  told : A → Answer A

pub data Call : Type 0 where
  read_call : Call
  close_call : Call

-- hostStreamBody: the chunks from `index` on, and the bytes that the reader still has.
pub record Body : Type 0 where
  pub stream_id : Text
  pub initial : List Chunk
  pub reader : Text
  pub done : Bool
  pub closed : Bool
  pub answers : List (Answer StreamRead)
  pub log : List Call

pub data Out : Type 0 where
  bytes : Text → Out
  eof : Out
  failed : Text → Out

abbrev failure : Text
failure = codes "host HTTP stream failed"

abbrev deliver : ℕ → Body → Out × Body
deliver n b = (bytes (take n b.reader), record b { reader = drop n b.reader })

-- The body after an answer was taken.
abbrev after_call : Body → List (Answer StreamRead) → Body
after_call b rest = record b { answers = rest; log = read_call ∷ b.log }

abbrev after_read : Body → StreamRead → List (Answer StreamRead) → Body
after_read b r rest = record (after_call b rest) { reader = r.payload; done = r.done }

-- The loop of Read once the chunks that came first are used up and the reader is empty. A host that
-- answers no more breaks the call.
unfoldable pub read_host : ℕ → Body → List (Answer StreamRead) → Out × Body
read_host n b [] = (failed (codes "host HTTP stream read"), after_call b [])
read_host n b (broke text ∷ rest) =
    (failed (codes "host HTTP stream read: " ++ text), after_call b rest)
read_host n b (undecoded ∷ rest) =
    (failed (codes "decode host HTTP stream chunk"), after_call b rest)
read_host n b (told r ∷ rest) =
    let more = read_host n (after_read b r rest) rest in
    if not (r.error == [])
    then (failed failure, after_call b rest)
    else if not (r.payload == [])
    then deliver n (after_read b r rest)
    else if r.done
    then (eof, after_read b r rest)
    else more

-- The loop where the reader is empty.
unfoldable pub read_initial : ℕ → Body → List Chunk → Out × Body
unfolding read_host
read_initial n b [] =
    let asked = read_host n (record b { initial = [] }) b.answers in
    if b.done || b.stream_id == [] then (eof, record b { initial = [] }) else asked
read_initial n b (c ∷ rest) =
    let more = read_initial n b rest in
    if c.failed
    then (failed failure, record b { initial = rest })
    else if not (c.payload == [])
    then deliver n (record b { initial = rest; reader = c.payload })
    else more

-- Read into a slice of `n` bytes.
unfoldable pub read : ℕ → Body → Out × Body
unfolding read_initial
read n b =
    let later = read_initial n b b.initial in
    if b.closed then (eof, b) else if not (b.reader == []) then deliver n b else later

-- Close, whose host call is made once; the error of that call is left out.
unfoldable pub close : Body → Body
close b =
    if b.closed
    then b
    else if b.stream_id == []
    then record b { closed = true }
    else record b { closed = true; log = close_call ∷ b.log }

pub data Trip : Type 0 where
  refused : Text → Trip
  whole : HostHttpResponse → Trip
  streamed : ℤ → Option Headers → Body → Trip

abbrev on_answer : Answer Wire → Trip
on_answer (broke text) = refused (codes "host HTTP call: " ++ text)
on_answer undecoded = refused (codes "decode host HTTP response")
on_answer (told w) =
    if (unmarshal w).status_code == pos 0
    then refused (codes "host HTTP response missing status code")
    else whole (unmarshal w)

abbrev pub new_body : StreamResponse → List (Answer StreamRead) → Body
new_body r answers = record {
  stream_id = r.stream_id;
  initial = r.chunks;
  reader = [];
  done = false;
  closed = false;
  answers = answers;
  log = [];
}

abbrev no_chunks : List Chunk → Bool
no_chunks [] = true
no_chunks (c ∷ cs) = false

abbrev on_stream_answer : List (Answer StreamRead) → Answer StreamResponse → Trip
on_stream_answer answers (broke text) = refused (codes "host HTTP stream call: " ++ text)
on_stream_answer answers undecoded = refused (codes "decode host HTTP stream response")
on_stream_answer answers (told r) =
    if r.status_code == pos 0
    then refused (codes "host HTTP stream response missing status code")
    else if r.stream_id == [] && no_chunks r.chunks
    then refused (codes "host HTTP stream response missing stream ID")
    else streamed r.status_code r.headers (new_body r answers)

-- RoundTrip: `body` is none where it cannot be read; the two calls of the host are parameters.
unfoldable pub round_trip :
    Option Text
    → Text
    → (Text → Answer Wire)
    → (Text → Answer StreamResponse)
    → List (Answer StreamRead)
    → Trip
unfolding unmarshal
round_trip none accept call call_stream answers = refused (codes "read host HTTP request body")
round_trip (some body) accept call call_stream answers =
    if contains (to_lower accept) (codes "text/event-stream")
    then on_stream_answer answers (call_stream body)
    else on_answer (call body)

-- newHostHTTPClientWithCall with a host: the error's text.
unfoldable pub client_error : Text → Option Text
client_error callback = if callback == [] then some (codes "host callback ID is required") else none
