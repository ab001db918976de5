-- ===== src/HostHttp/Reads.antt =====
-- What a body of host_http.go gives its reader.
use qoder_cpa.Prelude.{
  ℕ, zero, suc, Bool, true, false, not, ◌||◌, List, [], ◌∷◌, ◌++◌, append_assoc, Text, text_eq,
  ◌==◌, if◌then◌else◌, take, drop, take-append-drop, ◌≡◌, refl, sym, ap, ◌∙◌, arith, inl, inr,
  Bool-cases,
}
use qoder_cpa.HostHttp.{
  Chunk, StreamRead, Answer, broke, undecoded, told, Body, Out, bytes, eof, failed, deliver,
  after_read, read_host, read_initial, read,
}

-- How a stream ends: in order, or with an error.
pub data End : Type 0 where
  ends : End
  breaks : End

abbrev unless_done : Bool → Text × End → Text × End
unless_done done next = if done then ([], ends) else next

-- What the host will still send, and how that ends.
unfoldable pub host_content : List (Answer StreamRead) → Text × End
host_content [] = ([], breaks)
host_content (broke text ∷ rest) = ([], breaks)
host_content (undecoded ∷ rest) = ([], breaks)
host_content (told r ∷ rest) =
    let next = host_content rest in
    let (s, e) = unless_done r.done next in
    if not (r.error == []) then ([], breaks) else (r.payload ++ s, e)

abbrev host_rest : Body → Text × End
host_rest b = unless_done (b.done || b.stream_id == []) (host_content b.answers)

-- The chunks that came first, and then the host.
unfoldable pub chunk_content : List Chunk → Text × End → Text × End
chunk_content [] host = host
chunk_content (c ∷ rest) host =
    let (s, e) = chunk_content rest host in if c.failed then ([], breaks) else (c.payload ++ s, e)

-- All that a reader is still to be given.
unfoldable pub content : Body → Text × End
unfolding host_content chunk_content
content b =
    let (s, e) = chunk_content b.initial (host_rest b) in
    if b.closed then ([], ends) else (b.reader ++ s, e)

abbrev pub nat_zero : ℕ → Bool
nat_zero zero = true
nat_zero (suc n) = false

-- A read of `n` bytes gives the next bytes, some of them if there is room, or all was given before,
-- and the stream ends as it is to end.
abbrev pub IsRead : ℕ → Text × End → Out × Body → Type 0
IsRead n before (bytes s, b) =
    (before.0 ≡ s ++ (content b).0)
    × (before.1 ≡ (content b).1)
    × ((nat_zero n || not (s == [])) ≡ true)
IsRead n before (eof, b) = (before.0 ≡ []) × (before.1 ≡ ends)
IsRead n before (failed text, b) = (before.0 ≡ []) × (before.1 ≡ breaks)

taken : (n : ℕ) (s : Text) → (s == []) ≡ false → (nat_zero n || not (take n s == [])) ≡ true
taken zero s h = refl
taken (suc n) [] h = cc
taken (suc n) (c ∷ s) h = refl

-- What the reader has is given, the rest behind it.
deliver-IsRead :
    (n : ℕ) (b : Body) (later : Text × End)
    → b.closed ≡ false
    → (b.reader == []) ≡ false
    → chunk_content b.initial (host_rest b) ≡ later
    → IsRead n (b.reader ++ later.0, later.1) (deliver n b)
unfolding content
deliver-IsRead n b later live some_left rest = (
  ap (λ r. r ++ later.0) (sym (take-append-drop n b.reader))
      ∙ append_assoc (take n b.reader) (drop n b.reader) later.0
      ∙ rw (live, rest) refl,
  rw (live, rest) refl,
  taken n b.reader some_left,
)

either :
    (done unnamed : Bool) (next : Text × End)
    → unnamed ≡ false
    → unless_done (done || unnamed) next ≡ unless_done done next
either true unnamed next h = refl
either false unnamed next h = rw h refl

module _ (n : ℕ) where
  -- A payload of no bytes adds nothing.
  behind_empty :
      (p : Text) (c : Text × End) (o : Out × Body)
      → (p == []) ≡ true
      → IsRead n c o
      → IsRead n (p ++ c.0, c.1) o
  behind_empty [] c o empty h = h
  behind_empty (x ∷ p) c o empty h = cc

  at_end :
      (done : Bool) (next : Text × End) (b : Body) (more : Out × Body)
      → (done ≡ false → IsRead n next more)
      → IsRead n (unless_done done next) (if done then (eof, b) else more)
  at_end true next b more h = (refl, refl)
  at_end false next b more h = h refl

  read_host-IsRead :
      (b : Body) (answers : List (Answer StreamRead))
      → b.closed ≡ false
      → b.initial ≡ []
      → (b.stream_id == []) ≡ false
      → IsRead n (host_content answers) (read_host n b answers)
  unfolding read_host host_content chunk_content
  read_host-IsRead b [] live used named = (refl, refl)
  read_host-IsRead b (broke text ∷ rest) live used named = (refl, refl)
  read_host-IsRead b (undecoded ∷ rest) live used named = (refl, refl)
  read_host-IsRead b (told r ∷ rest) live used named = elim (Bool-cases (r.error == [])) [
    | inr wrong ↦ rw (read_host, host_content, wrong) (refl, refl)
    | inl right ↦
        let next = host_content rest in
        let after = after_read b r rest in
        let behind : chunk_content after.initial (host_rest after) ≡ unless_done r.done next =
          rw used (either r.done (after.stream_id == []) next named) in
        elim (Bool-cases (r.payload == [])) [
          | inr full ↦
              rw (read_host, host_content, right, full)
                (deliver-IsRead n after (unless_done r.done next) live full behind)
          | inl empty ↦
              rw (read_host, host_content, right, empty)
                (behind_empty r.payload (unless_done r.done next) _ empty (
                  at_end r.done next after (read_host n after rest)
                    λ on. read_host-IsRead after rest live used named))
        ]
  ]

  read_initial-IsRead :
      (b : Body) (chunks : List Chunk) (host : Text × End)
      → b.closed ≡ false
      → (b.reader == []) ≡ true
      → host_rest b ≡ host
      → IsRead n (chunk_content chunks host) (read_initial n b chunks)
  unfolding read_initial chunk_content
  read_initial-IsRead b [] host live empty rest =
      let fresh = record b { initial = [] } in
      rw (← rest) (
        at_end (b.done || b.stream_id == []) (host_content b.answers) fresh
          (read_host n fresh b.answers)
          λ on. read_host-IsRead fresh b.answers live refl (ground arith))
  read_initial-IsRead b (c ∷ cs) host live empty rest = elim (Bool-cases c.failed) [
    | inl bad ↦ rw (read_initial, chunk_content, bad) (refl, refl)
    | inr good ↦ elim (Bool-cases (c.payload == [])) [
      | inr full ↦
          rw (read_initial, chunk_content, good, full)
            (deliver-IsRead n (record b { initial = cs; reader = c.payload })
              (chunk_content cs host) live full (ap (chunk_content cs) rest))
      | inl nothing ↦
          rw (read_initial, chunk_content, good, nothing)
            (behind_empty c.payload (chunk_content cs host) _ nothing
              (read_initial-IsRead b cs host live empty rest))
    ]
  ]

  unless_closed :
      (closed : Bool) (before : Text × End) (b : Body) (o : Out × Body)
      → (closed ≡ false → IsRead n before o)
      → IsRead n (if closed then ([], ends) else before) (if closed then (eof, b) else o)
  unless_closed true before b o h = (refl, refl)
  unless_closed false before b o h = h refl

  unclosed :
      (b : Body) (has : Bool)
      → (b.reader == []) ≡ has
      → b.closed ≡ false
      → IsRead n
          (
            b.reader ++ (chunk_content b.initial (host_rest b)).0,
            (chunk_content b.initial (host_rest b)).1,
          )
          (if not has then deliver n b else read_initial n b b.initial)
  unclosed b false some_left live =
      deliver-IsRead n b (chunk_content b.initial (host_rest b)) live some_left refl
  unclosed b true empty live =
      behind_empty b.reader (chunk_content b.initial (host_rest b)) _ empty
        (read_initial-IsRead b b.initial (host_rest b) live empty refl)

  -- A read gives the next bytes of what the host sends, in order, none lost and none twice, and some if
  -- there is room for any; the end is told only where all was given, and it is an error exactly where
  -- the host's stream breaks off. A body that was closed has ended.
  pub read-IsRead : (b : Body) → IsRead n (content b) (read n b)
  unfolding read content
  read-IsRead b = unless_closed b.closed _ b _ (unclosed b (b.reader == []) refl)
