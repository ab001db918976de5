-- ===== src/HostHttp/Closes.antt =====
-- The calls that a body of host_http.go makes of the host.
use qoder_cpa.Prelude.{
  Text, ℕ, suc, Bool, true, false, not, ◌&&◌, ◌||◌, List, [], ◌∷◌, text_eq, ◌==◌, if◌then◌else◌,
  ◌≡◌, refl, sym, ◌∙◌, arith, inl, inr, Bool-cases,
}
use qoder_cpa.HostHttp.{
  Chunk, StreamRead, Answer, broke, undecoded, told, Call, read_call, close_call, Body, Out, eof,
  deliver, after_read, read_host, read_initial, read, close, StreamResponse, new_body,
}

-- What is done with a body.
pub data Use : Type 0 where
  a_read : ℕ → Use
  a_close : Use

unfoldable pub use_all : List Use → Body → Body
use_all [] b = b
use_all (a_read n ∷ us) b = use_all us (read n b).1
use_all (a_close ∷ us) b = use_all us (close b)

unfoldable pub closes : List Call → ℕ
closes [] = 0
closes (read_call ∷ log) = closes log
closes (close_call ∷ log) = suc (closes log)

-- A read closes nothing, and names the same stream.
abbrev IsQuiet : Body → Out × Body → Type 0
IsQuiet b (o, b') =
    (closes b'.log ≡ closes b.log) × (b'.closed ≡ b.closed) × (b'.stream_id ≡ b.stream_id)

read_host-IsQuiet :
    (n : ℕ) (b : Body) (answers : List (Answer StreamRead)) → IsQuiet b (read_host n b answers)
unfolding read_host closes
read_host-IsQuiet n b [] = (refl, refl, refl)
read_host-IsQuiet n b (broke text ∷ rest) = (refl, refl, refl)
read_host-IsQuiet n b (undecoded ∷ rest) = (refl, refl, refl)
read_host-IsQuiet n b (told r ∷ rest) =
    let more = read_host-IsQuiet n (after_read b r rest) rest in
    elim (Bool-cases (r.error == [])) [
      | inr wrong ↦ rw (read_host, wrong) (refl, refl, refl)
      | inl right ↦ elim (Bool-cases (r.payload == [])) [
        | inr full ↦ rw (read_host, right, full) (refl, refl, refl)
        | inl empty ↦
            rw (read_host, right, empty)
              (last_call r.done (after_read b r rest) _ (refl, refl, refl) more)
      ]
    ]
  where
    last_call :
        (done : Bool) (b' : Body) (o : Out × Body)
        → IsQuiet b (eof, b')
        → IsQuiet b o
        → IsQuiet b (if done then (eof, b') else o)
    last_call true b' o h k = h
    last_call false b' o h k = k

read_initial-IsQuiet :
    (n : ℕ) (b : Body) (chunks : List Chunk) → IsQuiet b (read_initial n b chunks)
unfolding read_initial
read_initial-IsQuiet n b [] = elim (Bool-cases (b.done || b.stream_id == [])) [
  | inl over ↦ rw (read_initial, over) (refl, refl, refl)
  | inr on ↦ rw (read_initial, on) (read_host-IsQuiet n (record b { initial = [] }) b.answers)
]
read_initial-IsQuiet n b (c ∷ rest) = elim (Bool-cases c.failed) [
  | inl bad ↦ rw (read_initial, bad) (refl, refl, refl)
  | inr good ↦ elim (Bool-cases (c.payload == [])) [
    | inr full ↦ rw (read_initial, good, full) (refl, refl, refl)
    | inl empty ↦ rw (read_initial, good, empty) (read_initial-IsQuiet n b rest)
  ]
]

read-IsQuiet : (n : ℕ) (b : Body) → IsQuiet b (read n b)
unfolding read
read-IsQuiet n b =
    choose b.closed (eof, b) _ (refl, refl, refl)
      (choose (not (b.reader == [])) (deliver n b) _ (refl, refl, refl)
        (read_initial-IsQuiet n b b.initial))
  where
    choose :
        (test : Bool) (x y : Out × Body)
        → IsQuiet b x
        → IsQuiet b y
        → IsQuiet b (if test then x else y)
    choose true x y h k = h
    choose false x y h k = k

-- Some use is a close.
unfoldable pub has_close : List Use → Bool
has_close [] = false
has_close (a_read n ∷ us) = has_close us
has_close (a_close ∷ us) = true

-- The close calls that are due to a stream of that name, as it was closed or not before.
abbrev pub due : Bool → Text → ℕ
due closed stream_id = if closed && not (stream_id == []) then 1 else 0

close_due :
    (b : Body)
    → closes b.log ≡ due b.closed b.stream_id
    → (closes (close b).log ≡ due true b.stream_id)
      × ((close b).closed ≡ true)
      × ((close b).stream_id ≡ b.stream_id)
unfolding close closes
close_due b h = elim (Bool-cases b.closed) [
  | inl shut ↦ (ground arith, ground arith, ground arith)
  | inr live ↦ elim (Bool-cases (b.stream_id == [])) [
    | inl unnamed ↦ (ground arith, ground arith, ground arith)
    | inr named ↦ (ground arith, ground arith, ground arith)
  ]
]

use_all_due :
    (us : List Use) (b : Body)
    → closes b.log ≡ due b.closed b.stream_id
    → closes (use_all us b).log ≡ due (b.closed || has_close us) b.stream_id
unfolding use_all has_close
use_all_due [] b h = ground arith
use_all_due (a_close ∷ us) b h =
    let (made, shut, named) = close_due b h in
    let rest = use_all_due us (close b) (made ∙ sym (rw (shut, named) refl)) in
    rest ∙ rw (shut, named) (ground arith)
use_all_due (a_read n ∷ us) b h =
    let q = read-IsQuiet n b in
    let rest = use_all_due us (read n b).1 (q.0 ∙ h ∙ sym (rw (q.1, q.2) refl)) in
    rest ∙ rw (q.1, q.2) refl

-- In every sequence of reads and closes of a new body, the host is asked to close the stream once if
-- there is a close among them and the stream has an id, and never otherwise.
pub closes-use_all :
    (us : List Use) (r : StreamResponse) (answers : List (Answer StreamRead))
    → closes (use_all us (new_body r answers)).log
      ≡ (if has_close us && not (r.stream_id == []) then 1 else 0)
unfolding closes
closes-use_all us r answers = use_all_due us (new_body r answers) refl
