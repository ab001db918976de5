-- ===== src/Tests/HostRuns.antt =====
-- A stream of the host: a chunk that came first and two that are read.
use qoder_cpa.Prelude.{
  not, ◌&&◌, if◌then◌else◌, ◌==◌, ℕ, ◌<◌, true, false, [], ◌∷◌, List, none, some, text_eq, codes,
  All, ◌≡◌, refl, length, arith, pos,
}
use qoder_cpa.HostHttp.{
  StreamRead, Answer, told, Body, StreamResponse, new_body, read_initial, read, close, bytes,
}
use qoder_cpa.HostHttp.Reads.{IsRead, read-IsRead, content, ends, host_content, chunk_content}
use qoder_cpa.HostHttp.Drain.{drain, drain-content}
use qoder_cpa.HostHttp.Closes.{Use, a_read, a_close, use_all, closes, has_close, closes-use_all}

abbrev response : StreamResponse
response = record {
  status_code = pos 200;
  headers = none;
  stream_id = codes "s";
  chunks = record { payload = codes "ab"; failed = false } ∷ [];
}

abbrev told_later : List (Answer StreamRead)
told_later =
    told (record { payload = codes "cde"; error = []; done = false })
    ∷ told (record { payload = codes "f"; error = []; done = true })
    ∷ []

abbrev body : Body
body = new_body response told_later

given : content body ≡ (codes "abcdef", ends)
unfolding content host_content chunk_content
given = refl

first : (read 5 body).0 ≡ bytes (codes "ab")
unfolding read read_initial
first = refl

read-IsRead_example : IsRead 5 (content body) (read 5 body)
read-IsRead_example = read-IsRead 5 body

abbrev sizes : List ℕ
sizes = 2 ∷ 2 ∷ 2 ∷ 2 ∷ 2 ∷ 2 ∷ 2 ∷ []

roomy : All (λ n. 0 < n) sizes
roomy = (
  omega arith,
  (omega arith, (omega arith, (omega arith, (omega arith, (omega arith, (omega arith, tt)))))),
)

long : length (content body).0 < length sizes
long = rw given (omega arith)

drain-content_example : drain sizes body ≡ ((content body).0, some (content body).1)
drain-content_example = drain-content sizes body roomy long

abbrev uses : List Use
uses = a_read 1 ∷ a_close ∷ a_read 1 ∷ a_close ∷ []

closed_once : closes (use_all uses body).log ≡ 1
unfolding use_all closes read read_initial close
closed_once = refl

closes-use_all_example :
    closes (use_all uses body).log
    ≡ (if has_close uses && not (response.stream_id == []) then 1 else 0)
closes-use_all_example = closes-use_all uses response told_later
