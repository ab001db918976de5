-- ===== src/QueueWait/Refusals.antt =====
-- When ReadChunk of queue_wait.go opens the stream again, and what it passes on untouched.
use qoder_cpa.Prelude.{
  ℕ, suc, ◌+◌, ◌<◌, ◌≡◌, refl, true, false, List, ◌∷◌, some, inl, inr, arith, ℤ, pos, ◌≤ℤ◌, leb_ℤ,
  ◌+ℤ◌, ◌*ℤ◌, Option-cases, if◌then◌else◌,
}
use qoder_cpa.Stream.{Fault, QueuePayload, Read, chunk, fail}
use qoder_cpa.QueueWait.{
  second, Action, opened, closed, slept, Upstream, next_read, sleep_with_context, Handle, queue_of,
  hint_of, finished, again, reopen, wait_and_reopen, refused, after_read, round, read_chunk,
}

-- What a wait adds to the log.
abbrev pub with_wait : ℤ → List Action → List Action
with_wait d log = if leb_ℤ d (pos 0) then log else slept d ∷ log

-- The grounds on which a stream is opened again after the read `r`.
pub record Reopens (h : Handle) (r : Read) (w : Upstream) (h' : Handle) (w' : Upstream)
    : Type 0 where
  pub err : Fault
  pub q : QueuePayload
  pub refusal : r ≡ fail err
  pub busy : queue_of err ≡ some q
  pub no_content : h.started ≡ false
  pub attempt_left : h.attempts < h.policy.max_attempts
  pub timed : pos 1 ≤ℤ hint_of q
  pub short : hint_of q *ℤ second ≤ℤ h.policy.max_wait
  pub affordable : h.waited +ℤ hint_of q *ℤ second ≤ℤ h.policy.budget
  pub counted :
      h' ≡ record h { attempts = h.attempts + 1; waited = h.waited +ℤ hint_of q *ℤ second }
  pub logged : w'.log ≡ opened ∷ with_wait (hint_of q *ℤ second) (closed ∷ w.log)

wait_counted :
    (h : Handle) (delay : ℤ) (w : Upstream) (h' : Handle) (w' : Upstream)
    → wait_and_reopen h delay w ≡ again h' w'
    → (h' ≡ record h { attempts = h.attempts + 1; waited = h.waited +ℤ delay })
      × (w'.log ≡ opened ∷ with_wait delay (closed ∷ w.log))
unfolding wait_and_reopen reopen sleep_with_context
wait_counted h delay w h' w' e = ground arith

after_read-Reopens :
    (h : Handle) (r : Read) (w : Upstream) (h' : Handle) (w' : Upstream)
    → after_read h r w ≡ again h' w'
    → Reopens h r w h' w'
unfolding after_read refused
after_read-Reopens h (chunk c) w h' w' e = cc
after_read-Reopens h (fail err) w h' w' e = elim (Option-cases (queue_of err)) [
  | inl ordinary ↦ ground arith
  | inr (q, busy) ↦
      let (counted, logged) = wait_counted h (hint_of q *ℤ second) w h' w' (ground (arith)) in
      record {
        err = err;
        q = q;
        refusal = refl;
        busy = busy;
        no_content = ground arith;
        attempt_left = ground arith;
        timed = ground arith;
        short = ground arith;
        affordable = ground arith;
        counted = counted;
        logged = logged;
      }
]

-- A round that opens the stream again has read a queue refusal that carries a payload, before any
-- content, with an attempt left, a positive hint, a wait within the longest and a sum of waits
-- within the budget; it cancels the old stream, waits, and calls StreamChat once.
pub round-Reopens :
    (h : Handle) (w : Upstream) (h' : Handle) (w' : Upstream)
    → round h w ≡ again h' w'
    → Reopens h (next_read w.reads w).0 (next_read w.reads w).1 h' w'
unfolding round
round-Reopens h w h' w' e =
    after_read-Reopens h (next_read w.reads w).0 (next_read w.reads w).1 h' w' e

started_round :
    (h : Handle) (r : Read) (w : Upstream) → h.started ≡ true → after_read h r w ≡ finished r h w
unfolding after_read
started_round h (chunk c) w e = ground arith
started_round h (fail err) w e = ground arith

-- After the first content ReadChunk is the read of the open stream: whatever that gives, a queue
-- refusal too, is returned as it is, and neither the handle nor the log of the upstream changes.
pub read_chunk_started :
    (fuel : ℕ) (h : Handle) (w : Upstream)
    → h.started ≡ true
    → read_chunk (suc fuel) h w ≡ some ((next_read w.reads w).0, h, (next_read w.reads w).1)
unfolding read_chunk round
read_chunk_started fuel h w e =
    rw (read_chunk, started_round h (next_read w.reads w).0 (next_read w.reads w).1 e)
