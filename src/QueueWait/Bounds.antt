-- ===== src/QueueWait/Bounds.antt =====
-- The waits of queue_wait.go are bounded: how often the upstream is asked, and how long it is
-- waited for, whatever it answers.
use qoder_cpa.Prelude.{
  ℕ, zero, suc, ◌+◌, ◌*◌, ◌≤◌, ◌<◌, ◌≡◌, refl, List, [], ◌∷◌, Option, some, inl, inr, arith, ℤ,
  pos_part, ◌≤ℤ◌, ◌*ℤ◌, Option-cases,
}
use qoder_cpa.Stream.{Fault, QueuePayload, Read, chunk, fail}
use qoder_cpa.QueueWait.{
  second, Policy, Action, opened, closed, slept, Upstream, next_read, sleep_with_context, Handle,
  queue_await, queue_of, hint_of, Round, finished, again, reopen, wait_and_reopen, refused,
  after_read, round, read_chunk,
}

-- How often StreamChat was called.
abbrev pub count_opened : List Action → ℕ
count_opened [] = 0
count_opened (opened ∷ log) = suc (count_opened log)
count_opened (closed ∷ log) = count_opened log
count_opened (slept d ∷ log) = count_opened log

-- How many nanoseconds were waited, the waits that a cancellation cut short counted whole.
abbrev pub total_slept : List Action → ℕ
total_slept [] = 0
total_slept (opened ∷ log) = total_slept log
total_slept (closed ∷ log) = total_slept log
total_slept (slept d ∷ log) = pos_part d + total_slept log

abbrev longest : Policy → ℕ
longest p = pos_part p.max_wait

-- Between two rounds: each StreamChat but the first came after one wait.
record IsBounded (p : Policy) (h : Handle) (w : Upstream) : Type 0 where
  policy : h.policy ≡ p
  asked : count_opened w.log ≡ h.attempts
  once : 1 ≤ h.attempts
  capped : h.attempts ≤ p.max_attempts
  waits : total_slept w.log + longest p ≤ h.attempts * longest p

-- What a round leaves behind.
abbrev RoundBounded : Policy → ℕ → Round → Type 0
RoundBounded p n (finished r h w) =
    (count_opened w.log ≤ p.max_attempts)
    × (total_slept w.log + longest p ≤ p.max_attempts * longest p)
RoundBounded p n (again h w) = IsBounded p h w × (h.attempts ≡ n + 1)

mul_mono : (a b c : ℕ) → a ≤ b → a * c ≤ b * c
mul_mono a b c h = grind arith

wait-RoundBounded :
    (p : Policy) (h : Handle) (delay : ℤ) (w : Upstream)
    → IsBounded p h w
    → h.attempts + 1 ≤ p.max_attempts
    → delay ≤ℤ p.max_wait
    → RoundBounded p h.attempts (wait_and_reopen h delay w)
unfolding wait_and_reopen reopen sleep_with_context
wait-RoundBounded p h delay w b room short =
    ground (arith, mul_mono (h.attempts + 1) p.max_attempts (longest p) room)

refused-RoundBounded :
    (p : Policy) (h : Handle) (err : Fault) (q : QueuePayload) (w : Upstream)
    → IsBounded p h w
    → RoundBounded p h.attempts (refused h err q w)
unfolding refused
refused-RoundBounded p h err q w b = ground (
  arith,
  mul_mono h.attempts p.max_attempts (longest p) b.capped,
  wait-RoundBounded p h (hint_of q *ℤ second) w b,
)

after_read-RoundBounded :
    (p : Policy) (h : Handle) (r : Read) (w : Upstream)
    → IsBounded p h w
    → RoundBounded p h.attempts (after_read h r w)
unfolding after_read
after_read-RoundBounded p h (chunk c) w b =
    omega (arith, mul_mono h.attempts p.max_attempts (longest p) b.capped)
after_read-RoundBounded p h (fail err) w b = elim (Option-cases (queue_of err)) [
  | inl ordinary ↦ ground (arith, mul_mono h.attempts p.max_attempts (longest p) b.capped)
  | inr (q, busy) ↦ ground (
    arith,
    mul_mono h.attempts p.max_attempts (longest p) b.capped,
    refused-RoundBounded p h err q w b,
  )
]

next_read-IsBounded :
    (p : Policy) (h : Handle) (rs : List Read) (w : Upstream)
    → IsBounded p h w
    → IsBounded p h (next_read rs w).1
next_read-IsBounded p h [] w b = b
next_read-IsBounded p h (r ∷ rs) w b = record {
  policy = b.policy;
  asked = b.asked;
  once = b.once;
  capped = b.capped;
  waits = b.waits;
}

round-RoundBounded :
    (p : Policy) (h : Handle) (w : Upstream)
    → IsBounded p h w
    → RoundBounded p h.attempts (round h w)
unfolding round
round-RoundBounded p h w b =
    after_read-RoundBounded p h (next_read w.reads w).0 (next_read w.reads w).1
      (next_read-IsBounded p h w.reads w b)

-- A call that returned, with the upstream within its bounds.
abbrev pub Returns : Policy → Option (Read × Handle × Upstream) → Type 0
Returns p out =
    (r : Read) × (h : Handle) × (w : Upstream) × (out ≡ some (r, h, w))
    × (count_opened w.log ≤ p.max_attempts)
    × (total_slept w.log + longest p ≤ p.max_attempts * longest p)

after_round-Returns :
    (p : Policy) (fuel n : ℕ) (x : Round)
    → RoundBounded p n x
    → ((h : Handle) (w : Upstream)
        → IsBounded p h w
        → h.attempts ≡ n + 1
        → Returns p (read_chunk fuel h w))
    → Returns p (elim x [ finished r h w ↦ some (r, h, w) | again h w ↦ read_chunk fuel h w ])
after_round-Returns p fuel n (finished r h w) b rest = (r, h, w, refl, b.0, b.1)
after_round-Returns p fuel n (again h w) b rest = rest h w b.0 b.1

read_chunk-Returns :
    (p : Policy) (fuel : ℕ) (h : Handle) (w : Upstream)
    → IsBounded p h w
    → p.max_attempts < fuel + h.attempts
    → Returns p (read_chunk fuel h w)
unfolding read_chunk
read_chunk-Returns p zero h w b enough = absurd (omega (arith, b.capped))
read_chunk-Returns p (suc fuel) h w b enough =
    after_round-Returns p fuel h.attempts (round h w) (round-RoundBounded p h w b)
      λ h' w' b' next. read_chunk-Returns p fuel h' w' b' (omega arith)

queue_await-IsBounded :
    (p : Policy) (w : Upstream)
    → 1 ≤ p.max_attempts
    → w.log ≡ []
    → IsBounded p (queue_await p w).0.0 (queue_await p w).0.1
unfolding queue_await
queue_await-IsBounded p w some_attempt fresh = ground arith

-- On a stream that was just opened ReadChunk returns, within `max_attempts` rounds and whatever the
-- upstream answers; until then StreamChat was called at most `max_attempts` times, the first
-- included, and the waits sum to at most `max_attempts - 1` times the longest wait. The policy
-- allows one attempt at least.
pub read_chunk_bounded :
    (p : Policy) (w : Upstream)
    → 1 ≤ p.max_attempts
    → w.log ≡ []
    → Returns p (read_chunk p.max_attempts (queue_await p w).0.0 (queue_await p w).0.1)
unfolding queue_await
read_chunk_bounded p w some_attempt fresh =
    read_chunk-Returns p p.max_attempts (queue_await p w).0.0 (queue_await p w).0.1
      (queue_await-IsBounded p w some_attempt fresh) (omega arith)
