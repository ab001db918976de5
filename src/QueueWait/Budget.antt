-- ===== src/QueueWait/Budget.antt =====
-- The cumulative budget of queue_wait.go, as long as the hints fit a duration.
use qoder_cpa.Prelude.{
  ℕ, zero, suc, ◌+◌, ◌*◌, ◌≤◌, ◌<◌, ◌≡◌, refl, ap, false, List, [], ◌∷◌, Option, none, some, inl,
  inr, arith, ℤ, pos, negsuc, pos_part, ◌≤ℤ◌, leb_ℤ, ◌*ℤ◌, Option-cases, All, Bool-cases, ◌∙◌,
  subst, half_word, +ℤ-pos, *ℤ-pos,
}
use qoder_cpa.Stream.{Fault, QueuePayload, Read, chunk, fail}
use qoder_cpa.QueueWait.{
  second, Policy, Upstream, next_read, next_open, sleep_with_context, Handle, queue_await, queue_of,
  hint_of, Round, finished, again, reopen, wait_and_reopen, refused, after_read, round, read_chunk,
}
use qoder_cpa.QueueWait.Bounds.{total_slept}

-- The most seconds that a time.Duration counts.
abbrev pub longest_hint : ℕ
longest_hint = 9223372036

-- A refusal whose hint, in nanoseconds, is an int64.
abbrev pub HintFits : Read → Type 0
HintFits (chunk c) = Unit
HintFits (fail err) = elim (queue_of err) [ none ↦ Unit | some q ↦ hint_of q ≤ℤ pos longest_hint ]

-- Between two rounds the time waited is what the log says, and within the budget.
record IsSpent (p : Policy) (h : Handle) (w : Upstream) : Type 0 where
  policy : h.policy ≡ p
  exact : h.waited ≡ pos (total_slept w.log)
  within : total_slept w.log ≤ pos_part p.budget
  fit : All HintFits w.reads

abbrev RoundSpent : Policy → Round → Type 0
RoundSpent p (finished r h w) = total_slept w.log ≤ pos_part p.budget
RoundSpent p (again h w) = IsSpent p h w

positive : (a : ℤ) → leb_ℤ a (pos 0) ≡ false → (n : ℕ) × (a ≡ pos (suc n))
positive (pos zero) h = ground arith
positive (pos (suc n)) h = (n, refl)
positive (negsuc n) h = ground arith

wait-RoundSpent :
    (p : Policy) (h : Handle) (d : ℕ) (w : Upstream)
    → IsSpent p h w
    → d ≤ pos_part p.max_wait
    → total_slept w.log + d ≤ pos_part p.budget
    → pos_part p.budget + pos_part p.max_wait < half_word
    → RoundSpent p (wait_and_reopen h (pos d) w)
unfolding wait_and_reopen reopen sleep_with_context
wait-RoundSpent p h d w s short room small =
    ground (arith, +ℤ-pos (total_slept w.log) d (omega arith))

refused-RoundSpent :
    (p : Policy) (h : Handle) (err : Fault) (q : QueuePayload) (w : Upstream)
    → IsSpent p h w
    → hint_of q ≤ℤ pos longest_hint
    → pos_part p.budget + pos_part p.max_wait < half_word
    → RoundSpent p (refused h err q w)
unfolding refused
refused-RoundSpent p h err q w s fits small = elim (Bool-cases (leb_ℤ (hint_of q) (pos 0))) [
  | inl untimed ↦ ground arith
  | inr timed ↦
      let (n, hint) = positive (hint_of q) timed in
      let bounded : suc n ≤ longest_hint =
        omega (arith, subst (λ z. z ≤ℤ pos longest_hint) hint fits) in
      let whole : hint_of q *ℤ second ≡ pos (suc n * 1000000000) =
        ap (λ z. z *ℤ second) hint ∙ *ℤ-pos (suc n) 1000000000 (omega arith) in
      ground (
        arith,
        whole,
        +ℤ-pos (total_slept w.log) (suc n * 1000000000),
        wait-RoundSpent p h (suc n * 1000000000) w s,
      )
]

after_read-RoundSpent :
    (p : Policy) (h : Handle) (r : Read) (w : Upstream)
    → IsSpent p h w
    → HintFits r
    → pos_part p.budget + pos_part p.max_wait < half_word
    → RoundSpent p (after_read h r w)
unfolding after_read
after_read-RoundSpent p h (chunk c) w s fits small = s.within
after_read-RoundSpent p h (fail err) w s fits small = elim (Option-cases (queue_of err)) [
  | inl ordinary ↦ ground arith
  | inr (q, busy) ↦ ground (arith, refused-RoundSpent p h err q w s)
]

round-RoundSpent :
    (p : Policy) (h : Handle) (w : Upstream)
    → IsSpent p h w
    → pos_part p.budget + pos_part p.max_wait < half_word
    → RoundSpent p (round h w)
unfolding round
round-RoundSpent p h w s small = next h w.reads w s s.fit small
  where
    next :
        (h : Handle) (rs : List Read) (w : Upstream)
        → IsSpent p h w
        → All HintFits rs
        → pos_part p.budget + pos_part p.max_wait < half_word
        → RoundSpent p (after_read h (next_read rs w).0 (next_read rs w).1)
    next h [] w s fit small = after_read-RoundSpent p h (fail Fault.eof) w s tt small
    next h (r ∷ rs) w s fit small =
        after_read-RoundSpent p h r (record w { reads = rs })
          (record { policy = s.policy; exact = s.exact; within = s.within; fit = fit.1 }) fit.0
          small

abbrev Spends : Policy → Option (Read × Handle × Upstream) → Type 0
Spends p none = Unit
Spends p (some (r, h, w)) = total_slept w.log ≤ pos_part p.budget

after_round-Spends :
    (p : Policy) (fuel : ℕ) (x : Round)
    → RoundSpent p x
    → ((h : Handle) (w : Upstream) → IsSpent p h w → Spends p (read_chunk fuel h w))
    → Spends p (elim x [ finished r h w ↦ some (r, h, w) | again h w ↦ read_chunk fuel h w ])
after_round-Spends p fuel (finished r h w) s rest = s
after_round-Spends p fuel (again h w) s rest = rest h w s

read_chunk-Spends :
    (p : Policy) (fuel : ℕ) (h : Handle) (w : Upstream)
    → IsSpent p h w
    → pos_part p.budget + pos_part p.max_wait < half_word
    → Spends p (read_chunk fuel h w)
unfolding read_chunk
read_chunk-Spends p zero h w s small = tt
read_chunk-Spends p (suc fuel) h w s small =
    after_round-Spends p fuel (round h w) (round-RoundSpent p h w s small)
      λ h' w' s'. read_chunk-Spends p fuel h' w' s' small

queue_await-IsSpent :
    (p : Policy) (w : Upstream)
    → w.log ≡ []
    → All HintFits w.reads
    → IsSpent p (queue_await p w).0.0 (queue_await p w).0.1
unfolding queue_await
queue_await-IsSpent p w fresh fit = record {
  policy = refl;
  exact = ground arith;
  within = ground arith;
  fit = untouched w.opens;
}
  where
    untouched : (os : List (Option Fault)) → All HintFits (next_open os w).1.reads
    untouched [] = fit
    untouched (o ∷ os) = fit

-- On a stream that was just opened the waits of a ReadChunk sum to at most the budget, as long as
-- every hint that the upstream gives fits a duration, and the budget and the longest wait together
-- fit one too. (`read_chunk_bounded` shows that ReadChunk returns.)
pub read_chunk_in_budget :
    (p : Policy) (w : Upstream) {r : Read} {h' : Handle} {w' : Upstream}
    → w.log ≡ []
    → All HintFits w.reads
    → pos_part p.budget + pos_part p.max_wait < half_word
    → read_chunk p.max_attempts (queue_await p w).0.0 (queue_await p w).0.1 ≡ some (r, h', w')
    → total_slept w'.log ≤ pos_part p.budget
read_chunk_in_budget p w fresh fit small e = subst (Spends p) e (
    read_chunk-Spends p p.max_attempts (queue_await p w).0.0 (queue_await p w).0.1
      (queue_await-IsSpent p w fresh fit) small)
