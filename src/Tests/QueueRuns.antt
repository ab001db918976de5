-- ===== src/Tests/QueueRuns.antt =====
-- A stream that is refused twice by the queue and then opens.
use qoder_cpa.Prelude.{ℕ, ◌≤◌, ◌≡◌, refl, true, false, [], ◌∷◌, some, arith, codes, pos, ◌+ℤ◌, ◌*ℤ◌}
use qoder_cpa.Stream.{QueuePayload, business, Read, chunk, fail, cat_queue_unavailable}
use qoder_cpa.QueueWait.{
  default_policy, opened, closed, slept, Upstream, Handle, queue_await, queue_of, hint_of,
  after_read, again, round, read_chunk, sleep_with_context,
}
use qoder_cpa.QueueWait.Bounds.{Returns, total_slept, read_chunk_bounded}
use qoder_cpa.QueueWait.Budget.{read_chunk_in_budget}

program : Unit {0}
unfolding default_policy queue_await queue_of hint_of after_read round read_chunk sleep_with_context
    ◌+ℤ◌ ◌*ℤ◌
program = tt

abbrev payload : ℕ → QueuePayload
payload n = record {
  is_queued = true;
  queue_type = codes "p3";
  service_available = false;
  retry_after_seconds = pos n;
  wait_time = pos 5;
}

abbrev refusal : ℕ → Read
refusal n = fail (
    business (record {
      error_code = pos 10605;
      category = cat_queue_unavailable;
      reset_at = [];
      outer_code = pos 0;
      queue = some (payload n);
    }))

abbrev busy : Upstream
busy = record {
  reads = refusal 30 ∷ refusal 0 ∷ chunk (codes "hello") ∷ [];
  opens = [];
  sleeps = [];
  log = [];
}

abbrev first : Handle
first = record { policy = default_policy; attempts = 1; waited = pos 0; started = false }

-- Thirty seconds by the first hint, five by the second, then the content.
waits :
    read_chunk 3 (queue_await default_policy busy).0.0 (queue_await default_policy busy).0.1
    ≡ some (
      chunk (codes "hello"),
      record first { attempts = 3; waited = pos 35000000000; started = true },
      record busy {
        reads = [];
        log =
            opened
            ∷ slept (pos 5000000000)
            ∷ closed
            ∷ opened
            ∷ slept (pos 30000000000)
            ∷ closed
            ∷ opened
            ∷ [];
      },
    )
unfolding program
waits = refl

-- A hint over the longest wait is passed on.
over_bound :
    round first (record busy { reads = refusal 36 ∷ [] })
    ≡ after_read first (refusal 36) (record busy { reads = [] })
unfolding program
over_bound = refl

-- The hint is multiplied to nanoseconds in 64 bits: one of 584 years counts as 0.29 seconds, and
-- the stream is opened again.
wrapped_hint :
    round first (record busy { reads = refusal 18446744074 ∷ [] })
    ≡ again
        (record first { attempts = 2; waited = pos 290448384 })
        (record busy { reads = []; log = opened ∷ slept (pos 290448384) ∷ closed ∷ [] })
unfolding program
wrapped_hint = refl

read_chunk_bounded_example : Returns default_policy (
    read_chunk default_policy.max_attempts
      (queue_await default_policy busy).0.0
      (queue_await default_policy busy).0.1)
unfolding default_policy
read_chunk_bounded_example = read_chunk_bounded default_policy busy (omega arith) refl

read_chunk_in_budget_example :
    total_slept (slept (pos 5000000000) ∷ slept (pos 30000000000) ∷ []) ≤ 70000000000
unfolding program
read_chunk_in_budget_example =
    read_chunk_in_budget default_policy busy refl (omega arith) (omega arith) waits
