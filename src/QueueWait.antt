-- ===== src/QueueWait.antt =====
-- queue_wait.go: a stream that a structured queue refusal delays is opened again after a bounded
-- wait. The upstream is a script of what it will answer, and keeps a log of what it was asked.
use qoder_cpa.Prelude.{
  ℕ, zero, suc, ◌+◌, Bool, true, false, ◌&&◌, ◌||◌, List, [], ◌∷◌, Option, none, some, Text,
  text_eq, ◌==◌, ℤ, pos, ltb_ℤ, leb_ℤ, ◌+ℤ◌, ◌*ℤ◌, leb, if◌then◌else◌,
}
use qoder_cpa.Stream.{
  QueuePayload, StreamBusinessError, Fault, business, Read, chunk, fail, cat_queue_unavailable,
}
pub mod Bounds
pub mod Refusals
pub mod Budget

-- time.Duration counts nanoseconds.
abbrev pub second : ℤ
second = pos 1000000000

pub record Policy : Type 0 where
  pub max_wait : ℤ
  pub budget : ℤ
  pub max_attempts : ℕ

unfoldable pub default_policy : Policy
default_policy = record { max_wait = pos 35000000000; budget = pos 70000000000; max_attempts = 3 }

pub data Action : Type 0 where
  opened : Action
  closed : Action
  slept : ℤ → Action

-- What is still to come from the transport, the open stream and the timer, and the log, the last
-- action first. At the end of a script a read gives EOF, and the others succeed.
pub record Upstream : Type 0 where
  pub reads : List Read
  pub opens : List (Option Fault)
  pub sleeps : List (Option Fault)
  pub log : List Action

abbrev pub next_read : List Read → Upstream → Read × Upstream
next_read [] w = (fail Fault.eof, w)
next_read (r ∷ rs) w = (r, record w { reads = rs })

abbrev pub next_open : List (Option Fault) → Upstream → Option Fault × Upstream
next_open [] w = (none, record w { log = opened ∷ w.log })
next_open (o ∷ os) w = (o, record w { opens = os; log = opened ∷ w.log })

abbrev pub next_sleep : List (Option Fault) → ℤ → Upstream → Option Fault × Upstream
next_sleep [] d w = (none, record w { log = slept d ∷ w.log })
next_sleep (o ∷ os) d w = (o, record w { sleeps = os; log = slept d ∷ w.log })

abbrev pub stream_chat : Upstream → Option Fault × Upstream
stream_chat w = next_open w.opens w

abbrev pub cancel_inner : Upstream → Upstream
cancel_inner w = record w { log = closed ∷ w.log }

-- A duration that is not positive does not wait.
unfoldable pub sleep_with_context : ℤ → Upstream → Option Fault × Upstream
sleep_with_context d w = if leb_ℤ d (pos 0) then (none, w) else next_sleep w.sleeps d w

pub record Handle : Type 0 where
  pub policy : Policy
  pub attempts : ℕ
  pub waited : ℤ
  pub started : Bool

unfoldable pub queue_await : Policy → Upstream → (Handle × Upstream) × Option Fault
queue_await policy w =
    let (err, w') = stream_chat w in
    ((record { policy = policy; attempts = 1; waited = pos 0; started = false }, w'), err)

-- `errors.As(err, &sbe)` with the queue category and a payload.
unfoldable pub queue_of : Fault → Option QueuePayload
queue_of (business e) = if e.category == cat_queue_unavailable then e.queue else none
queue_of _ = none

unfoldable pub hint_of : QueuePayload → ℤ
hint_of q = if leb_ℤ q.retry_after_seconds (pos 0) then q.wait_time else q.retry_after_seconds

-- One pass of the loop of ReadChunk: it returns, or goes round again.
pub data Round : Type 0 where
  finished : Read → Handle → Upstream → Round
  again : Handle → Upstream → Round

-- The second StreamChat, after the wait.
reopen : Handle → ℤ → Upstream → Round
reopen h delay w =
    let h' = record h { waited = h.waited +ℤ delay } in
    let (err, w') = stream_chat w in
    elim err [
      | some rerr ↦ finished (fail rerr) h' w'
      | none ↦ again (record h' { attempts = h.attempts + 1 }) w'
    ]

wait_and_reopen : Handle → ℤ → Upstream → Round
unfolding reopen
wait_and_reopen h delay w =
    let (err, w') = sleep_with_context delay (cancel_inner w) in
    elim err [ some serr ↦ finished (fail serr) h w' | none ↦ reopen h delay w' ]

refused : Handle → Fault → QueuePayload → Upstream → Round
unfolding wait_and_reopen hint_of
refused h err q w =
    let delay = hint_of q *ℤ second in
    if leb h.policy.max_attempts h.attempts
    then finished (fail err) h w
    else if leb_ℤ (hint_of q) (pos 0)
    then finished (fail err) h w
    else if ltb_ℤ h.policy.max_wait delay || ltb_ℤ h.policy.budget (h.waited +ℤ delay)
    then finished (fail err) h w
    else wait_and_reopen h delay w

unfoldable pub after_read : Handle → Read → Upstream → Round
unfolding refused queue_of
after_read h (chunk c) w = finished (chunk c) (record h { started = true }) w
after_read h (fail err) w =
    if h.started
    then finished (fail err) h w
    else elim (queue_of err) [ none ↦ finished (fail err) h w | some q ↦ refused h err q w ]

unfoldable pub round : Handle → Upstream → Round
unfolding after_read
round h w = let (r, w') = next_read w.reads w in after_read h r w'

-- The loop of ReadChunk; `none` means that the fuel ran out.
unfoldable pub read_chunk : ℕ → Handle → Upstream → Option (Read × Handle × Upstream)
read_chunk zero h w = none
read_chunk (suc fuel) h w = elim (round h w) [
  | finished r h' w' ↦ some (r, h', w')
  | again h' w' ↦ read_chunk fuel h' w'
]
