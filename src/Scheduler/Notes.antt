-- ===== src/Scheduler/Notes.antt =====
-- noteSchedulerFailure and noteQuotaSnapshot of scheduler.go: what the executor and the quota
-- refresh tell the scheduler.
use qoder_cpa.Prelude.{
  Bool, ◌||◌, [], Option, none, some, Text, text_eq, ◌==◌, if◌then◌else◌, trim_space, ℤ, pos, leb_ℤ,
  ◌*ℤ◌,
}
use qoder_cpa.Stream.{Fault, business, QueuePayload, cat_queue_unavailable}
use qoder_cpa.Scheduler.State.{State, queue_cooldown_default, set_quota, set_cooldown}

unfoldable pub queue_ttl : QueuePayload → ℤ
queue_ttl q =
    if leb_ℤ q.retry_after_seconds (pos 0)
    then queue_cooldown_default
    else q.retry_after_seconds *ℤ pos 1000000000

unfoldable pub failure_ttl : Option QueuePayload → ℤ
unfolding queue_ttl
failure_ttl none = queue_cooldown_default
failure_ttl (some q) = queue_ttl q

module _ {F : Type 0} where
  unfoldable pub note_scheduler_failure : ℤ → Text → Text → Fault → State F → State F
  unfolding failure_ttl
  note_scheduler_failure now auth_id model (business e) s =
      if e.category == cat_queue_unavailable
      then if trim_space auth_id == [] || trim_space model == []
        then s
        else set_cooldown now auth_id model (failure_ttl e.queue) s
      else s
  note_scheduler_failure now auth_id model _ s = s

  unfoldable pub note_quota_snapshot : ℤ → Text → F → Bool → State F → State F
  note_quota_snapshot now auth_id remaining exhausted s =
      if trim_space auth_id == [] then s else set_quota now auth_id remaining exhausted s
