-- ===== src/Executor/Service/Excluded.antt =====
-- What an error of executor_handler.go means for the picks of scheduler.go that follow.
use qoder_cpa.Prelude.{◌≢◌, List, [], none, some, Text, trim_space, ℤ, plus, ◌≤ℤ◌, true, ◌≡◌}
use qoder_cpa.Stream.{StreamBusinessError, cat_queue_unavailable}
use qoder_cpa.Auth.Provider.{Codec}
use qoder_cpa.Failure.{GoError, first_own, first_business, classify_executor_error}
use qoder_cpa.Executor.Service.{ExecutorRequest, Environment, noted, answer_error}
use qoder_cpa.Scheduler.State.{Float64, State}
use qoder_cpa.Scheduler.Select.{Candidate, PickRequest, scheduler_pick}
use qoder_cpa.Scheduler.Notes.{failure_ttl}
use qoder_cpa.Scheduler.Chosen.{IsSort}
use qoder_cpa.Scheduler.Exclusion.{refused_not_picked}

-- An error of the executor that comes of a queue refusal is told to the host as one, and until the
-- cooldown that the refusal asks for is over, no pick for the model of the request names its account;
-- both are named, and no error of the executor's own lies around the refusal.
pub answer_error_excludes :
    (f : Float64) (sort : List Candidate → List Candidate) (lawful : IsSort sort)
    (sha256 : Text → Text) (codec : Codec) (env : Environment) (now t : ℤ) (draw : f.F)
    (req : ExecutorRequest) (next : PickRequest) (err : GoError) (e : StreamBusinessError)
    (s : State f.F)
    → first_own err.chain ≡ none
    → first_business err.chain ≡ some e
    → e.category ≡ cat_queue_unavailable
    → trim_space req.auth_id ≢ []
    → trim_space next.model ≢ []
    → req.model ≡ next.model
    → t ≤ℤ plus now (failure_ttl e.queue)
    → (scheduler_pick f sort t draw next (answer_error sha256 codec env now req err s).1).0.handled
      ≡ true
    → ((answer_error sha256 codec env now req err s).0.code ≡ cat_queue_unavailable)
      × ((scheduler_pick f sort t draw next
            (answer_error sha256 codec env now req err s).1).0.auth_id
          ≢ req.auth_id)
unfolding answer_error classify_executor_error
answer_error_excludes f sort lawful sha256 codec env now t draw req next err e s nothing_own refusal
      queue named modelled model early =
    rw (answer_error, classify_executor_error, noted, nothing_own, refusal, model)
      λ h. (
        queue,
        refused_not_picked f sort lawful now t draw next req.auth_id e s queue named modelled early
            h,
      )
