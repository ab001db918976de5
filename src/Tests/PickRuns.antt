-- ===== src/Tests/PickRuns.antt =====
-- Three accounts of the plugin and one of another provider.
use qoder_cpa.Prelude.{
  List, ℕ, ◌+◌, ◌-◌, ◌*◌, ◌/◌, ◌≡◌, refl, ◌≢◌, inl, inr, [], ◌∷◌, none, arith, Text, text_eq, codes,
  leb, nat_beq, max, lookup, insert, delete, trim_space, pos,
}
use qoder_cpa.Stream.{StreamBusinessError, cat_queue_unavailable}
use qoder_cpa.Lru
use qoder_cpa.Scheduler.State.{
  Float64, State, new_scheduler_state, get_quota, set_quota, is_exhausted, set_cooldown,
  is_cooling_down, sticky_get, sticky_set,
}
use qoder_cpa.Scheduler.Select.{
  Candidate, PickRequest, scheduler_pick, usable_candidates, own_candidates, filter_unavailable,
  derive_sticky_key, delegate, pick, find_candidate, bind_session, sticky_choice, weigh, draw_item,
  quota_weighted_pick, fallback_choice, weighted_or_priority, pick_among, sum_from, draw_from,
  header_value, metadata_value,
}
use qoder_cpa.Scheduler.Notes.{failure_ttl, note_scheduler_failure, note_quota_snapshot}
use qoder_cpa.Scheduler.Chosen.{Elem, IsEligible}
use qoder_cpa.Scheduler.Pick.{scheduler_pick_sound}
use qoder_cpa.Scheduler.Session.{IsWf}
use qoder_cpa.Scheduler.Between.{Later, picks_after, session_keeps_account}
use qoder_cpa.Auth.Provider.{Codec}
use qoder_cpa.Failure.{GoError, business, classify_executor_error}
use qoder_cpa.Executor.Service.{ExecutorRequest, Environment, unmade, answer_error}
use qoder_cpa.Executor.Service.Excluded.{answer_error_excludes}
use qoder_cpa.Lru.Refine.{new_lru_map-Holds}
use qoder_cpa.Tests.Sorting.{by_priority, by_priority-IsSort}

-- Thousandths in place of float64.
abbrev pub milli : Float64
milli = record {
  F = ℕ;
  zero_f = 0;
  epsilon = 100;
  add = ◌+◌;
  sub = ◌-◌;
  mul = λ a b. a * b / 1000;
  max_f = max;
  le = leb;
  eq = nat_beq;
}

program : Unit {0}
unfolding new_scheduler_state get_quota set_quota is_exhausted set_cooldown is_cooling_down
    sticky_get sticky_set scheduler_pick usable_candidates own_candidates filter_unavailable
    derive_sticky_key delegate pick find_candidate bind_session sticky_choice weigh draw_item
    quota_weighted_pick fallback_choice weighted_or_priority pick_among sum_from draw_from
    header_value metadata_value picks_after failure_ttl note_scheduler_failure note_quota_snapshot
    by_priority lookup insert delete trim_space classify_executor_error answer_error Lru.new_lru_map
    Lru.get Lru.set Lru.touch Lru.evict_oldest Lru.reindex
program = tt

abbrev account : Text → ℕ → Candidate
account id priority = record { id = id; provider = codes "qoder"; priority = pos priority }

abbrev low : Candidate
low = account (codes "low") 1

abbrev high : Candidate
high = account (codes "high") 9

abbrev foreign : Candidate
foreign = record { id = codes "x"; provider = codes "claude"; priority = pos 50 }

abbrev request : PickRequest
request = record {
  candidates = low ∷ foreign ∷ high ∷ [];
  model = codes "auto";
  headers = [];
  metadata = [];
}

abbrev in_session : PickRequest
in_session = record request { headers = (codes "x-session-id", codes "s1" ∷ []) ∷ [] }

abbrev fresh : State ℕ
fresh = new_scheduler_state ℕ

by_rank : (scheduler_pick milli by_priority (pos 5) 0 request fresh).0 ≡ pick (codes "high")
unfolding program
by_rank = refl

low-IsEligible : IsEligible {F = ℕ} (pos 5) fresh (codes "auto") low
unfolding program
low-IsEligible = record { named = λ e. cc; own = refl; ready = refl; funded = refl }

scheduler_pick_sound_example :
    (c : Candidate) × Elem c request.candidates
    × ((scheduler_pick milli by_priority (pos 5) 0 request fresh).0.auth_id ≡ c.id)
    × IsEligible (pos 5) fresh request.model c
unfolding program
scheduler_pick_sound_example =
    scheduler_pick_sound milli by_priority by_priority-IsSort (pos 5) 0 request fresh refl

fresh-IsWf : IsWf fresh
unfolding new_scheduler_state
fresh-IsWf = ([], new_lru_map-Holds 1024)

-- What the first pick of the session leaves behind.
abbrev bound : State ℕ
bound = (scheduler_pick milli by_priority (pos 5) 0 in_session fresh).1

-- Another session and one pick without a session come in between.
abbrev between : List (Later ℕ)
between =
    record {
      now = pos 6;
      draw = 3;
      req = record request { headers = (codes "x-session-id", codes "s" ∷ []) ∷ [] };
    }
    ∷ record { now = pos 7; draw = 4; req = request }
    ∷ []

abbrev last : Later ℕ
last = record { now = pos 9; draw = 700; req = in_session }

high-IsEligible :
    IsEligible {F = ℕ} (pos 9) (picks_after milli by_priority between bound) (codes "auto") high
unfolding program
high-IsEligible = record { named = λ e. cc; own = refl; ready = refl; funded = refl }

session_keeps_account_example :
    (scheduler_pick milli by_priority
      (pos 9)
      700
      in_session
      (picks_after milli by_priority between bound)).0.auth_id
    ≡ (scheduler_pick milli by_priority (pos 5) 0 in_session fresh).0.auth_id
unfolding program
session_keeps_account_example =
    session_keeps_account milli by_priority (pos 5) 0 in_session fresh (codes "sess:s1") between
      last high fresh-IsWf refl refl (λ e. cc, (λ e. cc, tt)) (omega arith) refl refl
      (inr (inr (inl refl))) high-IsEligible

abbrev queue_error : StreamBusinessError
queue_error = record {
  error_code = pos 10605;
  category = cat_queue_unavailable;
  reset_at = [];
  outer_code = pos 0;
  queue = none;
}

abbrev refusal : GoError
refusal = record { text = codes "queued"; chain = business queue_error ∷ [] }

abbrev codec : Codec
codec = record { encode = λ s. none; decode = λ raw. none }

abbrev env : Environment
env = record {
  client_error = λ callback. none;
  factory = λ cred resolve. unmade refusal;
  business_text = λ e. e.category;
  quoted = λ v. v;
}

abbrev executed : ExecutorRequest
executed = record {
  format = codes "openai";
  auth_provider = codes "qoder";
  auth_id = codes "high";
  model = codes "auto";
  storage_json = codes "{}";
  payload = codes "{}";
  x_request_id = [];
  x_session_id = [];
  stream_id = codes "s";
  host_callback_id = [];
}

answer_error_excludes_example :
    (cat_queue_unavailable ≡ cat_queue_unavailable) × (codes "low" ≢ codes "high")
unfolding program
answer_error_excludes_example =
    answer_error_excludes milli by_priority by_priority-IsSort (λ s. s) codec env (pos 5) (pos 60) 0
      executed request refusal queue_error fresh refl refl refl (λ e. cc) (λ e. cc) refl
      (omega arith) refl
