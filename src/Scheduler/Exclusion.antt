-- ===== src/Scheduler/Exclusion.antt =====
-- Whom scheduler.go leaves out: a queue refusal and an exhausted quota keep an account from being
-- picked for as long as they last, and no longer.
use qoder_cpa.Prelude.{
  ◌≡◌, ap, ◌∙◌, ◌≢◌, Bool, true, false, ◌&&◌, List, [], arith, Text, text_eq, text_beq_iff, ◌==◌,
  if◌then◌else◌, lookup-insert, trim_space, eq_self, ℤ, plus, leb_ℤ, ◌≤ℤ◌, sym,
}
use qoder_cpa.Stream.{business, StreamBusinessError, cat_queue_unavailable}
use qoder_cpa.Scheduler.State.{
  Float64, State, quota_ttl, cooldown_key, get_quota, set_quota, is_exhausted, set_cooldown,
  is_cooling_down,
}
use qoder_cpa.Scheduler.Select.{Candidate, PickRequest, scheduler_pick}
use qoder_cpa.Scheduler.Notes.{failure_ttl, note_scheduler_failure, note_quota_snapshot}
use qoder_cpa.Scheduler.Chosen.{IsSort}
use qoder_cpa.Scheduler.Pick.{scheduler_pick_sound}

module _ {F : Type 0} where
  -- A queue refusal puts the account in a cooldown for the model until the refusal's time has
  -- passed, and changes no other cooldown.
  pub is_cooling_down-note :
      (now t : ℤ) (a m b n : Text) (e : StreamBusinessError) (s : State F)
      → e.category ≡ cat_queue_unavailable
      → trim_space a ≢ []
      → trim_space m ≢ []
      → is_cooling_down t b n (note_scheduler_failure now a m (business e) s) ≡ (
          if cooldown_key a m == cooldown_key b n
          then leb_ℤ t (plus now (failure_ttl e.queue))
          else is_cooling_down t b n s)
  unfolding is_cooling_down note_scheduler_failure set_cooldown
  is_cooling_down-note now t a m b n e s queue named modelled = ground (
    arith,
    text_beq_iff e.category cat_queue_unavailable,
    text_beq_iff (trim_space a) [],
    text_beq_iff (trim_space m) [],
    lookup-insert (cooldown_key a m) (cooldown_key b n) (plus now (failure_ttl e.queue)) s.cooldown,
  )

  -- A quota snapshot decides for five minutes whether its account is exhausted; after that the
  -- account counts as not exhausted. No other account changes.
  pub is_exhausted-note :
      (now t : ℤ) (a b : Text) (remaining : F) (exhausted : Bool) (s : State F)
      → trim_space a ≢ []
      → is_exhausted t b (note_quota_snapshot now a remaining exhausted s)
        ≡ (if a == b then leb_ℤ t (plus now quota_ttl) && exhausted else is_exhausted t b s)
  unfolding is_exhausted get_quota note_quota_snapshot set_quota
  is_exhausted-note now t a b remaining exhausted s named = ground (
    arith,
    text_beq_iff (trim_space a) [],
    lookup-insert a b (record { remaining = remaining; exhausted = exhausted; obtained = now })
        s.quota,
  )

module _ (f : Float64) (sort : List Candidate → List Candidate) (lawful : IsSort sort) where
  -- After a queue refusal of an account for a model, no pick for that model names the account
  -- until the cooldown is over.
  pub refused_not_picked :
      (now t : ℤ) (draw : f.F) (req : PickRequest) (a : Text) (e : StreamBusinessError)
      (s : State f.F)
      → e.category ≡ cat_queue_unavailable
      → trim_space a ≢ []
      → trim_space req.model ≢ []
      → t ≤ℤ plus now (failure_ttl e.queue)
      → (scheduler_pick f sort t draw req
          (note_scheduler_failure now a req.model (business e) s)).0.handled
        ≡ true
      → (scheduler_pick f sort t draw req
          (note_scheduler_failure now a req.model (business e) s)).0.auth_id
        ≢ a
  refused_not_picked now t draw req a e s queue named modelled early h same =
      let s' = note_scheduler_failure now a req.model (business e) s in
      let (c, there, chosen, fit) = scheduler_pick_sound f sort lawful t draw req s' h in
      let cooling = is_cooling_down-note now t a req.model a req.model e s queue named modelled in
      let ready : is_cooling_down t a req.model s' ≡ false =
        ap (λ i. is_cooling_down t i req.model s') (sym same ∙ chosen) ∙ fit.ready in
      ground (arith, eq_self (cooldown_key a req.model))

  -- An account whose quota was found exhausted is not picked for five minutes.
  pub exhausted_not_picked :
      (now t : ℤ) (draw : f.F) (req : PickRequest) (a : Text) (remaining : f.F) (s : State f.F)
      → trim_space a ≢ []
      → t ≤ℤ plus now quota_ttl
      → (scheduler_pick f sort t draw req (note_quota_snapshot now a remaining true s)).0.handled
        ≡ true
      → (scheduler_pick f sort t draw req (note_quota_snapshot now a remaining true s)).0.auth_id
        ≢ a
  exhausted_not_picked now t draw req a remaining s named early h same =
      let s' = note_quota_snapshot now a remaining true s in
      let (c, there, chosen, fit) = scheduler_pick_sound f sort lawful t draw req s' h in
      let noted = is_exhausted-note now t a a remaining true s named in
      let funded : is_exhausted t a s' ≡ false =
        ap (λ i. is_exhausted t i s') (sym same ∙ chosen) ∙ fit.funded in
      ground (arith, eq_self a)
