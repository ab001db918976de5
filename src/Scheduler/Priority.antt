-- ===== src/Scheduler/Priority.antt =====
-- The last resort of scheduler.go: with no session and no quota known, the host's priority decides.
use qoder_cpa.Prelude.{◌≡◌, refl, true, List, [], ◌∷◌, none, inl, inr, arith, Text, ℤ, ◌≤ℤ◌, All}
use qoder_cpa.Scheduler.State.{Float64, State, get_quota}
use qoder_cpa.Scheduler.Select.{
  Candidate, PickRequest, delegate, pick, derive_sticky_key, weigh, draw_item, quota_weighted_pick,
  fallback_choice, weighted_or_priority, sticky_choice, pick_among, eligible_candidates,
  scheduler_pick,
}
use qoder_cpa.Scheduler.Chosen.{Elem, IsSort}
use qoder_cpa.Scheduler.Pick.{scheduler_pick-none, scheduler_pick-some}

All-Elem :
    (P : Candidate → Type 0) (cs : List Candidate) → ((c : Candidate) → Elem c cs → P c) → All P cs
All-Elem P [] h = tt
All-Elem P (c ∷ cs) h = (h c (inl refl), All-Elem P cs (λ d m. h d (inr m)))

weigh-unknown :
    (f : Float64) (now : ℤ) (s : State f.F) (cs : List Candidate)
    → All (λ c. get_quota now c.id s ≡ none) cs
    → weigh f now s cs ≡ []
unfolding weigh
weigh-unknown f now s [] h = refl
weigh-unknown f now s (c ∷ cs) h = ground (arith, weigh-unknown f now s cs)

-- The account is a candidate that none of the others outranks.
abbrev pub Outranks : Text → List Candidate → Type 0
Outranks id cs = (c : Candidate) × Elem c cs × (id ≡ c.id) × All (λ d. d.priority ≤ℤ c.priority) cs

module _ (f : Float64) (sort : List Candidate → List Candidate) (lawful : IsSort sort) where
  fallback-Outranks :
      (c : Candidate) (cs : List Candidate) → Outranks (fallback_choice f (sort (c ∷ cs))) (c ∷ cs)
  unfolding fallback_choice
  fallback-Outranks c cs = first (sort (c ∷ cs)) refl
    where
      first : (ds : List Candidate) → sort (c ∷ cs) ≡ ds → Outranks (fallback_choice f ds) (c ∷ cs)
      first [] e = absurd (rw e at (lawful.complete c (c ∷ cs) (inl refl)))
      first (d ∷ ds) e = (
        d,
        lawful.sound d (c ∷ cs) (rw e (inl refl)),
        refl,
        All-Elem (λ x. x.priority ≤ℤ d.priority) (c ∷ cs)
            (λ x m. lawful.descending d x (c ∷ cs) ds e (rw e at (lawful.complete x (c ∷ cs) m))),
      )

  pick_among-unknown :
      (now : ℤ) (draw : f.F) (c : Candidate) (cs : List Candidate) (s : State f.F)
      → All (λ d. get_quota now d.id s ≡ none) (c ∷ cs)
      → (pick_among f sort now draw none (c ∷ cs) s).0.auth_id ≡ fallback_choice f (sort (c ∷ cs))
  unfolding pick_among sticky_choice quota_weighted_pick draw_item weighted_or_priority pick
  pick_among-unknown now draw c cs s u = rw (weigh-unknown f now s (c ∷ cs) u)

  -- A request with no session key, no eligible candidate of which has a fresh quota snapshot, gets
  -- an eligible candidate of the highest priority.
  pub scheduler_pick_priority :
      (now : ℤ) (draw : f.F) (req : PickRequest) (s : State f.F)
      → derive_sticky_key req ≡ none
      → All (λ c. get_quota now c.id s ≡ none) (eligible_candidates f now s req)
      → (scheduler_pick f sort now draw req s).0.handled ≡ true
      → Outranks (scheduler_pick f sort now draw req s).0.auth_id (eligible_candidates f now s req)
  unfolding delegate
  scheduler_pick_priority now draw req s k unknown h = chosen (eligible_candidates f now s req) refl
    where
      chosen :
          (es : List Candidate)
          → eligible_candidates f now s req ≡ es
          → Outranks
              (scheduler_pick f sort now draw req s).0.auth_id
              (eligible_candidates f now s req)
      chosen [] e = cc (rw (scheduler_pick-none f sort now draw req s e) at h)
      chosen (d ∷ es) e =
          rw
            (
              scheduler_pick-some f sort now draw req s e,
              k,
              e,
              pick_among-unknown now draw d es s (rw e at unknown),
            )
            (fallback-Outranks d es)
