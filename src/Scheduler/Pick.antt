-- ===== src/Scheduler/Pick.antt =====
-- What schedulerPick of scheduler.go promises: whom it picks, when it delegates, and how it ranks.
use qoder_cpa.Prelude.{
  ◌≡◌, refl, ◌≢◌, true, false, List, [], ◌∷◌, arith, Text, text_eq, text_beq_iff, trim_space, ℤ,
}
use qoder_cpa.Scheduler.State.{Float64, State, is_exhausted, is_cooling_down}
use qoder_cpa.Scheduler.Select.{
  plugin_id, Candidate, PickRequest, delegate, usable_candidates, own_candidates, derive_sticky_key,
  filter_unavailable, pick_among, eligible_candidates, scheduler_pick,
}
use qoder_cpa.Scheduler.Chosen.{
  Elem, IsEligible, IsSort, usable-Elem, own-Elem, filter-Elem, pick_among-Picks,
}

module _ (f : Float64) where
  -- The candidates that the scheduler chooses from are the eligible ones of the request.
  Elem-IsEligible :
      (now : ℤ) (req : PickRequest) (s : State f.F) (c : Candidate)
      → Elem c (eligible_candidates f now s req)
      → Elem c req.candidates × IsEligible now s req.model c
  Elem-IsEligible now req s c m =
      let (a, ready, funded) =
        filter-Elem now req.model s c (own_candidates (usable_candidates req.candidates)) m in
      let (b, own) = own-Elem c (usable_candidates req.candidates) a in
      let (there, named) = usable-Elem c req.candidates b in
      (there, record { named = named; own = own; ready = ready; funded = funded })

module _ (f : Float64) (sort : List Candidate → List Candidate) where
  -- The shape of schedulerPick: it delegates on no eligible candidate and chooses among any.
  pub scheduler_pick-none :
      (now : ℤ) (draw : f.F) (req : PickRequest) (s : State f.F)
      → eligible_candidates f now s req ≡ []
      → scheduler_pick f sort now draw req s ≡ (delegate, s)
  unfolding scheduler_pick filter_unavailable
  scheduler_pick-none now draw req s h = ground arith

  pub scheduler_pick-some :
      (now : ℤ) (draw : f.F) (req : PickRequest) (s : State f.F) {c : Candidate}
      {cs : List Candidate}
      → eligible_candidates f now s req ≡ c ∷ cs
      → scheduler_pick f sort now draw req s
        ≡ pick_among f sort now draw (derive_sticky_key req) (c ∷ cs) s
  unfolding scheduler_pick filter_unavailable
  scheduler_pick-some now draw req s h = ground arith

module _ (f : Float64) (sort : List Candidate → List Candidate) (lawful : IsSort sort) where
  -- A pick that the plugin handles names a candidate of the request that has an id, is the
  -- plugin's, is not in a queue cooldown for the model and is not known to be exhausted.
  pub scheduler_pick_sound :
      (now : ℤ) (draw : f.F) (req : PickRequest) (s : State f.F)
      → (scheduler_pick f sort now draw req s).0.handled ≡ true
      → (c : Candidate) × Elem c req.candidates
        × ((scheduler_pick f sort now draw req s).0.auth_id ≡ c.id)
        × IsEligible now s req.model c
  unfolding delegate
  scheduler_pick_sound now draw req s h = chosen (eligible_candidates f now s req) refl
    where
      chosen :
          (es : List Candidate)
          → eligible_candidates f now s req ≡ es
          → (c : Candidate) × Elem c req.candidates
            × ((scheduler_pick f sort now draw req s).0.auth_id ≡ c.id)
            × IsEligible now s req.model c
      chosen [] e = cc (rw (scheduler_pick-none f sort now draw req s e) at h)
      chosen (d ∷ es) e =
          let (ok, (c, there, same)) =
            pick_among-Picks f sort lawful now draw (derive_sticky_key req) d es s in
          let (asked, fit) = Elem-IsEligible f now req s c (rw e there) in
          (c, asked, rw (scheduler_pick-some f sort now draw req s e) same, fit)

Elem-usable :
    (c : Candidate) (cs : List Candidate)
    → Elem c cs
    → trim_space c.id ≢ []
    → Elem c (usable_candidates cs)
unfolding usable_candidates
Elem-usable c [] m h = elim m [ ]
Elem-usable c (d ∷ cs) m h = ground (arith, Elem-usable c cs, text_beq_iff (trim_space d.id) [])

Elem-own :
    (c : Candidate) (cs : List Candidate)
    → Elem c cs
    → c.provider ≡ plugin_id
    → Elem c (own_candidates cs)
unfolding own_candidates
Elem-own c [] m h = elim m [ ]
Elem-own c (d ∷ cs) m h = ground (arith, Elem-own c cs, text_beq_iff d.provider plugin_id)

Elem-filter :
    {F : Type 0} (now : ℤ) (model : Text) (s : State F) (c : Candidate) (cs : List Candidate)
    → Elem c cs
    → is_cooling_down now c.id model s ≡ false
    → is_exhausted now c.id s ≡ false
    → Elem c (filter_unavailable now model s cs)
unfolding filter_unavailable
Elem-filter now model s c [] m ready funded = elim m [ ]
Elem-filter now model s c (d ∷ cs) m ready funded = ground (arith, Elem-filter now model s c cs)

-- An eligible candidate of the request is among those that the scheduler chooses from.
pub Elem-eligible :
    (f : Float64) (now : ℤ) (req : PickRequest) (s : State f.F) (c : Candidate)
    → Elem c req.candidates
    → IsEligible now s req.model c
    → Elem c (eligible_candidates f now s req)
Elem-eligible f now req s c m fit =
    Elem-filter now req.model s c (own_candidates (usable_candidates req.candidates))
      (Elem-own c (usable_candidates req.candidates) (Elem-usable c req.candidates m fit.named)
        fit.own)
      fit.ready fit.funded

module _ (f : Float64) (sort : List Candidate → List Candidate) (lawful : IsSort sort) where
  -- A request with an eligible candidate is handled: the scheduler delegates only when every
  -- candidate is excluded.
  pub scheduler_pick_complete :
      (now : ℤ) (draw : f.F) (req : PickRequest) (s : State f.F) (c : Candidate)
      → Elem c req.candidates
      → IsEligible now s req.model c
      → (scheduler_pick f sort now draw req s).0.handled ≡ true
  scheduler_pick_complete now draw req s c m fit =
      handled (eligible_candidates f now s req) refl (Elem-eligible f now req s c m fit)
    where
      handled :
          (es : List Candidate)
          → eligible_candidates f now s req ≡ es
          → Elem c es
          → (scheduler_pick f sort now draw req s).0.handled ≡ true
      handled [] e there = elim there [ ]
      handled (d ∷ es) e there =
          rw (scheduler_pick-some f sort now draw req s e)
            (pick_among-Picks f sort lawful now draw (derive_sticky_key req) d es s).0
