-- ===== src/Scheduler/Chosen.antt =====
-- The choices inside schedulerPick of scheduler.go: what each stage of it can answer.
use qoder_cpa.Prelude.{
  ◌≡◌, refl, ◌≢◌, ◌⊎◌, true, false, List, [], ◌∷◌, Option, none, some, inl, inr, arith, Text,
  text_eq, text_beq_iff, trim_space, ℤ, ◌≤ℤ◌, Option-cases,
}
use qoder_cpa.Scheduler.State.{Float64, State, get_quota, is_exhausted, is_cooling_down, sticky_get}
use qoder_cpa.Scheduler.Select.{
  plugin_id, Candidate, PickResponse, pick, usable_candidates, own_candidates, find_candidate,
  filter_unavailable, sticky_choice, weigh, draw_item, quota_weighted_pick, fallback_choice,
  weighted_or_priority, pick_among, draw_from, sum_from,
}

-- The element is in the list.
abbrev pub Elem : {A : Type 0} → A → List A → Type 0
Elem a [] = ⊥
Elem a (x ∷ xs) = (a ≡ x) ⊎ Elem a xs

-- An account with this id is among the candidates.
abbrev pub Names : Text → List Candidate → Type 0
Names id cs = (c : Candidate) × Elem c cs × (id ≡ c.id)

abbrev IdOf : {F : Type 0} → Text → List (Text × F) → Type 0
IdOf x [] = ⊥
IdOf x ((id, w) ∷ items) = (x ≡ id) ⊎ IdOf x items

-- What an account must be to be chosen.
pub record IsEligible {F : Type 0} (now : ℤ) (s : State F) (model : Text) (c : Candidate)
    : Type 0 where
  pub named : trim_space c.id ≢ []
  pub own : c.provider ≡ plugin_id
  pub ready : is_cooling_down now c.id model s ≡ false
  pub funded : is_exhausted now c.id s ≡ false

pub usable-Elem :
    (c : Candidate) (cs : List Candidate)
    → Elem c (usable_candidates cs)
    → Elem c cs × (trim_space c.id ≢ [])
unfolding usable_candidates
usable-Elem c [] m = elim m [ ]
usable-Elem c (d ∷ cs) m = ground (arith, usable-Elem c cs, text_beq_iff (trim_space d.id) [])

pub own-Elem :
    (c : Candidate) (cs : List Candidate)
    → Elem c (own_candidates cs)
    → Elem c cs × (c.provider ≡ plugin_id)
unfolding own_candidates
own-Elem c [] m = elim m [ ]
own-Elem c (d ∷ cs) m = ground (arith, own-Elem c cs, text_beq_iff d.provider plugin_id)

module _ {F : Type 0} (now : ℤ) (model : Text) (s : State F) where
  pub filter-Elem :
      (c : Candidate) (cs : List Candidate)
      → Elem c (filter_unavailable now model s cs)
      → Elem c cs × (is_cooling_down now c.id model s ≡ false) × (is_exhausted now c.id s ≡ false)
  unfolding filter_unavailable
  filter-Elem c [] m = elim m [ ]
  filter-Elem c (d ∷ cs) m = ground (arith, filter-Elem c cs)

pub find-Elem :
    (cs : List Candidate) (id : Text) {c : Candidate}
    → find_candidate cs id ≡ some c
    → Elem c cs × (c.id ≡ id)
unfolding find_candidate
find-Elem [] id h = cc
find-Elem (d ∷ cs) id {c} h = ground (arith, find-Elem cs id {c = c}, text_beq_iff d.id id)

module _ (f : Float64) where
  draw_from-IdOf :
      (r : f.F) (last : Text) (items : List (Text × f.F))
      → (draw_from f r last items ≡ last) ⊎ IdOf (draw_from f r last items) items
  unfolding draw_from
  draw_from-IdOf r last [] = inl refl
  draw_from-IdOf r last ((id, w) ∷ items) = ground (arith, draw_from-IdOf (f.sub r w) id items)

  draw_item-IdOf :
      (draw : f.F) (items : List (Text × f.F))
      → draw_item f draw items ≢ []
      → IdOf (draw_item f draw items) items
  unfolding draw_item draw_from
  draw_item-IdOf draw [] h = absurd (h refl)
  draw_item-IdOf draw ((id, w) ∷ items) h = ground (
    arith,
    draw_from-IdOf (f.sub (f.mul draw (sum_from f f.zero_f ((id, w) ∷ items))) w) id items,
  )

  -- Only accounts with a fresh snapshot are weighed.
  pub weigh-Names :
      (now : ℤ) (s : State f.F) (id : Text) (cs : List Candidate)
      → IdOf id (weigh f now s cs)
      → Names id cs
  unfolding weigh
  weigh-Names now s id [] m = elim m [ ]
  weigh-Names now s id (c ∷ cs) m = elim (Option-cases (get_quota now c.id s)) [
    | inl unknown ↦ skipped (weigh-Names now s id cs (rw (unknown, weigh) at m))
    | inr (snap, known) ↦ weighed (weigh-Names now s id cs) (ground arith)
  ]
    where
      skipped : Names id cs → Names id (c ∷ cs)
      skipped (d, there, e) = (d, inr there, e)

      weighed :
          (IdOf id (weigh f now s cs) → Names id cs)
          → (id ≡ c.id) ⊎ IdOf id (weigh f now s cs)
          → Names id (c ∷ cs)
      weighed rest (inl e) = (c, inl refl, e)
      weighed rest (inr there) = skipped (rest there)

-- What sort.Slice by descending priority does to a list, as far as the scheduler relies on it.
pub record IsSort (sort : List Candidate → List Candidate) : Type 0 where
  pub sound : (c : Candidate) (cs : List Candidate) → Elem c (sort cs) → Elem c cs
  pub complete : (c : Candidate) (cs : List Candidate) → Elem c cs → Elem c (sort cs)
  pub descending :
      (c d : Candidate) (cs ds : List Candidate)
      → sort cs ≡ c ∷ ds
      → Elem d (c ∷ ds)
      → d.priority ≤ℤ c.priority

-- A response that picks one of the candidates.
abbrev pub Picks : PickResponse → List Candidate → Type 0
Picks resp cs = (resp.handled ≡ true) × Names resp.auth_id cs

module _ (f : Float64) (sort : List Candidate → List Candidate) (lawful : IsSort sort) where
  pub fallback-Names :
      (c : Candidate) (cs : List Candidate) → Names (fallback_choice f (sort (c ∷ cs))) (c ∷ cs)
  unfolding fallback_choice
  fallback-Names c cs = first (sort (c ∷ cs)) refl
    where
      first : (ds : List Candidate) → sort (c ∷ cs) ≡ ds → Names (fallback_choice f ds) (c ∷ cs)
      first [] e = absurd (rw e at (lawful.complete c (c ∷ cs) (inl refl)))
      first (d ∷ ds) e = (d, lawful.sound d (c ∷ cs) (rw e (inl refl)), refl)

  weighted_or_priority-Picks :
      (key : Option Text) (c : Candidate) (cs : List Candidate) (chosen : Text) (s : State f.F)
      → (chosen ≢ [] → Names chosen (c ∷ cs))
      → Picks (weighted_or_priority f sort key (c ∷ cs) chosen s).0 (c ∷ cs)
  unfolding weighted_or_priority pick
  weighted_or_priority-Picks key c cs [] s named = (refl, fallback-Names c cs)
  weighted_or_priority-Picks key c cs (x ∷ chosen) s named = (refl, named (λ e. cc))

  pub weighted-Names :
      (now : ℤ) (draw : f.F) (s : State f.F) (cs : List Candidate)
      → quota_weighted_pick f now draw s cs ≢ []
      → Names (quota_weighted_pick f now draw s cs) cs
  unfolding quota_weighted_pick
  weighted-Names now draw s cs h =
      weigh-Names f now s (draw_item f draw (weigh f now s cs)) cs
        (draw_item-IdOf f draw (weigh f now s cs) h)

  pub sticky-Elem :
      (key : Option Text) (cs : List Candidate) (s : State f.F) {c : Candidate}
      → (sticky_choice key cs s).0 ≡ some c
      → Elem c cs
  unfolding sticky_choice
  sticky-Elem none cs s h = cc
  sticky-Elem (some key) cs s {c} h = elim (Option-cases (sticky_get key s).0) [
    | inl unbound ↦ ground arith
    | inr (id, bound) ↦ ground (arith, find-Elem cs id {c = c})
  ]

  pub pick_among-Picks :
      (now : ℤ) (draw : f.F) (key : Option Text) (c : Candidate) (cs : List Candidate)
      (s : State f.F)
      → Picks (pick_among f sort now draw key (c ∷ cs) s).0 (c ∷ cs)
  unfolding pick_among pick
  pick_among-Picks now draw key c cs s = elim (Option-cases (sticky_choice key (c ∷ cs) s).0) [
    | inl unbound ↦
        let s' = (sticky_choice key (c ∷ cs) s).1 in
        rw (pick_among, unbound)
          (weighted_or_priority-Picks key c cs (quota_weighted_pick f now draw s' (c ∷ cs)) s'
            (weighted-Names now draw s' (c ∷ cs)))
    | inr (d, bound) ↦ rw (pick_among, bound) (refl, (d, sticky-Elem key (c ∷ cs) s bound, refl))
  ]
