-- ===== src/Scheduler/Session.antt =====
-- Session affinity of scheduler.go: what a pick binds to its session, and that it follows the binding.
use qoder_cpa.Prelude.{
  ◌≡◌, List, [], ◌∷◌, some, inl, inr, arith, Text, text_eq, text_beq_iff, ◌==◌, ℤ, Bool-cases,
  eq→path,
}
use qoder_cpa.Lru.Spec.{Entries}
use qoder_cpa.Lru.Holds.{Holds}
use qoder_cpa.Scheduler.State.{Float64, State, sticky_get, sticky_set}
use qoder_cpa.Scheduler.Select.{
  Candidate, pick, find_candidate, bind_session, sticky_choice, weighted_or_priority, pick_among,
}
use qoder_cpa.Scheduler.Chosen.{Elem}

-- The session bindings are a list of bindings in order of use.
abbrev pub IsWf : {F : Type 0} → State F → Type 0
IsWf s = (es : Entries) × Holds s.sticky es

Elem-find :
    (cs : List Candidate) (c : Candidate)
    → Elem c cs
    → (d : Candidate) × (find_candidate cs c.id ≡ some d) × (d.id ≡ c.id)
unfolding find_candidate
Elem-find [] c m = elim m [ ]
Elem-find (x ∷ cs) c m = elim (Bool-cases (x.id == c.id)) [
  | inl same ↦ (x, rw same, eq→path x.id c.id same)
  | inr other ↦ rw other (Elem-find cs c (ground (arith, text_beq_iff x.id c.id)))
]

module _ (f : Float64) (sort : List Candidate → List Candidate) where
  -- With a session key, the account that is picked is the one that is bound.
  pub pick_among-binds :
      (now : ℤ) (draw : f.F) (key : Text) (cs : List Candidate) (s : State f.F)
      → (pick_among f sort now draw (some key) cs s).1
        ≡ sticky_set key (pick_among f sort now draw (some key) cs s).0.auth_id (sticky_get key s).1
  unfolding pick_among weighted_or_priority sticky_choice bind_session pick
  pick_among-binds now draw key cs s = ground arith

  -- The account that is bound to the session is picked, if it is among the candidates.
  pub pick_among-follows :
      (now : ℤ) (draw : f.F) (key : Text) (cs : List Candidate) (s : State f.F) (c : Candidate)
      → (sticky_get key s).0 ≡ some c.id
      → Elem c cs
      → (pick_among f sort now draw (some key) cs s).0.auth_id ≡ c.id
  unfolding pick_among sticky_choice pick
  pick_among-follows now draw key cs s c bound there =
      let (d, found, same) = Elem-find cs c there in ground arith
