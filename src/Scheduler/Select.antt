-- ===== src/Scheduler/Select.antt =====
-- schedulerPick of scheduler.go and its helpers.
use qoder_cpa.Prelude.{
  Bool, true, false, ◌||◌, List, [], ◌∷◌, ◌++◌, Option, none, some, Text, text_eq, ◌==◌, codes,
  if◌then◌else◌, lookup, trim_space, ℤ,
}
use qoder_cpa.Scheduler.State.{
  Float64, State, get_quota, is_exhausted, is_cooling_down, sticky_get, sticky_set,
}

abbrev pub plugin_id : Text
plugin_id = codes "qoder"

pub record Candidate : Type 0 where
  pub id : Text
  pub provider : Text
  pub priority : ℤ

-- A value of the request's metadata, of which only texts are read.
pub data Meta : Type 0 where
  text : Text → Meta
  other : Meta

pub record PickRequest : Type 0 where
  pub candidates : List Candidate
  pub model : Text
  pub headers : List (Text × List Text)
  pub metadata : List (Text × Meta)

pub record PickResponse : Type 0 where
  pub auth_id : Text
  pub handled : Bool

unfoldable pub delegate : PickResponse
delegate = record { auth_id = []; handled = false }

unfoldable pub pick : Text → PickResponse
pick auth_id = record { auth_id = auth_id; handled = true }

unfoldable pub usable_candidates : List Candidate → List Candidate
usable_candidates [] = []
usable_candidates (c ∷ cs) =
    if trim_space c.id == [] then usable_candidates cs else c ∷ usable_candidates cs

unfoldable pub own_candidates : List Candidate → List Candidate
own_candidates [] = []
own_candidates (c ∷ cs) =
    if c.provider == plugin_id then c ∷ own_candidates cs else own_candidates cs

unfoldable pub find_candidate : List Candidate → Text → Option Candidate
find_candidate [] auth_id = none
find_candidate (c ∷ cs) auth_id = if c.id == auth_id then some c else find_candidate cs auth_id

-- The first value of a header, if it is not empty.
unfoldable pub header_value : Text → List (Text × List Text) → Option Text
header_value name headers = elim (lookup name headers) [
  | none ↦ none
  | some [] ↦ none
  | some (v ∷ vs) ↦ if v == [] then none else some v
]

unfoldable pub metadata_value : Text → List (Text × Meta) → Option Text
metadata_value name metadata = elim (lookup name metadata) [
  | some (text v) ↦ if v == [] then none else some v
  | _ ↦ none
]

unfoldable pub derive_sticky_key : PickRequest → Option Text
unfolding header_value metadata_value
derive_sticky_key req = elim (header_value (codes "X-Conversation-ID") req.headers) [
  | some v ↦ some (codes "conv:" ++ v)
  | none ↦ elim (header_value (codes "x-session-id") req.headers) [
    | some v ↦ some (codes "sess:" ++ v)
    | none ↦ elim (metadata_value (codes "conversation_id") req.metadata) [
      | some v ↦ some (codes "conv:" ++ v)
      | none ↦ none
    ]
  ]
]

module _ {F : Type 0} where
  unfoldable pub filter_unavailable : ℤ → Text → State F → List Candidate → List Candidate
  filter_unavailable now model s [] = []
  filter_unavailable now model s (c ∷ cs) =
      if is_cooling_down now c.id model s || is_exhausted now c.id s
      then filter_unavailable now model s cs
      else c ∷ filter_unavailable now model s cs

  -- Binds the session, if it has a key.
  unfoldable pub bind_session : Option Text → Text → State F → State F
  bind_session none auth_id s = s
  bind_session (some key) auth_id s = sticky_set key auth_id s

  -- The session's account, if it is among the candidates, and the state after the look.
  unfoldable pub sticky_choice : Option Text → List Candidate → State F → Option Candidate × State F
  sticky_choice none eligible s = (none, s)
  sticky_choice (some key) eligible s =
      let (found, s') = sticky_get key s in
      elim found [ none ↦ (none, s') | some auth_id ↦ (find_candidate eligible auth_id, s') ]

module _ (f : Float64) where
  -- The candidates with a fresh snapshot, with their weights.
  unfoldable pub weigh : ℤ → State f.F → List Candidate → List (Text × f.F)
  weigh now s [] = []
  weigh now s (c ∷ cs) =
      let rest = weigh now s cs in
      elim (get_quota now c.id s) [
        | none ↦ rest
        | some snap ↦ (c.id, f.add (f.max_f snap.remaining f.zero_f) f.epsilon) ∷ rest
      ]

  unfoldable pub sum_from : f.F → List (Text × f.F) → f.F
  sum_from total [] = total
  sum_from total ((id, w) ∷ items) = sum_from (f.add total w) items

  -- The loop that takes the weights off; past its end the last item is the answer.
  unfoldable pub draw_from : f.F → Text → List (Text × f.F) → Text
  draw_from r last [] = last
  draw_from r last ((id, w) ∷ items) =
      let rest = draw_from (f.sub r w) id items in if f.le (f.sub r w) f.zero_f then id else rest

  -- `draw` is the random number, from 0 up to 1.
  unfoldable pub draw_item : f.F → List (Text × f.F) → Text
  unfolding sum_from draw_from
  draw_item draw [] = []
  draw_item draw (item ∷ items) =
      let total = sum_from f.zero_f (item ∷ items) in
      if f.eq total f.zero_f then [] else draw_from (f.mul draw total) [] (item ∷ items)

  unfoldable pub quota_weighted_pick : ℤ → f.F → State f.F → List Candidate → Text
  unfolding draw_item
  quota_weighted_pick now draw s candidates = draw_item draw (weigh now s candidates)

  -- The priority fallback: the first of the candidates that `sort` ordered.
  unfoldable pub fallback_choice : List Candidate → Text
  fallback_choice [] = []
  fallback_choice (c ∷ cs) = c.id

  unfoldable pub weighted_or_priority :
      (List Candidate → List Candidate)
      → Option Text
      → List Candidate
      → Text
      → State f.F
      → PickResponse × State f.F
  unfolding fallback_choice
  weighted_or_priority sort key eligible chosen s =
      let best = fallback_choice (sort eligible) in
      if chosen == []
      then (pick best, bind_session key best s)
      else (pick chosen, bind_session key chosen s)

  unfoldable pub pick_among :
      (List Candidate → List Candidate)
      → ℤ
      → f.F
      → Option Text
      → List Candidate
      → State f.F
      → PickResponse × State f.F
  unfolding weighted_or_priority
  pick_among sort now draw key eligible s =
      let (found, s') = sticky_choice key eligible s in
      elim found [
        | some c ↦ (pick c.id, bind_session key c.id s')
        | none ↦
            weighted_or_priority sort key eligible (quota_weighted_pick now draw s' eligible) s'
      ]

  abbrev pub eligible_candidates : ℤ → State f.F → PickRequest → List Candidate
  eligible_candidates now s req =
      filter_unavailable now req.model s (own_candidates (usable_candidates req.candidates))

  -- `sort` is sort.Slice by descending priority, whose order of equals is its own.
  unfoldable pub scheduler_pick :
      (List Candidate → List Candidate)
      → ℤ
      → f.F
      → PickRequest
      → State f.F
      → PickResponse × State f.F
  unfolding pick_among
  scheduler_pick sort now draw req s = elim (own_candidates (usable_candidates req.candidates)) [
    | [] ↦ (delegate, s)
    | c ∷ cs ↦ elim (filter_unavailable now req.model s (c ∷ cs)) [
      | [] ↦ (delegate, s)
      | d ∷ ds ↦ pick_among sort now draw (derive_sticky_key req) (d ∷ ds) s
    ]
  ]
