-- ===== src/Executor/Aggregate/Content.antt =====
-- The text of the answer that aggregateChat (executor_aggregate.go) puts together.
use qoder_cpa.Prelude.{
  List, [], ◌∷◌, ◌++◌, Option, none, some, Text, text_eq, ◌==◌, codes, if◌then◌else◌, ◌≡◌, refl,
  sym, ap, ◌∙◌, append_assoc, append-nil, arith, inl, inr, Bool-cases, Option-cases, ℤ, subst,
}
use qoder_cpa.Stream.{Read, chunk, fail}
use qoder_cpa.Executor.{AggregateChoice, AggregateChunk, AggregateUsage, ChunkDecoder}
use qoder_cpa.Executor.Aggregate.{
  Result, Aggregate, Outcome, answered, refused, new_aggregate, apply_choice, apply_choices,
  apply_aggregate_chunk, with_name, with_usage, finish_aggregate, aggregate_payload, aggregate_from,
  aggregate_chat,
}

-- The chunks of a stream up to its end mark.
unfoldable pub events_of : ChunkDecoder → List Read → List AggregateChunk
events_of dec [] = []
events_of dec (fail err ∷ reads) = []
events_of dec (chunk raw ∷ reads) =
    let rest = events_of dec reads in
    if aggregate_payload raw == codes "[DONE]"
    then []
    else elim (dec.aggregate (aggregate_payload raw)) [ none ↦ [] | some ev ↦ ev ∷ rest ]

abbrev pub choices_content : List AggregateChoice → Text
choices_content [] = []
choices_content (c ∷ cs) = c.delta.content ++ choices_content cs

abbrev pub choices_reasoning : List AggregateChoice → Text
choices_reasoning [] = []
choices_reasoning (c ∷ cs) = c.delta.reasoning ++ choices_reasoning cs

abbrev pub all_content : List AggregateChunk → Text
all_content [] = []
all_content (ev ∷ evs) = choices_content ev.choices ++ all_content evs

abbrev pub all_reasoning : List AggregateChunk → Text
all_reasoning [] = []
all_reasoning (ev ∷ evs) = choices_reasoning ev.choices ++ all_reasoning evs

-- An answer that goes on from two texts with those of the chunks.
abbrev Says : Text → Text → Result → Type 0
Says content reasoning r = (r.content ≡ content) × (r.reasoning ≡ reasoning)

apply_choices-Says :
    (cs : List AggregateChoice) (a : Aggregate)
    → Says
        (a.result.content ++ choices_content cs)
        (a.result.reasoning ++ choices_reasoning cs)
        (apply_choices cs a).result
unfolding apply_choices apply_choice
apply_choices-Says [] a = (sym (append-nil a.result.content), sym (append-nil a.result.reasoning))
apply_choices-Says (c ∷ cs) a =
    let (content, reasoning) = apply_choices-Says cs (apply_choice c a) in
    (
      content ∙ append_assoc a.result.content c.delta.content (choices_content cs),
      reasoning ∙ append_assoc a.result.reasoning c.delta.reasoning (choices_reasoning cs),
    )

with_usage-Says :
    (u : Option AggregateUsage) (r : Result) → Says r.content r.reasoning (with_usage u r)
with_usage-Says none r = (refl, refl)
with_usage-Says (some u) r = (refl, refl)

with_name-Says : (ev : AggregateChunk) (r : Result) → Says r.content r.reasoning (with_name ev r)
with_name-Says ev r = elim (Bool-cases (r.id == [])) [
  | inl unnamed ↦ ground arith
  | inr named ↦ ground arith
]

apply_aggregate_chunk-Says :
    (ev : AggregateChunk) (a : Aggregate)
    → Says
        (a.result.content ++ choices_content ev.choices)
        (a.result.reasoning ++ choices_reasoning ev.choices)
        (apply_aggregate_chunk ev a).result
unfolding apply_aggregate_chunk
apply_aggregate_chunk-Says ev a =
    let r = with_name ev a.result in
    let (c1, r1) = with_usage-Says ev.usage r in
    let (c2, r2) = with_name-Says ev a.result in
    let (content, reasoning) =
      apply_choices-Says ev.choices (record a { result = with_usage ev.usage r }) in
    (
      content ∙ ap (λ t. t ++ choices_content ev.choices) (c1 ∙ c2),
      reasoning ∙ ap (λ t. t ++ choices_reasoning ev.choices) (r1 ∙ r2),
    )

-- What an outcome with an answer says.
abbrev OutcomeSays : Text → Text → Outcome → Type 0
OutcomeSays content reasoning (answered r) = Says content reasoning r
OutcomeSays content reasoning (refused err) = Unit

module _ (dec : ChunkDecoder) (input : ℤ) where
  -- From an aggregate on, over the chunks of the reads.
  abbrev Goal : List AggregateChunk → Aggregate → Outcome → Type 0
  Goal evs a out =
      OutcomeSays (a.result.content ++ all_content evs) (a.result.reasoning ++ all_reasoning evs)
        out

  finish-Goal : (a : Aggregate) → Goal [] a (answered (finish_aggregate input a))
  unfolding finish_aggregate
  finish-Goal a = (sym (append-nil a.result.content), sym (append-nil a.result.reasoning))

  next-Goal :
      (ev : AggregateChunk) (evs : List AggregateChunk) (a : Aggregate) (out : Outcome)
      → Goal evs (apply_aggregate_chunk ev a) out
      → Goal (ev ∷ evs) a out
  next-Goal ev evs a (refused err) goal = tt
  next-Goal ev evs a (answered r) (content, reasoning) =
      let (c, s) = apply_aggregate_chunk-Says ev a in
      (
        content
            ∙ ap (λ t. t ++ all_content evs) c
            ∙ append_assoc a.result.content (choices_content ev.choices) (all_content evs),
        reasoning
            ∙ ap (λ t. t ++ all_reasoning evs) s
            ∙ append_assoc a.result.reasoning (choices_reasoning ev.choices) (all_reasoning evs),
      )

  aggregate_from-Goal :
      (reads : List Read) (a : Aggregate)
      → Goal (events_of dec reads) a (aggregate_from dec input reads a)
  unfolding aggregate_from events_of
  aggregate_from-Goal [] a = tt
  aggregate_from-Goal (fail err ∷ reads) a = ground arith
  aggregate_from-Goal (chunk raw ∷ reads) a =
      elim (Bool-cases (aggregate_payload raw == codes "[DONE]")) [
        | inl over ↦ rw (aggregate_from, events_of, over) (finish-Goal a)
        | inr more ↦ elim (Option-cases (dec.aggregate (aggregate_payload raw))) [
          | inl bad ↦ rw (aggregate_from, events_of, more, bad) tt
          | inr (ev, good) ↦
              rw (aggregate_from, events_of, more, good)
                (next-Goal ev (events_of dec reads) a _
                  (aggregate_from-Goal reads (apply_aggregate_chunk ev a)))
        ]
      ]

  -- An answer of aggregateChat carries the content and the reasoning of all chunks up to the end mark,
  -- in order and whole.
  pub aggregate_chat_text :
      (reads : List Read) (r : Result)
      → aggregate_chat dec input reads ≡ answered r
      → (r.content ≡ all_content (events_of dec reads))
        × (r.reasoning ≡ all_reasoning (events_of dec reads))
  unfolding aggregate_chat new_aggregate
  aggregate_chat_text reads r done =
      subst (OutcomeSays (all_content (events_of dec reads)) (all_reasoning (events_of dec reads)))
        done (aggregate_from-Goal reads new_aggregate)
