-- ===== src/Classify/Queue.antt =====
-- What extractQueue of internal/qodertransport/qoderstream/classify.go finds in nested payloads.
use qoder_cpa.Prelude.{
  ℕ, zero, suc, Bool, true, false, ◌||◌, List, [], ◌∷◌, none, some, Text, ◌≡◌, refl, Option-cases,
  List-cases, inl, inr, if◌then◌else◌,
}
use qoder_cpa.Stream.{QueuePayload}
use qoder_cpa.Classify.{
  Probe, Decoder, descend_json, no_queue, merge_queue, found_queue, extract_levels, extract_queue,
}

-- The levels that are read, from the outermost in: each is decoded from the object that the one
-- before it descends to, and there are `n` at most.
unfoldable pub levels : Decoder → ℕ → Text → List Probe
levels dec zero current = []
levels dec (suc n) current = elim (dec.probe current) [
  | none ↦ []
  | some p ↦ elim (descend_json dec (p.body ∷ p.message ∷ p.payload ∷ [])) [
    | [] ↦ p ∷ []
    | c ∷ next ↦ p ∷ levels dec n (c ∷ next)
  ]
]

unfoldable pub merge_all : List Probe → QueuePayload → QueuePayload
merge_all [] q = q
merge_all (p ∷ ps) q = merge_all ps (merge_queue p q)

unfoldable pub any_found : List Probe → Bool
any_found [] = false
any_found (p ∷ ps) = found_queue p || any_found ps

or_assoc : (a b c : Bool) → ((a || b) || c) ≡ (a || (b || c))
or_assoc true b c = refl
or_assoc false b c = refl

or_false : (a : Bool) → (a || false) ≡ a
or_false true = refl
or_false false = refl

extract_levels-merge :
    (dec : Decoder) (n : ℕ) (current : Text) (q : QueuePayload) (found : Bool)
    → extract_levels dec n current q found
      ≡ (merge_all (levels dec n current) q, found || any_found (levels dec n current))
unfolding extract_levels levels merge_all any_found
extract_levels-merge dec zero current q found = rw (or_false found) refl
extract_levels-merge dec (suc n) current q found = elim (Option-cases (dec.probe current)) [
  | inl bad ↦ rw (extract_levels, levels, bad, or_false found) refl
  | inr (p, good) ↦ elim (List-cases (descend_json dec (p.body ∷ p.message ∷ p.payload ∷ []))) [
    | inl flat ↦ rw (extract_levels, levels, good, flat, or_false (found_queue p)) refl
    | inr (c, next, deep) ↦
        rw
          (
            extract_levels,
            levels,
            good,
            deep,
            extract_levels-merge dec n (c ∷ next) (merge_queue p q) (found || found_queue p),
            or_assoc found (found_queue p) (any_found (levels dec n (c ∷ next))),
          )
          refl
  ]
]

-- The queue payload is that of the first four levels, merged from the outermost in, and there is one
-- exactly if a level has a field of it.
pub extract_queue-merge :
    (dec : Decoder) (raw : Text)
    → extract_queue dec raw ≡ (
        if any_found (levels dec 4 raw) then some (merge_all (levels dec 4 raw) no_queue) else none)
unfolding extract_queue
extract_queue-merge dec raw = rw (extract_levels-merge dec 4 raw no_queue false) refl
