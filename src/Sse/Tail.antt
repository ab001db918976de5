-- ===== src/Sse/Tail.antt =====
-- The rolling tail by which dispatch of internal/qodertransport/bearer/sse.go and cosy/sse.go finds a
-- rate-limit phrase over adjacent text deltas.
use qoder_cpa.Prelude.{
  ℕ, zero, suc, ◌+◌, ◌-◌, ◌≤◌, List, [], ◌∷◌, ◌++◌, some, Text, ◌≡◌, refl, sym, ap, ◌∙◌, arith, inl,
  inr, length, drop, ltb, Bool-cases, length-append, length-drop, append_assoc, append-nil,
  if◌then◌else◌,
}
use qoder_cpa.Classify.{is_rate_limit_text}
use qoder_cpa.Sse.{
  text_delta, SseEvent, no_event, Parser, max_tail, rate_tail, rate_limited_event, classified,
}

-- The last `n` bytes of a text.
abbrev pub last : ℕ → Text → Text
last n s = drop (length s - n) s

abbrev pub concat : List Text → Text
concat [] = []
concat (d ∷ ds) = d ++ concat ds

drop-drop : (m n k : ℕ) (s : Text) → k ≡ n + m → drop m (drop n s) ≡ drop k s
drop-drop m zero k s same = let e : m ≡ k = omega arith in ap (λ i. drop i s) e
drop-drop zero (suc n) zero [] same = refl
drop-drop zero (suc n) (suc k) [] same = refl
drop-drop (suc m) (suc n) zero [] same = refl
drop-drop (suc m) (suc n) (suc k) [] same = refl
drop-drop m (suc n) zero (c ∷ s) same = absurd (omega arith)
drop-drop m (suc n) (suc k) (c ∷ s) same = drop-drop m n k s (omega arith)

drop_append_short : (n : ℕ) (s t : Text) → n ≤ length s → drop n (s ++ t) ≡ drop n s ++ t
drop_append_short zero s t short = refl
drop_append_short (suc n) [] t short = absurd (omega arith)
drop_append_short (suc n) (c ∷ s) t short = drop_append_short n s t (omega arith)

rate_tail-last : (s t : Text) → rate_tail s t ≡ last max_tail (s ++ t)
unfolding rate_tail
rate_tail-last s t = elim (Bool-cases (ltb max_tail (length (s ++ t)))) [
  | inl long ↦ rw (rate_tail, long) refl
  | inr short ↦
      let none_cut : 0 ≡ length (s ++ t) - max_tail = ground arith in
      rw (rate_tail, short) (ap (λ n. drop n (s ++ t)) none_cut)
]

-- A tail of a tail is the tail of the whole.
last-last : (s t : Text) → last max_tail (last max_tail s ++ t) ≡ last max_tail (s ++ t)
last-last s t =
    let k = length s - max_tail in
    let joined = drop_append_short k s t (omega arith) in
    ap (last max_tail) (sym joined)
    ∙ drop-drop (length (drop k (s ++ t)) - max_tail) k (length (s ++ t) - max_tail) (s ++ t)
        (omega (arith, length-drop k (s ++ t), length-append s t))

abbrev pub text_event : Text → SseEvent
text_event content = record no_event { kind = text_delta; text = some content }

module _ (name : Text) (classify : Text → SseEvent) where
  -- The parser after adjacent text deltas.
  abbrev pub after_deltas : List Text → Parser → Parser
  after_deltas [] p = p
  after_deltas (d ∷ ds) p = after_deltas ds (classified name classify (text_event d) p).1

  classified-tail :
      (d : Text) (p : Parser)
      → (classified name classify (text_event d) p).1.text_tail ≡ rate_tail p.text_tail d
  unfolding classified
  classified-tail d p = ground arith

  after_deltas-tail :
      (ds : List Text) (p : Parser) (s : Text)
      → p.text_tail ≡ last max_tail s
      → (after_deltas ds p).text_tail ≡ last max_tail (s ++ concat ds)
  after_deltas-tail [] p s tail = tail ∙ ap (last max_tail) (sym (append-nil s))
  after_deltas-tail (d ∷ ds) p s tail =
      after_deltas-tail ds (classified name classify (text_event d) p).1 (s ++ d) (
        classified-tail d p
        ∙ rate_tail-last p.text_tail d
        ∙ ap (λ t. last max_tail (t ++ d)) tail
        ∙ last-last s d)
      ∙ ap (last max_tail) (append_assoc s d (concat ds))

  -- After adjacent text deltas from an empty tail on, the next one is turned into a rate-limit error
  -- exactly if the last 96 bytes of all their text together hold the phrase.
  pub classified_by_tail :
      (ds : List Text) (d : Text) (p : Parser)
      → p.text_tail ≡ []
      → (classified name classify (text_event d) (after_deltas ds p)).0 ≡ (
          if is_rate_limit_text (last max_tail (concat ds ++ d))
          then rate_limited_event
          else text_event d)
  unfolding classified
  classified_by_tail ds d p fresh =
      ap (λ t. if is_rate_limit_text t then rate_limited_event else text_event d)
        (rate_tail-last (after_deltas ds p).text_tail d
          ∙ ap (λ t. last max_tail (t ++ d)) (after_deltas-tail ds p [] fresh)
          ∙ last-last (concat ds) d)
