-- ===== src/Request/Thinking.antt =====
-- The parameters that internal/qodertransport/chat_request.go gives the cosy dialect.
use qoder_cpa.Prelude.{
  ℤ, true, Text, ◌↔◌, ◌≢◌, ◌⊎◌, [], refl, ◌||◌, trim_space, Option-cases, eq→path, neq→not_path,
  Bool, false, not, ◌&&◌, Option, none, some, text_eq, ◌==◌, codes, if◌then◌else◌, pos, ltb_ℤ, ◌≡◌,
  arith, inl, inr, Bool-cases,
}
use qoder_cpa.Classify.{to_lower}
use qoder_cpa.Request.{ChatPayload, Parameters, effort_of, is_some, first_some, parameters_of}

abbrev pub is_on : Option Bool → Bool
is_on none = false
is_on (some b) = b

-- The effort that a client wrote, without white space around it and in lower case; [] where it wrote none.
abbrev pub asked_effort : Option Text → Text
asked_effort none = []
asked_effort (some text) = to_lower (trim_space text)

-- What the parameters promise: thinking is switched on exactly for a reasoning model whose effort is
-- not "none"; where the effort is "none" the switch is sent, and "none" is never sent as an effort,
-- any other is; a bound on the completion is sent where the client gave one, and the older bound where
-- it gave only that; a context length is sent exactly where it is positive.
pub record IsFaithful (p : ChatPayload) (q : Parameters) : Type 0 where
  pub on :
      (is_on q.enable_thinking ≡ true)
      ↔ ((p.is_reasoning ≡ true) × (asked_effort p.reasoning_effort ≢ codes "none"))
  pub told :
      (asked_effort p.reasoning_effort == codes "none" && not (is_some q.enable_thinking)) ≡ false
  pub effort :
      ((q.reasoning_effort ≡ asked_effort p.reasoning_effort)
        × (asked_effort p.reasoning_effort ≢ codes "none"))
      ⊎ ((asked_effort p.reasoning_effort ≡ codes "none") × (q.reasoning_effort ≡ []))
  pub bound :
      ((n : ℤ) × (p.max_completion_tokens ≡ some n) × (q.max_tokens ≡ some n))
      ⊎ ((p.max_completion_tokens ≡ none) × (q.max_tokens ≡ p.max_tokens))
  pub context :
      ((ltb_ℤ (pos 0) p.max_input_tokens ≡ true) × (q.context_length ≡ some p.max_input_tokens))
      ⊎ ((ltb_ℤ (pos 0) p.max_input_tokens ≡ false) × (q.context_length ≡ none))

asked-effort_of : (p : ChatPayload) → effort_of p ≡ asked_effort p.reasoning_effort
unfolding effort_of to_lower trim_space
asked-effort_of p = elim (Option-cases p.reasoning_effort) [
  | inl silent ↦ rw (effort_of, silent) refl
  | inr (text, wrote) ↦ rw (effort_of, wrote) refl
]

preferred :
    (a b : Option ℤ)
    → ((n : ℤ) × (a ≡ some n) × (first_some a b ≡ some n)) ⊎ ((a ≡ none) × (first_some a b ≡ b))
preferred none b = inr (refl, refl)
preferred (some n) b = inl (n, refl, refl)

positive :
    (n : ℤ) (test : Bool)
    → ((test ≡ true) × ((if test then some n else none) ≡ some n))
      ⊎ ((test ≡ false) × ((if test then some n else none) ≡ none))
positive n true = inl (refl, refl)
positive n false = inr (refl, refl)

-- What is on, told and sent of an effort `e`.
thinks_iff :
    (reasoning : Bool) (e : Text)
    → (is_on (
          if reasoning || e == codes "none"
          then some (reasoning && not (e == codes "none"))
          else none)
        ≡ true)
      ↔ ((reasoning ≡ true) × (e ≢ codes "none"))
thinks_iff true e = elim (Bool-cases (e == codes "none")) [
  | inl quiet ↦ (λ h. ground arith, λ h. absurd (h.1 (eq→path e (codes "none") quiet)))
  | inr loud ↦ (λ h. (refl, neq→not_path e (codes "none") loud), λ h. ground arith)
]
thinks_iff false e = elim (Bool-cases (e == codes "none")) [
  | inl quiet ↦ (λ h. ground arith, λ h. ground arith)
  | inr loud ↦ (λ h. ground arith, λ h. ground arith)
]

told_none :
    (reasoning quiet : Bool)
    → (quiet && not (is_some (if reasoning || quiet then some (reasoning && not quiet) else none)))
      ≡ false
told_none true true = refl
told_none true false = refl
told_none false true = refl
told_none false false = refl

sent_effort :
    (e : Text)
    → (((if e == codes "none" then [] else e) ≡ e) × (e ≢ codes "none"))
      ⊎ ((e ≡ codes "none") × ((if e == codes "none" then [] else e) ≡ []))
sent_effort e = elim (Bool-cases (e == codes "none")) [
  | inl quiet ↦ inr (eq→path e (codes "none") quiet, rw quiet refl)
  | inr loud ↦ inl (rw loud refl, neq→not_path e (codes "none") loud)
]

-- Where parameters are sent at all, they say what the client asked for: thinking is switched on exactly
-- for a reasoning model whose effort is not "none"; where the effort is "none" the switch is sent, and
-- "none" is never sent as an effort; the bound on the completion is preferred to the older one; the
-- context length is sent where it is positive.
pub parameters_of-IsFaithful :
    (p : ChatPayload) (q : Parameters) → parameters_of p ≡ some q → IsFaithful p q
unfolding parameters_of
parameters_of-IsFaithful p q h =
    let e = asked-effort_of p in
    let on : q.enable_thinking ≡ (
        if p.is_reasoning || effort_of p == codes "none"
        then some (p.is_reasoning && not (effort_of p == codes "none"))
        else none) =
      ground arith in
    let sent : q.reasoning_effort ≡ (if effort_of p == codes "none" then [] else effort_of p) =
      ground arith in
    let bound : q.max_tokens ≡ first_some p.max_completion_tokens p.max_tokens = ground arith in
    let context : q.context_length
        ≡ (if ltb_ℤ (pos 0) p.max_input_tokens then some p.max_input_tokens else none) =
      ground arith in
    record {
      on = rw (on, e) (thinks_iff p.is_reasoning (asked_effort p.reasoning_effort));
      told =
          rw (on, e) (told_none p.is_reasoning (asked_effort p.reasoning_effort == codes "none"));
      effort = rw (sent, e) (sent_effort (asked_effort p.reasoning_effort));
      bound = rw bound (preferred p.max_completion_tokens p.max_tokens);
      context = rw context (positive p.max_input_tokens (ltb_ℤ (pos 0) p.max_input_tokens));
    }
