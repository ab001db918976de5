-- ===== src/Failure/Codes.antt =====
-- Which codes an error of executor_errors.go is told to the host with.
use qoder_cpa.Prelude.{
  Bool, true, false, ◌||◌, List, [], ◌∷◌, Option, none, some, Text, text_eq, codes, ℤ, mem, All,
  ◌≡◌, refl, arith, inl, inr, Bool-cases,
}
use qoder_cpa.Stream.{StreamBusinessError}
use qoder_cpa.Classify.{status_category}
use qoder_cpa.Failure.{
  ExecutorFailure, HttpError, Layer, own, business, bearer_http, cosy_http, canceled,
  deadline_exceeded, plain, GoError, http_failure, first_own, first_business, first_bearer,
  first_cosy, is_canceled, is_over, on_context, on_cosy, on_bearer, on_stream, on_own,
  classify_executor_error,
}

-- The codes that come of no error of the executor's own and of no business error.
abbrev pub outward_codes : List Text
outward_codes =
    codes "invalid_request"
    ∷ codes "access_denied"
    ∷ codes "rate_limited"
    ∷ codes "upstream_error"
    ∷ codes "client_canceled"
    ∷ codes "upstream_timeout"
    ∷ []

-- The code of a failure is one of a list, or one that an error in the chain was made with.
abbrev pub IsNamed : (Text → Bool) → Layer → Type 0
IsNamed known (own f) = known f.code ≡ true
IsNamed known (business e) = known e.category ≡ true
IsNamed known l = Unit

-- What errors.As finds was made with a known code.
abbrev OwnKnown : (Text → Bool) → Option ExecutorFailure → Type 0
OwnKnown known none = Unit
OwnKnown known (some f) = known f.code ≡ true

abbrev BusinessKnown : (Text → Bool) → Option StreamBusinessError → Type 0
BusinessKnown known none = Unit
BusinessKnown known (some e) = known e.category ≡ true

or_right : (a b : Bool) → b ≡ true → (a || b) ≡ true
or_right true b h = refl
or_right false b h = h

module _ (known : Text → Bool) where
  first_own-OwnKnown : (ls : List Layer) → All (IsNamed known) ls → OwnKnown known (first_own ls)
  first_own-OwnKnown [] h = tt
  first_own-OwnKnown (own f ∷ ls) h = h.0
  first_own-OwnKnown (business e ∷ ls) h = first_own-OwnKnown ls h.1
  first_own-OwnKnown (bearer_http e ∷ ls) h = first_own-OwnKnown ls h.1
  first_own-OwnKnown (cosy_http e ∷ ls) h = first_own-OwnKnown ls h.1
  first_own-OwnKnown (canceled ∷ ls) h = first_own-OwnKnown ls h.1
  first_own-OwnKnown (deadline_exceeded ∷ ls) h = first_own-OwnKnown ls h.1
  first_own-OwnKnown (plain ∷ ls) h = first_own-OwnKnown ls h.1

  first_business-BusinessKnown :
      (ls : List Layer) → All (IsNamed known) ls → BusinessKnown known (first_business ls)
  first_business-BusinessKnown [] h = tt
  first_business-BusinessKnown (own f ∷ ls) h = first_business-BusinessKnown ls h.1
  first_business-BusinessKnown (business e ∷ ls) h = h.0
  first_business-BusinessKnown (bearer_http e ∷ ls) h = first_business-BusinessKnown ls h.1
  first_business-BusinessKnown (cosy_http e ∷ ls) h = first_business-BusinessKnown ls h.1
  first_business-BusinessKnown (canceled ∷ ls) h = first_business-BusinessKnown ls h.1
  first_business-BusinessKnown (deadline_exceeded ∷ ls) h = first_business-BusinessKnown ls h.1
  first_business-BusinessKnown (plain ∷ ls) h = first_business-BusinessKnown ls h.1

  -- A code is one of the list or a known one.
  abbrev IsTold : Text → Type 0
  IsTold code = (mem code outward_codes || known code) ≡ true

  status_category-IsTold : (status : ℤ) → IsTold (status_category status)
  unfolding status_category
  status_category-IsTold status = ground arith

  known-IsTold : (code : Text) → known code ≡ true → IsTold code
  known-IsTold code h = or_right (mem code outward_codes) (known code) h

  module _ (text : StreamBusinessError → Text) (err : GoError) where
    context-IsTold : IsTold (on_context text err).code
    context-IsTold = elim (Bool-cases (is_canceled err.chain)) [
      | inl yes_canceled ↦ rw yes_canceled refl
      | inr other ↦ elim (Bool-cases (is_over err.chain)) [
        | inl over ↦ rw (other, over) refl
        | inr open_still ↦ rw (other, open_still) refl
      ]
    ]

    cosy-IsTold : (o : Option HttpError) → IsTold (on_cosy text o err).code
    unfolding http_failure
    cosy-IsTold none = context-IsTold
    cosy-IsTold (some e) = status_category-IsTold e.status_code

    bearer-IsTold : (o : Option HttpError) → IsTold (on_bearer text o err).code
    unfolding http_failure
    bearer-IsTold none = cosy-IsTold (first_cosy err.chain)
    bearer-IsTold (some e) = status_category-IsTold e.status_code

    stream-IsTold :
        (o : Option StreamBusinessError)
        → BusinessKnown known o
        → IsTold (on_stream text o err).code
    stream-IsTold none h = bearer-IsTold (first_bearer err.chain)
    stream-IsTold (some e) h = known-IsTold e.category h

    own-IsTold :
        (o : Option ExecutorFailure)
        → OwnKnown known o
        → BusinessKnown known (first_business err.chain)
        → IsTold (on_own text o err).code
    own-IsTold none h b = stream-IsTold (first_business err.chain) b
    own-IsTold (some f) h b = known-IsTold f.code h

-- Whatever failed, the host is told one of six codes, or the code that an error of the executor or a
-- business error in the chain was made with: no text of an upstream becomes a code.
pub classify_executor_error_code :
    (known : Text → Bool) (text : StreamBusinessError → Text) (err : GoError)
    → All (IsNamed known) err.chain
    → (mem (classify_executor_error text err).code outward_codes
        || known (classify_executor_error text err).code)
      ≡ true
unfolding classify_executor_error
classify_executor_error_code known text err h =
    own-IsTold known text err (first_own err.chain) (first_own-OwnKnown known err.chain h)
      (first_business-BusinessKnown known err.chain h)
