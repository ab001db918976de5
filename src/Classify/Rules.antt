-- ===== src/Classify/Rules.antt =====
-- Which categories ClassifyBusiness of internal/qodertransport/qoderstream/classify.go gives.
use qoder_cpa.Prelude.{
  Bool, true, false, List, [], ◌∷◌, Text, ◌≡◌, refl, inl, inr, arith, ℤ, contains, Bool-cases, mem,
  All, text_eq, ◌||◌, ◌==◌,
}
use qoder_cpa.Stream.{cat_queue_unavailable}
use qoder_cpa.Classify.{
  Decoder, safe_categories, first_contained, safe_error_category, status_category, is_code,
  cat_daily_limit, cat_plan_required, cat_model_unavailable, is_queue_shaped, extract_queue,
  category_of, classify_business,
}

-- The only categories that may leave the transports.
abbrev pub all_categories : List Text
all_categories =
    cat_queue_unavailable ∷ cat_daily_limit ∷ cat_plan_required ∷ cat_model_unavailable
    ∷ safe_categories

pub record IsSafe (cat : Text) : Type 0 where
  pub listed : mem cat all_categories ≡ true

first_contained-IsSafe :
    (lower : Text) (cats : List Text) → All IsSafe cats → IsSafe (first_contained lower cats)
unfolding first_contained
first_contained-IsSafe lower [] safe = record { listed = refl }
first_contained-IsSafe lower (cat ∷ cats) safe = elim (Bool-cases (contains lower cat)) [
  | inl here ↦ rw (first_contained, here) safe.0
  | inr not_here ↦ rw (first_contained, not_here) (first_contained-IsSafe lower cats safe.1)
]

status_category-IsSafe : (code : ℤ) → IsSafe (status_category code)
unfolding status_category
status_category-IsSafe code = ground arith

safe_error_category-IsSafe : (message : Text) → IsSafe (safe_error_category message)
unfolding safe_error_category
safe_error_category-IsSafe message = first_contained-IsSafe _ safe_categories (ground arith)

category_of-IsSafe :
    (code : ℤ) (message raw : Text) (queued : Bool) → IsSafe (category_of code message raw queued)
unfolding category_of
category_of-IsSafe code message raw queued =
    ground (arith, status_category-IsSafe code, safe_error_category-IsSafe message)

-- Whatever the upstream says, the category is one of the closed list.
pub classify_business-IsSafe :
    (dec : Decoder) (code : ℤ) (message raw : Text)
    → IsSafe (classify_business dec code message raw).0
unfolding classify_business
classify_business-IsSafe dec code message raw =
    category_of-IsSafe code message raw (is_queue_shaped (extract_queue dec raw))

NotQueue : Text → Type 0
NotQueue cat = (cat == cat_queue_unavailable) ≡ false

first_contained-NotQueue :
    (lower : Text) (cats : List Text) → All NotQueue cats → NotQueue (first_contained lower cats)
unfolding first_contained NotQueue
first_contained-NotQueue lower [] other = refl
first_contained-NotQueue lower (cat ∷ cats) other = elim (Bool-cases (contains lower cat)) [
  | inl here ↦ rw (first_contained, here) other.0
  | inr not_here ↦ rw (first_contained, not_here) (first_contained-NotQueue lower cats other.1)
]

safe_error_category-NotQueue : (message : Text) → NotQueue (safe_error_category message)
unfolding safe_error_category NotQueue
safe_error_category-NotQueue message = first_contained-NotQueue _ safe_categories (ground arith)

status_category-NotQueue : (code : ℤ) → NotQueue (status_category code)
unfolding status_category NotQueue
status_category-NotQueue code = ground arith

category_of-queue :
    (code : ℤ) (message raw : Text) (queued : Bool)
    → (category_of code message raw queued == cat_queue_unavailable)
      ≡ (is_code code 10605 || queued)
unfolding category_of NotQueue
category_of-queue code message raw queued =
    ground (arith, status_category-NotQueue code, safe_error_category-NotQueue message)

-- An error counts as a refusal of the queue exactly when its code is 10605 or its payload has the
-- shape of a queue refusal; no message and no other code makes it one.
pub classify_business_queue_iff :
    (dec : Decoder) (code : ℤ) (message raw : Text)
    → ((classify_business dec code message raw).0 == cat_queue_unavailable)
      ≡ (is_code code 10605 || is_queue_shaped (extract_queue dec raw))
unfolding classify_business
classify_business_queue_iff dec code message raw =
    category_of-queue code message raw (is_queue_shaped (extract_queue dec raw))
