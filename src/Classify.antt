-- ===== src/Classify.antt =====
-- internal/qodertransport/qoderstream: classify.go and qoderstream.go, the categories of upstream
-- errors. The decoding of JSON is a parameter.
use qoder_cpa.Prelude.{
  ℕ, zero, suc, Bool, true, false, not, ◌&&◌, ◌||◌, List, [], ◌∷◌, ◌++◌, Option, none, some, Text,
  text_eq, ◌==◌, nat_beq, leb, codes, if◌then◌else◌, has_prefix, contains, trim_space, ℤ, pos,
  negsuc, ltb_ℤ, leb_ℤ, ◌+◌,
}
use qoder_cpa.Stream.{QueuePayload, cat_queue_unavailable}
pub mod Rules
pub mod Queue

lower_byte : ℕ → ℕ
lower_byte c = if leb 65 c && leb c 90 then c + 32 else c

-- The two characters that are not ASCII and have an ASCII lower case, the Kelvin sign and the capital
-- dotted I: that lower case, and how many more bytes the character takes.
odd_char : Text → Option (ℕ × ℕ)
odd_char [] = none
odd_char (a ∷ []) = none
odd_char (a ∷ b ∷ []) = if nat_beq a 0xc4 && nat_beq b 0xb0 then some (105, 1) else none
odd_char (a ∷ b ∷ c ∷ s) =
    if nat_beq a 0xc4 && nat_beq b 0xb0
    then some (105, 1)
    else if nat_beq a 0xe2 && nat_beq b 0x84 && nat_beq c 0xaa
    then some (107, 2)
    else none

-- The first argument counts the bytes of a character that are still to be left out.
lower_from : ℕ → Text → Text
unfolding lower_byte odd_char
lower_from n [] = []
lower_from (suc n) (c ∷ s) = lower_from n s
lower_from zero (c ∷ s) = elim (odd_char (c ∷ s)) [
  | none ↦ lower_byte c ∷ lower_from 0 s
  | some (lower, n) ↦ lower ∷ lower_from n s
]

-- strings.ToLower as far as ASCII text can be made of it; other letters are left as they are.
unfoldable pub to_lower : Text → Text
unfolding lower_from
to_lower s = lower_from 0 s

-- strings.ReplaceAll(s, " ", "_").
unfoldable pub underscored : Text → Text
underscored [] = []
underscored (c ∷ s) = (if nat_beq c 32 then 95 else c) ∷ underscored s

unfoldable pub is_rate_limit_text : Text → Bool
is_rate_limit_text content =
    let lower = to_lower content in
    contains lower (codes "available upstream accounts are rate-limited")
    || contains lower (codes "available upstream accounts are rate limited")

abbrev pub safe_categories : List Text
safe_categories =
    codes "access_denied"
    ∷ codes "rate_limited"
    ∷ codes "upstream_error"
    ∷ codes "queue_full"
    ∷ codes "timeout"
    ∷ codes "invalid_request"
    ∷ codes "context_length_exceeded"
    ∷ codes "signature_invalid"
    ∷ []

unfoldable pub first_contained : Text → List Text → Text
first_contained lower [] = codes "upstream_error"
first_contained lower (cat ∷ cats) =
    let rest = first_contained lower cats in if contains lower cat then cat else rest

unfoldable pub safe_error_category : Text → Text
unfolding first_contained
safe_error_category msg = first_contained (to_lower (underscored msg)) safe_categories

abbrev pub is_code : ℤ → ℕ → Bool
is_code (pos n) m = nat_beq n m
is_code (negsuc n) m = false

unfoldable pub status_category : ℤ → Text
status_category code =
    if is_code code 400 || is_code code 422
    then codes "invalid_request"
    else if is_code code 401 || is_code code 403
    then codes "access_denied"
    else if is_code code 429
    then codes "rate_limited"
    else if leb_ℤ (pos 500) code
    then codes "upstream_error"
    else codes "upstream_error"

abbrev pub cat_daily_limit : Text
cat_daily_limit = codes "daily_limit_exceeded"

abbrev pub cat_plan_required : Text
cat_plan_required = codes "plan_required"

abbrev pub cat_model_unavailable : Text
cat_model_unavailable = codes "model_unavailable"

abbrev pub cat_rate_limited : Text
cat_rate_limited = codes "rate_limited"

-- The fields of queueProbe; `none` is a null or missing field, and a raw value is its JSON text.
pub record Probe : Type 0 where
  pub is_queued : Option Bool
  pub queue_type : Option Text
  pub service_available : Option Bool
  pub retry_after_seconds : Option ℤ
  pub wait_time : Option ℤ
  pub body : Text
  pub message : Text
  pub payload : Text

-- encoding/json at the types of this package; `none` is an error.
pub record Decoder : Type 0 where
  pub probe : Text → Option Probe
  pub string : Text → Option Text

-- What one candidate descends to, empty if it is no object.
unfoldable pub descend_one : Decoder → Text → Text
descend_one dec cand =
    let trimmed = trim_space cand in
    if cand == [] || cand == codes "null"
    then []
    else if has_prefix trimmed (codes "{")
    then trimmed
    else elim (dec.string cand) [
      | none ↦ []
      | some s ↦ let inner = trim_space s in if has_prefix inner (codes "{") then inner else []
    ]

unfoldable pub descend_json : Decoder → List Text → Text
descend_json dec [] = []
descend_json dec (cand ∷ cands) =
    let rest = descend_json dec cands in elim (descend_one dec cand) [ [] ↦ rest | c ∷ s ↦ c ∷ s ]

abbrev pub no_queue : QueuePayload
no_queue = record {
  is_queued = false;
  queue_type = [];
  service_available = false;
  retry_after_seconds = pos 0;
  wait_time = pos 0;
}

abbrev take_bool : Option Bool → Bool → Bool
take_bool none old = old
take_bool (some b) old = b

abbrev take_text : Option Text → Text → Text
take_text none old = old
take_text (some []) old = old
take_text (some (c ∷ s)) old = c ∷ s

abbrev take_positive : Option ℤ → ℤ → ℤ
take_positive none old = old
take_positive (some n) old = if ltb_ℤ (pos 0) n then n else old

abbrev is_some {ℓ} : {A : Type ℓ} → Option A → Bool
is_some none = false
is_some (some a) = true

abbrev some_text : Option Text → Bool
some_text none = false
some_text (some t) = not (t == [])

abbrev some_positive : Option ℤ → Bool
some_positive none = false
some_positive (some n) = ltb_ℤ (pos 0) n

-- The fields of one level over those found so far.
unfoldable pub merge_queue : Probe → QueuePayload → QueuePayload
merge_queue p q = record {
  is_queued = take_bool p.is_queued q.is_queued;
  queue_type = take_text p.queue_type q.queue_type;
  service_available = take_bool p.service_available q.service_available;
  retry_after_seconds = take_positive p.retry_after_seconds q.retry_after_seconds;
  wait_time = take_positive p.wait_time q.wait_time;
}

unfoldable pub found_queue : Probe → Bool
found_queue p =
    is_some p.is_queued
    || some_text p.queue_type
    || is_some p.service_available
    || some_positive p.retry_after_seconds
    || some_positive p.wait_time

-- `n` levels at most; the answer is what was merged, and whether a field was found.
unfoldable pub extract_levels : Decoder → ℕ → Text → QueuePayload → Bool → QueuePayload × Bool
unfolding merge_queue found_queue descend_json
extract_levels dec zero current q found = (q, found)
extract_levels dec (suc n) current q found = elim (dec.probe current) [
  | none ↦ (q, found)
  | some p ↦ elim (descend_json dec (p.body ∷ p.message ∷ p.payload ∷ [])) [
    | [] ↦ (merge_queue p q, found || found_queue p)
    | c ∷ next ↦ extract_levels dec n (c ∷ next) (merge_queue p q) (found || found_queue p)
  ]
]

unfoldable pub extract_queue : Decoder → Text → Option QueuePayload
unfolding extract_levels
extract_queue dec raw =
    let out = extract_levels dec 4 raw no_queue false in if out.1 then some out.0 else none

unfoldable pub is_queue_shaped : Option QueuePayload → Bool
is_queue_shaped none = false
is_queue_shaped (some q) =
    ltb_ℤ (pos 0) q.retry_after_seconds
    || ltb_ℤ (pos 0) q.wait_time
    || not (q.queue_type == [])
    || not q.service_available
    || q.is_queued

unfoldable pub category_of : ℤ → Text → Text → Bool → Text
unfolding status_category safe_error_category
category_of code message raw queued =
    let lower = to_lower message in
    if is_code code 10605
    then cat_queue_unavailable
    else if queued
    then cat_queue_unavailable
    else if is_code code 429
    then cat_rate_limited
    else if contains lower (codes "billing daily count exceeded")
    then cat_daily_limit
    else if contains lower (codes "no usable plan or allowance")
    then cat_plan_required
    else if is_code code 112 && contains (to_lower raw) (codes "pricingurl")
    then cat_model_unavailable
    else if trim_space message == []
    then status_category code
    else safe_error_category message

unfoldable pub classify_business : Decoder → ℤ → Text → Text → Text × Option QueuePayload
unfolding category_of is_queue_shaped extract_queue
classify_business dec code message raw =
    let q = extract_queue dec raw in (category_of code message raw (is_queue_shaped q), q)
