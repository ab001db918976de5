-- ===== src/Transport.antt =====
-- internal/qodertransport/transport.go: the profile of a request and its one adapter; and itoa of
-- internal/qodertransport/errors.go.
use qoder_cpa.Prelude.{
  ℕ, zero, suc, ◌+◌, ◌/◌, ◌%◌, Bool, true, false, ◌||◌, List, [], ◌∷◌, ◌++◌, Option, none, some,
  Text, text_eq, ◌==◌, nat_beq, codes, if◌then◌else◌, ℤ, pos, negsuc,
}
pub mod Choice
pub mod Decimal

abbrev pub profile_cosy_api2 : Text
profile_cosy_api2 = codes "cosy-api2"

abbrev pub profile_cosy_api3 : Text
profile_cosy_api3 = codes "cosy-api3"

abbrev pub profile_bearer_openai : Text
profile_bearer_openai = codes "bearer-openai"

abbrev pub profile_cosy_cn : Text
profile_cosy_cn = codes "cosy-cn"

abbrev pub default_transport_profile : Text
default_transport_profile = profile_cosy_api2

-- A result, or the ConfigError or the AdapterSetError of a value.
pub data Resolved {ℓ} (A : Type ℓ) : Type ℓ where
  ok : A → Resolved A
  config_error : Text → Resolved A
  adapter_set_error : Text → Resolved A

unfoldable pub parse_transport_profile : Text → Resolved Text
parse_transport_profile raw =
    if raw == profile_cosy_api2
      || raw == profile_cosy_api3
      || raw == profile_bearer_openai
      || raw == profile_cosy_cn
    then ok raw
    else config_error raw

unfoldable pub resolve_profile : Text → Resolved Text
unfolding parse_transport_profile
resolve_profile raw =
    if raw == [] then ok default_transport_profile else parse_transport_profile raw

-- The four adapters in the order of the profiles.
pub record Selector {ℓ} (A : Type ℓ) : Type ℓ where
  pub cosy2 : A
  pub cosy3 : A
  pub bearer : A
  pub cn : A

module _ {ℓ} {A : Type ℓ} where
  -- `none` is a nil adapter; the first one that is missing is named.
  unfoldable pub new_selector : Option A → Option A → Option A → Option A → Resolved (Selector A)
  new_selector none b c d = adapter_set_error profile_cosy_api2
  new_selector (some a) none c d = adapter_set_error profile_cosy_api3
  new_selector (some a) (some b) none d = adapter_set_error profile_bearer_openai
  new_selector (some a) (some b) (some c) none = adapter_set_error profile_cosy_cn
  new_selector (some a) (some b) (some c) (some d) =
      ok (record { cosy2 = a; cosy3 = b; bearer = c; cn = d })

  adapter_of : Selector A → Text → Resolved A
  adapter_of s p =
      if p == profile_cosy_api2
      then ok s.cosy2
      else if p == profile_cosy_api3
      then ok s.cosy3
      else if p == profile_bearer_openai
      then ok s.bearer
      else if p == profile_cosy_cn
      then ok s.cn
      else config_error p

  unfoldable pub select : Selector A → Text → Resolved A
  unfolding resolve_profile adapter_of
  select s raw = elim (resolve_profile raw) [
    | ok p ↦ adapter_of s p
    | config_error v ↦ config_error v
    | adapter_set_error v ↦ adapter_set_error v
  ]

-- The digits of `n` before those already written; the buffer has room for 20 bytes, and an int64 has
-- 19 digits at most.
unfoldable pub digits : ℕ → ℕ → Text → Text
digits zero n written = written
digits (suc fuel) n written =
    let rest = digits fuel (n / 10) ((48 + n % 10) ∷ written) in
    if nat_beq n 0 then written else rest

-- Of -2^63, whose negation overflows, the source prints only the sign.
unfoldable pub itoa : ℤ → Text
unfolding digits
itoa (pos zero) = codes "0"
itoa (pos (suc n)) = digits 20 (suc n) []
itoa (negsuc n) = if nat_beq n 9223372036854775807 then codes "-" else 45 ∷ digits 20 (n + 1) []
