-- ===== src/Auth/Scrub.antt =====
-- scrubSecrets of internal/qoderauth/refresh.go: the texts of errors lose the secrets of the account.
use qoder_cpa.Prelude.{
  ℕ, zero, suc, ◌-◌, ◌<◌, true, false, List, [], ◌∷◌, ◌++◌, Text, text_eq, codes, if◌then◌else◌,
  ltb, length, has_prefix, contains, mem, nat_eq, ◌≡◌, refl, arith, inl, inr, Bool-cases,
  text_beq_iff,
}
use qoder_cpa.Auth.{Credential}

-- strings.ReplaceAll for a text that is not empty; the first argument counts the bytes of a match
-- that are still to pass.
unfoldable pub replace_from : ℕ → Text → Text → Text → Text
replace_from n old fresh [] = []
replace_from (suc n) old fresh (c ∷ s) = replace_from n old fresh s
replace_from zero old fresh (c ∷ s) = elim (has_prefix (c ∷ s) old) [
  | true ↦ fresh ++ replace_from (length old - 1) old fresh s
  | false ↦ c ∷ replace_from zero old fresh s
]

unfoldable pub replace_all : Text → Text → Text → Text
unfolding replace_from
replace_all s old fresh = replace_from 0 old fresh s

unfoldable pub scrub_secret : Text → Text → Text
unfolding replace_all
scrub_secret secret s = if ltb 4 (length secret) then replace_all s secret (codes "***") else s

unfoldable pub scrub_secrets : Text → Credential → Text
unfolding scrub_secret
scrub_secrets s cred =
    scrub_secret cred.runtime_key
      (scrub_secret cred.refresh_token (scrub_secret cred.access_token s))

-- A text that is not empty and has no asterisk.
abbrev pub IsPlain : Text → Type 0
IsPlain b = (0 < length b) × (mem b'*' b ≡ false)

abbrev HasNoStar : Text → Type 0
HasNoStar b = mem b'*' b ≡ false

-- The stars that are put in start nothing that has no star.
starred-prefix : (r b : Text) → HasNoStar b → has_prefix (codes "***" ++ r) b ≡ true → b ≡ []
starred-prefix r [] h p = refl
starred-prefix r (x ∷ b) h p = ground arith

prefix_kept :
    (old s b : Text)
    → HasNoStar b
    → has_prefix (replace_from 0 old (codes "***") s) b ≡ true
    → has_prefix s b ≡ true
unfolding replace_from
prefix_kept old [] b h p = p
prefix_kept old (c ∷ s) [] h p = refl
prefix_kept old (c ∷ s) (x ∷ b) h p = elim (Bool-cases (has_prefix (c ∷ s) old)) [
  | inl hit ↦ absurd (ground arith)
  | inr miss ↦ ground (arith, prefix_kept old s b)
]

-- Nothing without a star comes into the text.
contains_kept :
    (n : ℕ) (old s b : Text)
    → IsPlain b
    → contains (replace_from n old (codes "***") s) b ≡ true
    → contains s b ≡ true
unfolding replace_from contains
contains_kept n old [] b h p = p
contains_kept (suc n) old (c ∷ s) b h p = ground (arith, contains_kept n old s b h)
contains_kept zero old (c ∷ s) [] h p = absurd (omega arith)
contains_kept zero old (c ∷ s) (x ∷ b) h p = elim (Bool-cases (has_prefix (c ∷ s) old)) [
  | inl hit ↦ ground (arith, contains_kept (length old - 1) old s (x ∷ b) h)
  | inr miss ↦
      ground (arith, contains_kept zero old s (x ∷ b) h, prefix_kept old (c ∷ s) (x ∷ b) h.1)
]

-- What is replaced is gone.
replaced_gone :
    (n : ℕ) (old s : Text) → IsPlain old → contains (replace_from n old (codes "***") s) old ≡ false
unfolding replace_from contains
replaced_gone n [] s h = absurd (omega arith)
replaced_gone n (x ∷ old) [] h = refl
replaced_gone (suc n) (x ∷ old) (c ∷ s) h = replaced_gone n (x ∷ old) s h
replaced_gone zero (x ∷ old) (c ∷ s) h = elim (Bool-cases (has_prefix (c ∷ s) (x ∷ old))) [
  | inl hit ↦ ground (arith, replaced_gone (length old) (x ∷ old) s h)
  | inr miss ↦
      ground (arith, replaced_gone zero (x ∷ old) s h, prefix_kept (x ∷ old) (c ∷ s) (x ∷ old) h.1)
]

scrub_secret_gone :
    (secret s : Text)
    → IsPlain secret
    → 4 < length secret
    → contains (scrub_secret secret s) secret ≡ false
unfolding scrub_secret replace_all
scrub_secret_gone secret s h long = elim (Bool-cases (ltb 4 (length secret))) [
  | inl scrubbed ↦ rw (scrub_secret, scrubbed) (replaced_gone 0 secret s h)
  | inr short ↦ absurd (ground arith)
]

scrub_secret_kept :
    (secret s b : Text)
    → IsPlain b
    → contains s b ≡ false
    → contains (scrub_secret secret s) b ≡ false
unfolding scrub_secret replace_all
scrub_secret_kept secret s b h absent = ground (arith, contains_kept 0 secret s b h)

-- The secrets that are looked for.
abbrev pub secrets : Credential → List Text
secrets cred = cred.access_token ∷ cred.refresh_token ∷ cred.runtime_key ∷ []

-- No secret of more than four bytes is left in a text that was scrubbed of it, wherever and however
-- often it stood and whatever the other secrets are; a secret with an asterisk is not spoken of.
pub scrub_secrets_gone :
    (s secret : Text) (cred : Credential)
    → mem secret (secrets cred) ≡ true
    → 4 < length secret
    → mem b'*' secret ≡ false
    → contains (scrub_secrets s cred) secret ≡ false
unfolding scrub_secrets
scrub_secrets_gone s secret cred listed long plain =
    let h : IsPlain secret = (omega arith, plain) in
    let one = scrub_secret cred.access_token s in
    let two = scrub_secret cred.refresh_token one in
    ground (
      arith,
      text_beq_iff cred.access_token secret,
      text_beq_iff cred.refresh_token secret,
      text_beq_iff cred.runtime_key secret,
      scrub_secret_gone cred.access_token s,
      scrub_secret_gone cred.refresh_token one,
      scrub_secret_gone cred.runtime_key two,
      scrub_secret_kept cred.refresh_token one secret h,
      scrub_secret_kept cred.runtime_key two secret h,
    )
