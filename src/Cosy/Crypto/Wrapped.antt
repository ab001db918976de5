-- ===== src/Cosy/Crypto/Wrapped.antt =====
-- The block of internal/qodertransport/cosy/crypto.go that carries a message to the holder of the private key.
use qoder_cpa.Prelude.{
  ℕ, zero, suc, ◌+◌, ◌-◌, ◌≤◌, Bool, true, false, not, ◌&&◌, [], ◌∷◌, ◌++◌, Option, none, some,
  Text, text_eq, nat_beq, ltb, if◌then◌else◌, length, length-append, ◌≡◌, refl, ap, arith, inl, inr,
  Bool-cases,
}
use qoder_cpa.Cosy.Crypto.{
  nonzero_bytes, padded_block, consed, with_padding, rsa_max_padding_retries,
}

-- What is behind the first zero.
unfoldable pub after_zero : Text → Option Text
after_zero [] = none
after_zero (c ∷ s) = let later = after_zero s in if nat_beq c 0 then some s else later

-- The message of a block: PKCS#1 v1.5 read back, written down here.
unfoldable pub message_of : Text → Option Text
unfolding after_zero
message_of [] = none
message_of (a ∷ []) = none
message_of (a ∷ b ∷ s) =
    let found = after_zero s in if nat_beq a 0 && nat_beq b 2 then found else none

abbrev all_nonzero : Text → Bool
all_nonzero [] = true
all_nonzero (c ∷ s) = not (nat_beq c 0) && all_nonzero s

after_zero-append :
    (p message : Text) → all_nonzero p ≡ true → after_zero (p ++ 0 ∷ message) ≡ some message
unfolding after_zero
after_zero-append [] message h = refl
after_zero-append (c ∷ p) message h = ground (arith, after_zero-append p message)

-- The padding of a given length, where there is any.
abbrev IsPadding : ℕ → Option (Text × Text) → Type 0
IsPadding n none = n ≡ n
IsPadding n (some (p, rest)) = (length p ≡ n) × (all_nonzero p ≡ true)

consed-IsPadding :
    (n c : ℕ) (o : Option (Text × Text))
    → nat_beq c 0 ≡ false
    → IsPadding n o
    → IsPadding (suc n) (consed c o)
consed-IsPadding n c none nonzero h = refl
consed-IsPadding n c (some (p, rest)) nonzero h = (ap suc h.0, ground arith)

nonzero_bytes-IsPadding :
    (n retries : ℕ) (entropy : Text) → IsPadding n (nonzero_bytes n retries entropy)
unfolding nonzero_bytes
nonzero_bytes-IsPadding zero retries entropy = (refl, refl)
nonzero_bytes-IsPadding (suc n) retries [] = refl
nonzero_bytes-IsPadding (suc n) retries (c ∷ entropy) = elim (Bool-cases (nat_beq c 0)) [
  | inr nonzero ↦
      rw (nonzero_bytes, nonzero)
        (consed-IsPadding n c (nonzero_bytes n 0 entropy) nonzero
          (nonzero_bytes-IsPadding n 0 entropy))
  | inl null ↦
      rw (nonzero_bytes, null)
        (unless (ltb rsa_max_padding_retries (retries + 1)) _
          (nonzero_bytes-IsPadding (suc n) (retries + 1) entropy))
]
  where
    unless :
        (stop : Bool) (o : Option (Text × Text))
        → IsPadding (suc n) o
        → IsPadding (suc n) (if stop then none else o)
    unless true o h = refl
    unless false o h = h

-- A block that carries a message, of the size of the key and with a zero in front, where there is one.
abbrev pub IsBlock : ℕ → Text → Option Text → Type 0
IsBlock size message none = size ≡ size
IsBlock size message (some block) =
    (length block ≡ size) × (message_of block ≡ some message) × ((rest : Text) × (block ≡ 0 ∷ rest))

with_padding-IsBlock :
    (size : ℕ) (message : Text) (o : Option (Text × Text))
    → length message + 11 ≤ size
    → IsPadding (size - length message - 3) o
    → IsBlock size message (with_padding message o)
unfolding message_of
with_padding-IsBlock size message none fits h = refl
with_padding-IsBlock size message (some (p, rest)) fits h = (
  omega (arith, length-append p (0 ∷ message), h.0),
  after_zero-append p message h.1,
  (2 ∷ p ++ 0 ∷ message, refl),
)

pub padded_block-IsBlock :
    (size : ℕ) (entropy message : Text) → IsBlock size message (padded_block size entropy message)
unfolding padded_block
padded_block-IsBlock size entropy message = elim (Bool-cases (ltb size (length message + 11))) [
  | inl long ↦ rw (padded_block, long) refl
  | inr short ↦
      rw (padded_block, short)
        (with_padding-IsBlock size message _ (ground arith)
          (nonzero_bytes-IsPadding (size - length message - 3) 0 entropy))
]

-- How many bytes are zero.
abbrev pub zeros : Text → ℕ
zeros [] = 0
zeros (c ∷ s) = if nat_beq c 0 then suc (zeros s) else zeros s

-- There is a value.
abbrev pub is_there {ℓ} : {A : Type ℓ} → Option A → Bool
is_there none = false
is_there (some a) = true

consed_there : (c : ℕ) (o : Option (Text × Text)) → is_there o ≡ true → is_there (consed c o) ≡ true
consed_there c none h = cc
consed_there c (some (s, rest)) h = refl

nonzero_bytes_there :
    (n retries : ℕ) (entropy : Text)
    → retries + zeros entropy ≤ rsa_max_padding_retries
    → n + zeros entropy ≤ length entropy
    → is_there (nonzero_bytes n retries entropy) ≡ true
unfolding nonzero_bytes
nonzero_bytes_there zero retries entropy few enough = refl
nonzero_bytes_there (suc n) retries [] few enough = absurd (omega arith)
nonzero_bytes_there (suc n) retries (c ∷ entropy) few enough = elim (Bool-cases (nat_beq c 0)) [
  | inr nonzero ↦
      rw (nonzero_bytes, nonzero)
        (consed_there c (nonzero_bytes n 0 entropy)
          (nonzero_bytes_there n 0 entropy (ground arith) (ground arith)))
  | inl null ↦
      let on : ltb rsa_max_padding_retries (retries + 1) ≡ false = ground arith in
      rw (nonzero_bytes, null, on)
        (nonzero_bytes_there (suc n) (retries + 1) entropy (ground arith) (ground arith))
]

with_padding_there :
    (message : Text) (o : Option (Text × Text))
    → is_there o ≡ true
    → is_there (with_padding message o) ≡ true
with_padding_there message none h = cc
with_padding_there message (some (s, rest)) h = refl

pub padded_block_there :
    (size : ℕ) (entropy message : Text)
    → length message + 11 ≤ size
    → zeros entropy ≤ rsa_max_padding_retries
    → size + zeros entropy ≤ length message + 3 + length entropy
    → is_there (padded_block size entropy message) ≡ true
unfolding padded_block
padded_block_there size entropy message fits few enough =
    let short : ltb size (length message + 11) ≡ false = ground arith in
    rw (padded_block, short)
      (with_padding_there message _
        (nonzero_bytes_there (size - length message - 3) 0 entropy (omega arith) (omega arith)))
