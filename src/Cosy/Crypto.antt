-- ===== src/Cosy/Crypto.antt =====
-- internal/qodertransport/cosy/crypto.go: the fields that go with every request of an account. The block
-- cipher, the modular power and base64 are parameters; the entropy is a list of bytes.
pub mod Padding
pub mod Wrapped
pub mod Opens
use qoder_cpa.Prelude.{
  ℕ, zero, suc, ◌+◌, ◌-◌, ◌*◌, ◌/◌, ◌%◌, Bool, true, false, not, ◌&&◌, ◌||◌, List, [], ◌∷◌, ◌++◌,
  Option, none, some, Text, text_eq, ◌==◌, nat_beq, ltb, leb, if◌then◌else◌, length, take, drop,
}
use qoder_cpa.Auth.Hex.{hex_encode}
use qoder_cpa.Cosy.Send.{RuntimeFields}

abbrev pub reversed : Text → Text → Text
reversed [] done = done
reversed (c ∷ s) done = reversed s (c ∷ done)

-- The byte at a place is replaced.
abbrev pub set_at : ℕ → (ℕ → ℕ) → Text → Text
set_at n f [] = []
set_at zero f (c ∷ s) = f c ∷ s
set_at (suc n) f (c ∷ s) = c ∷ set_at n f s

-- `& 0x0f | 0x40` and `& 0x3f | 0x80`.
unfoldable pub reverse_mask_uuid : Text → Text
reverse_mask_uuid raw =
    set_at 8 (λ c. c % 64 + 0x80) (set_at 6 (λ c. c % 16 + 0x40) (reversed raw []))

unfoldable pub runtime_ascii_key : Text → Text
runtime_ascii_key value = hex_encode (take 8 value)

abbrev pub copies : ℕ → ℕ → Text
copies zero c = []
copies (suc n) c = c ∷ copies n c

-- The padding that a length needs.
abbrev pub padding_for : ℕ → ℕ → ℕ
padding_for block len = block - len % block

unfoldable pub pkcs7_pad : ℕ → Text → Text
pkcs7_pad block s = let p = padding_for block (length s) in s ++ copies p (p % 256)

abbrev pub last_byte : Text → ℕ
last_byte [] = 0
last_byte (c ∷ []) = c
last_byte (c ∷ d ∷ s) = last_byte (d ∷ s)

abbrev pub all_are : ℕ → Text → Bool
all_are v [] = true
all_are v (c ∷ s) = nat_beq c v && all_are v s

unfoldable pub pkcs7_unpad : ℕ → Text → Option Text
pkcs7_unpad block padded =
    let pad = last_byte padded in
    if padded == [] || not (nat_beq (length padded % block) 0)
    then none
    else if nat_beq pad 0 || ltb block pad
    then none
    else if all_are pad (drop (length padded - pad) padded)
    then some (take (length padded - pad) padded)
    else none

-- CBC over whole blocks, the key being the first vector too.
pub record Cipher : Type 0 where
  pub encrypt : Text → Text → Text
  pub decrypt : Text → Text → Text

abbrev pub block_size : ℕ
block_size = 16

-- aes.NewCipher takes 16, 24 and 32 bytes.
unfoldable pub is_aes_key : Text → Bool
is_aes_key key = nat_beq (length key) 16 || nat_beq (length key) 24 || nat_beq (length key) 32

unfoldable pub aes_cbc_encrypt : Cipher → Text → Text → Option Text
unfolding is_aes_key pkcs7_pad
aes_cbc_encrypt aes plain key =
    if is_aes_key key then some (aes.encrypt key (pkcs7_pad block_size plain)) else none

unfoldable pub aes_cbc_decrypt : Cipher → Text → Text → Option Text
unfolding is_aes_key pkcs7_unpad
aes_cbc_decrypt aes sealed key =
    if not (is_aes_key key)
    then none
    else if not (nat_beq (length sealed % block_size) 0)
    then none
    else pkcs7_unpad block_size (aes.decrypt key sealed)

abbrev pub rsa_max_padding_retries : ℕ
rsa_max_padding_retries = 1024

abbrev pub consed : ℕ → Option (Text × Text) → Option (Text × Text)
consed c none = none
consed c (some (s, rest)) = some (c ∷ s, rest)

-- The loop over the padding: `n` bytes that are not 0, and the entropy that is left; `retries` zeros were
-- read since the last byte that was taken.
unfoldable pub nonzero_bytes : ℕ → ℕ → Text → Option (Text × Text)
nonzero_bytes zero retries entropy = some ([], entropy)
nonzero_bytes (suc n) retries [] = none
nonzero_bytes (suc n) retries (c ∷ entropy) =
    let again = nonzero_bytes (suc n) (retries + 1) entropy in
    let next = nonzero_bytes n 0 entropy in
    if nat_beq c 0
    then if ltb rsa_max_padding_retries (retries + 1) then none else again
    else consed c next

abbrev pub with_padding : Text → Option (Text × Text) → Option Text
with_padding message none = none
with_padding message (some (padding, rest)) = some (0 ∷ 2 ∷ padding ++ 0 ∷ message)

-- The block that is encrypted; the message and eleven bytes more fit into it.
unfoldable pub padded_block : ℕ → Text → Text → Option Text
unfolding nonzero_bytes
padded_block size entropy message =
    if ltb size (length message + 11)
    then none
    else with_padding message (nonzero_bytes (size - length message - 3) 0 entropy)

-- The public key: its size in bytes, and the bytes of the power, without zeros at the front.
pub record PublicKey : Type 0 where
  pub size : ℕ
  pub power : Text → Text

-- The bytes of the power, filled up with zeros at the front.
abbrev pub zero_filled : ℕ → Text → Text
zero_filled size encrypted = copies (size - length encrypted) 0 ++ encrypted

abbrev pub filled : PublicKey → Option Text → Option Text
filled pk none = none
filled pk (some block) = some (zero_filled pk.size (pk.power block))

unfoldable pub rsa_encrypt : PublicKey → Text → Text → Option Text
unfolding padded_block
rsa_encrypt pk entropy message = filled pk (padded_block pk.size entropy message)

abbrev pub both : (Text → Text) → Option Text → Option Text → Option RuntimeFields
both base64 none wrapped = none
both base64 (some sealed) none = none
both base64 (some sealed) (some wrapped) =
    some (record { encrypt_user_info = base64 sealed; key = base64 wrapped })

-- The key that sixteen bytes of entropy give.
abbrev pub key_of : Text → Text
key_of entropy = runtime_ascii_key (reverse_mask_uuid (take 16 entropy))

-- DeriveRuntimeFields of the plaintext that encoding/json writes of its input.
unfoldable pub derive_runtime_fields :
    Cipher → PublicKey → (Text → Text) → Text → Text → Option RuntimeFields
unfolding aes_cbc_encrypt rsa_encrypt runtime_ascii_key reverse_mask_uuid
derive_runtime_fields aes pk base64 entropy plain =
    if ltb (length entropy) 16
    then none
    else both base64 (aes_cbc_encrypt aes plain (key_of entropy))
        (rsa_encrypt pk (drop 16 entropy) (key_of entropy))
