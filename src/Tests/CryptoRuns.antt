-- ===== src/Tests/CryptoRuns.antt =====
-- The fields of an account with a cipher, a power and a base64 that write everything backwards.
use mathlib.Core.List.{reverse, reverse-reverse, reverse-append}
use qoder_cpa.Prelude.{
  ap, ◌∙◌, suc, length-append, [], ◌∷◌, ◌++◌, [], ◌∷◌, ◌++◌, none, some, Text, text_eq, codes, ◌≡◌,
  refl, length, arith,
}
use qoder_cpa.Auth.Hex.{hex_encode, hex_digit}
use qoder_cpa.Cosy.Crypto.{
  Cipher, PublicKey, copies, zero_filled, reverse_mask_uuid, runtime_ascii_key, key_of, pkcs7_pad,
  pkcs7_unpad, derive_runtime_fields,
}
use qoder_cpa.Cosy.Crypto.Opens.{read_back, derive_runtime_fields_back}

abbrev turning : Cipher
turning = record { encrypt = λ k d. reverse d; decrypt = λ k d. reverse d }

abbrev public_key : PublicKey
public_key = record { size = 30; power = reverse }

abbrev entropy : Text
entropy = copies 16 0xff ++ 0 ∷ copies 20 7

masked : key_of entropy ≡ codes "ffffffffffff4fff"
unfolding runtime_ascii_key reverse_mask_uuid hex_encode hex_digit
masked = refl

padded : pkcs7_pad 16 (codes "ab") ≡ codes "ab" ++ copies 14 14
unfolding pkcs7_pad
padded = refl

unpadded_wrong : pkcs7_unpad 16 (codes "aaaaaaaaaaaaab" ++ 1 ∷ 2 ∷ []) ≡ none
unfolding pkcs7_unpad
unpadded_wrong = refl

length-reverse : (s : Text) → length (reverse s) ≡ length s
length-reverse [] = refl
length-reverse (c ∷ s) = omega (
  arith,
  ap (λ (t : Text). length t) (reverse-append (c ∷ []) s),
  length-append (reverse s) (c ∷ []),
  length-reverse s,
)

filled_up : (d : Text) → length d ≡ 30 → zero_filled 30 d ≡ d
filled_up d h = rw h refl

-- The power writes the block backwards.
backwards : (d : Text) → suc (length d) ≡ 30 → reverse (zero_filled 30 (reverse (0 ∷ d))) ≡ 0 ∷ d
backwards d h =
    ap reverse (filled_up (reverse (0 ∷ d)) (length-reverse (0 ∷ d) ∙ h)) ∙ reverse-reverse (0 ∷ d)

derive_runtime_fields_back_example :
    read_back turning reverse reverse
      (derive_runtime_fields turning public_key reverse entropy (codes "plain"))
    ≡ some (codes "plain")
derive_runtime_fields_back_example =
    derive_runtime_fields_back turning public_key reverse reverse reverse entropy (codes "plain")
      (λ k d good h. reverse-reverse d) (λ k d good h. length-reverse d) backwards reverse-reverse
      (omega arith) (omega arith) (omega arith) (omega arith)
