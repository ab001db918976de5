-- ===== src/Cosy/Crypto/Padding.antt =====
-- The two paddings of internal/qodertransport/cosy/crypto.go can be undone.
use qoder_cpa.Prelude.{
  ℕ, zero, suc, ◌+◌, ◌-◌, ◌%◌, ◌≤◌, ◌<◌, true, false, ◌||◌, [], ◌∷◌, ◌++◌, Option, none, some, Text,
  text_eq, ◌==◌, nat_beq, ltb, length, length-append, take, drop, take-append, drop-append, ◌≡◌,
  refl, ap, ◌∙◌, arith,
}
use qoder_cpa.Cosy.Crypto.{
  copies, padding_for, pkcs7_pad, last_byte, all_are, pkcs7_unpad, Cipher, is_aes_key,
  aes_cbc_encrypt, aes_cbc_decrypt,
}

length-copies : (n c : ℕ) → length (copies n c) ≡ n
length-copies zero c = refl
length-copies (suc n) c = ap suc (length-copies n c)

last_of_copies : (n c : ℕ) → last_byte (copies (suc n) c) ≡ c
last_of_copies zero c = refl
last_of_copies (suc n) c = last_of_copies n c

last_byte-append : (s : Text) (c : ℕ) (t : Text) → last_byte (s ++ c ∷ t) ≡ last_byte (c ∷ t)
last_byte-append [] c t = refl
last_byte-append (x ∷ []) c t = refl
last_byte-append (x ∷ y ∷ s) c t = last_byte-append (y ∷ s) c t

all_are-copies : (n c : ℕ) → all_are c (copies n c) ≡ true
all_are-copies zero c = refl
all_are-copies (suc n) c = ground (arith, all_are-copies n c)

nonempty : (s : Text) (c : ℕ) (t : Text) → (s ++ c ∷ t == []) ≡ false
nonempty [] c t = refl
nonempty (x ∷ s) c t = refl

-- A text with `suc p` copies of that number behind it, whole blocks long, loses them.
unpadded :
    (s : Text) (p : ℕ)
    → (length s + suc p) % 16 ≡ 0
    → suc p ≤ 16
    → pkcs7_unpad 16 (s ++ copies (suc p) (suc p)) ≡ some s
unfolding pkcs7_unpad
unpadded s p whole small =
    let full = s ++ copies (suc p) (suc p) in
    let long : length full ≡ length s + suc p =
      length-append s (copies (suc p) (suc p))
      ∙ ap (λ n. length s + suc n) (length-copies p (suc p)) in
    let last : last_byte full ≡ suc p =
      last_byte-append s (suc p) (copies p (suc p)) ∙ last_of_copies p (suc p) in
    let front : length full - suc p ≡ length s = omega arith in
    let behind : drop (length s) full ≡ copies (suc p) (suc p) =
      drop-append s (copies (suc p) (suc p)) (length s) refl in
    let before : take (length s) full ≡ s =
      take-append s (copies (suc p) (suc p)) (length s) refl in
    let whole' : nat_beq (length full % 16) 0 ≡ true = ground arith in
    let bounded : (nat_beq (suc p) 0 || ltb 16 (suc p)) ≡ false = ground arith in
    rw
      (
        pkcs7_unpad,
        nonempty s (suc p) (copies p (suc p)),
        whole',
        last,
        front,
        bounded,
        behind,
        all_are-copies (suc p) (suc p),
        before,
      )
      refl

padding_fits :
    (n : ℕ) → (0 < padding_for 16 n) × (padding_for 16 n ≤ 16) × ((n + padding_for 16 n) % 16 ≡ 0)
padding_fits n = (omega arith, omega arith, omega arith)

padded_whole : (s : Text) → length (pkcs7_pad 16 s) % 16 ≡ 0
unfolding pkcs7_pad
padded_whole s =
    let p = padding_for 16 (length s) in
    omega (
      arith,
      length-append s (copies p (p % 256)),
      length-copies p (p % 256),
      (padding_fits (length s)).2,
    )

pkcs7_unpad-copies :
    (s : Text) (p : ℕ)
    → 0 < p
    → p ≤ 16
    → (length s + p) % 16 ≡ 0
    → pkcs7_unpad 16 (s ++ copies p (p % 256)) ≡ some s
pkcs7_unpad-copies s zero h k whole = absurd (omega arith)
pkcs7_unpad-copies s (suc p) h k whole =
    let small : suc p % 256 ≡ suc p = omega arith in rw small (unpadded s p whole k)

pkcs7_unpad-pkcs7_pad : (s : Text) → pkcs7_unpad 16 (pkcs7_pad 16 s) ≡ some s
unfolding pkcs7_pad
pkcs7_unpad-pkcs7_pad s =
    let f = padding_fits (length s) in pkcs7_unpad-copies s (padding_for 16 (length s)) f.0 f.1 f.2

-- What a text is decrypted to.
abbrev pub opened : Cipher → Text → Option Text → Option Text
opened aes key none = none
opened aes key (some sealed) = aes_cbc_decrypt aes sealed key

-- With a key that AES takes and a cipher that decrypts what it encrypted, in as many bytes, a text of
-- any length is decrypted to itself.
pub aes_cbc_decrypt-aes_cbc_encrypt :
    (aes : Cipher) (key plain : Text)
    → is_aes_key key ≡ true
    → ((d : Text) → length d % 16 ≡ 0 → aes.decrypt key (aes.encrypt key d) ≡ d)
    → ((d : Text) → length d % 16 ≡ 0 → length (aes.encrypt key d) ≡ length d)
    → opened aes key (aes_cbc_encrypt aes plain key) ≡ some plain
unfolding aes_cbc_encrypt aes_cbc_decrypt
aes_cbc_decrypt-aes_cbc_encrypt aes key plain good back long =
    let whole = padded_whole plain in
    let even : nat_beq (length (aes.encrypt key (pkcs7_pad 16 plain)) % 16) 0 ≡ true =
      ground (arith, long (pkcs7_pad 16 plain) whole) in
    rw (aes_cbc_encrypt, good, aes_cbc_decrypt, good, even, back (pkcs7_pad 16 plain) whole)
      (pkcs7_unpad-pkcs7_pad plain)
