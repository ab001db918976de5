-- ===== src/Cosy/Crypto/Opens.antt =====
-- The fields of internal/qodertransport/cosy/crypto.go, and who opens them.
use qoder_cpa.Prelude.{
  ap, ◌∙◌, sym, suc, ℕ, zero, suc, ◌+◌, ◌*◌, ◌%◌, ◌≤◌, true, false, [], ◌∷◌, Option, none, some,
  Text, text_eq, ltb, length, take, drop, length-take, length-drop, ◌≡◌, refl, ap, arith,
}
use qoder_cpa.Auth.Hex.{hex_encode}
use qoder_cpa.Cosy.Send.{RuntimeFields}
use qoder_cpa.Cosy.Crypto.{
  reversed, set_at, reverse_mask_uuid, runtime_ascii_key, key_of, is_aes_key, Cipher,
  aes_cbc_encrypt, aes_cbc_decrypt, padded_block, rsa_max_padding_retries, PublicKey, zero_filled,
  filled, rsa_encrypt, both, derive_runtime_fields,
}
use qoder_cpa.Cosy.Crypto.Padding.{opened, aes_cbc_decrypt-aes_cbc_encrypt}
use qoder_cpa.Cosy.Crypto.Wrapped.{
  message_of, zeros, is_there, IsBlock, padded_block-IsBlock, padded_block_there,
}

length-set_at : (n : ℕ) (f : ℕ → ℕ) (s : Text) → length (set_at n f s) ≡ length s
length-set_at n f [] = refl
length-set_at zero f (c ∷ s) = refl
length-set_at (suc n) f (c ∷ s) = ap suc (length-set_at n f s)

length-reversed : (s done : Text) → length (reversed s done) ≡ length s + length done
length-reversed [] done = omega arith
length-reversed (c ∷ s) done = omega (arith, length-reversed s (c ∷ done))

length-hex_encode : (b : Text) → length (hex_encode b) ≡ 2 * length b
unfolding hex_encode
length-hex_encode [] = refl
length-hex_encode (c ∷ b) = omega (arith, length-hex_encode b)

length-key_of : (entropy : Text) → 16 ≤ length entropy → length (key_of entropy) ≡ 16
unfolding runtime_ascii_key reverse_mask_uuid
length-key_of entropy h =
    let raw = take 16 entropy in
    let once = set_at 6 (λ c. c % 16 + 0x40) (reversed raw []) in
    let twice = set_at 8 (λ c. c % 64 + 0x80) once in
    omega (
      arith,
      length-hex_encode (take 8 twice),
      length-take 8 twice,
      length-set_at 8 (λ c. c % 64 + 0x80) once,
      length-set_at 6 (λ c. c % 16 + 0x40) (reversed raw []),
      length-reversed raw [],
      length-take 16 entropy,
    )

key_of-IsAes : (entropy : Text) → 16 ≤ length entropy → is_aes_key (key_of entropy) ≡ true
unfolding is_aes_key
key_of-IsAes entropy h = ground (arith, length-key_of entropy h)

-- The gateway: it has the private power, that gives a block back in full.
abbrev with_key : Cipher → Text → Option Text → Option Text
with_key aes sealed none = none
with_key aes sealed (some key) = aes_cbc_decrypt aes sealed key

unfoldable pub gateway_reads : Cipher → (Text → Text) → (Text → Text) → RuntimeFields → Option Text
unfolding message_of
gateway_reads aes private unbase64 f =
    with_key aes (unbase64 f.encrypt_user_info) (message_of (private (unbase64 f.key)))

abbrev pub read_back : Cipher → (Text → Text) → (Text → Text) → Option RuntimeFields → Option Text
read_back aes private unbase64 none = none
read_back aes private unbase64 (some f) = gateway_reads aes private unbase64 f

module _ (aes : Cipher) (pk : PublicKey) (private base64 unbase64 : Text → Text) where
  both_back :
      (sealed block : Option Text) (key plain : Text)
      → opened aes key sealed ≡ some plain
      → is_there block ≡ true
      → IsBlock pk.size key block
      → ((d : Text)
          → suc (length d) ≡ pk.size
          → private (zero_filled pk.size (pk.power (0 ∷ d))) ≡ 0 ∷ d)
      → ((d : Text) → unbase64 (base64 d) ≡ d)
      → read_back aes private unbase64 (both base64 sealed (filled pk block)) ≡ some plain
  unfolding gateway_reads
  both_back none block key plain o t b p u = cc
  both_back (some s) none key plain o t b p u = cc
  both_back (some s) (some d) key plain o t b p u =
      let (sized, carries, (rest, lead)) = b in
      let same : private (zero_filled pk.size (pk.power d)) ≡ d =
        rw lead (p rest (ap (λ (t : Text). length t) (sym lead) ∙ sized)) in
      rw (gateway_reads, u s, u (zero_filled pk.size (pk.power d)), same, carries) o

  -- For a public key of at least 27 bytes, and entropy with sixteen bytes for the AES key and enough
  -- that are not zero for the padding, at most 1024 of them zero, the fields are derived, and they are
  -- complete for the gateway: it opens the wrapped key with its private key, and decrypts with it exactly
  -- the text that was written. AES is taken to undo itself under a key that it takes, in whole blocks and
  -- as many bytes; the private key to undo the public one on blocks of its size that begin with a zero,
  -- which are below every modulus of that size; and base64 to be read back.
  pub derive_runtime_fields_back :
      (entropy plain : Text)
      → ((k d : Text)
          → is_aes_key k ≡ true
          → length d % 16 ≡ 0
          → aes.decrypt k (aes.encrypt k d) ≡ d)
      → ((k d : Text)
          → is_aes_key k ≡ true
          → length d % 16 ≡ 0
          → length (aes.encrypt k d) ≡ length d)
      → ((d : Text)
          → suc (length d) ≡ pk.size
          → private (zero_filled pk.size (pk.power (0 ∷ d))) ≡ 0 ∷ d)
      → ((d : Text) → unbase64 (base64 d) ≡ d)
      → 16 ≤ length entropy
      → 27 ≤ pk.size
      → zeros (drop 16 entropy) ≤ rsa_max_padding_retries
      → pk.size + zeros (drop 16 entropy) ≤ length entropy + 3
      → read_back aes private unbase64 (derive_runtime_fields aes pk base64 entropy plain)
        ≡ some plain
  unfolding derive_runtime_fields rsa_encrypt
  derive_runtime_fields_back entropy plain back long powers codes sixteen big few enough =
      let short : ltb (length entropy) 16 ≡ false = ground arith in
      let key = key_of entropy in
      let rest = drop 16 entropy in
      let size_of = length-key_of entropy sixteen in
      let good = key_of-IsAes entropy sixteen in
      rw (derive_runtime_fields, short)
        (both_back (aes_cbc_encrypt aes plain key) (padded_block pk.size rest key) key plain
          (aes_cbc_decrypt-aes_cbc_encrypt aes key plain good (λ d. back key d good)
            λ d. long key d good)
          (padded_block_there pk.size rest key (omega arith) few
            (omega (arith, length-drop 16 entropy)))
          (padded_block-IsBlock pk.size rest key) powers codes)
