-- ===== src/Auth/Hex.antt =====
-- hexEncode of internal/qoderauth/authid.go: two digits for each byte.
use qoder_cpa.Prelude.{
  ℕ, ◌+◌, ◌-◌, ◌*◌, ◌/◌, ◌%◌, ◌<◌, [], ◌∷◌, Text, ltb, leb, if◌then◌else◌, All, ◌≡◌, refl, arith,
  length,
}

-- "0123456789abcdef"[n].
unfoldable pub hex_digit : ℕ → ℕ
hex_digit n = if ltb n 10 then b'0' + n else b'a' + n - 10

unfoldable pub hex_encode : Text → Text
unfolding hex_digit
hex_encode [] = []
hex_encode (v ∷ b) = hex_digit (v / 16) ∷ hex_digit (v % 16) ∷ hex_encode b

-- The value of a digit.
unfoldable pub hex_value : ℕ → ℕ
hex_value c = if leb b'a' c then c - b'a' + 10 else c - b'0'

-- The bytes that a text of digits stands for.
unfoldable pub hex_decode : Text → Text
unfolding hex_value
hex_decode [] = []
hex_decode (h ∷ []) = []
hex_decode (h ∷ l ∷ s) = (hex_value h * 16 + hex_value l) ∷ hex_decode s

abbrev pub IsByte : ℕ → Type 0
IsByte v = v < 256

hex_value-hex_digit : (n : ℕ) → n < 16 → hex_value (hex_digit n) ≡ n
unfolding hex_value hex_digit
hex_value-hex_digit n h = ground arith

hex_byte :
    (v : ℕ) → v < 256 → hex_value (hex_digit (v / 16)) * 16 + hex_value (hex_digit (v % 16)) ≡ v
hex_byte v h =
    omega (
      arith,
      hex_value-hex_digit (v / 16) (omega arith),
      hex_value-hex_digit (v % 16) (omega arith),
    )

-- The digits say which bytes they were made of, and there are two for each byte.
pub hex_decode-hex_encode :
    (b : Text)
    → All IsByte b
    → (hex_decode (hex_encode b) ≡ b) × (length (hex_encode b) ≡ 2 * length b)
unfolding hex_decode hex_encode
hex_decode-hex_encode [] h = (refl, omega arith)
hex_decode-hex_encode (v ∷ b) h =
    let ih = hex_decode-hex_encode b h.1 in (rw (hex_byte v h.0, ih.0) refl, omega (arith, ih.1))
