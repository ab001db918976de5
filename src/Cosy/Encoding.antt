-- ===== src/Cosy/Encoding.antt =====
-- internal/qodertransport/cosy/encoding.go: bodies in a private base64 alphabet whose outer thirds
-- are swapped.
pub mod Thirds
pub mod Back
use qoder_cpa.Prelude.{
  ℕ, zero, suc, ◌+◌, ◌-◌, ◌*◌, ◌/◌, ◌%◌, Bool, true, false, ◌&&◌, ◌||◌, List, [], ◌∷◌, ◌++◌, Option,
  none, some, Text, codes, if◌then◌else◌, nat_beq, length, take, drop,
}

unfoldable pub body_alphabet : Text
body_alphabet = codes "_doRTgHZBKcGVjlvpC,@aFSx#DPuNJme&i*MzLOEn)sUrthbf%Y^w.(kIQyXqWA!"

abbrev pub body_padding : ℕ
body_padding = b'$'

-- The outer thirds change places; what is left of the division stays in the middle.
unfoldable pub swap_outer_thirds : Text → Text
swap_outer_thirds src =
    let q = length src / 3 in
    let n = length src in drop (n - q) src ++ (drop q (take (n - q) src) ++ take q src)

unfoldable pub symbol_at : ℕ → Text → ℕ
symbol_at n [] = 0
symbol_at zero (c ∷ s) = c
symbol_at (suc n) (c ∷ s) = symbol_at n s

-- The place of a symbol from `i` on.
unfoldable pub place_from : ℕ → ℕ → Text → Option ℕ
place_from i c [] = none
place_from i c (x ∷ s) = if nat_beq c x then some i else place_from (i + 1) c s

unfoldable pub symbol : ℕ → ℕ
unfolding symbol_at body_alphabet
symbol n = symbol_at n body_alphabet

unfoldable pub value : ℕ → Option ℕ
unfolding place_from body_alphabet
value c = place_from 0 c body_alphabet

-- Encode of encoding/base64.
unfoldable pub encode : Text → Text
encode [] = []
encode (a ∷ []) = symbol (a / 4) ∷ symbol (a % 4 * 16) ∷ body_padding ∷ body_padding ∷ []
encode (a ∷ b ∷ []) =
    symbol (a / 4) ∷ symbol (a % 4 * 16 + b / 16) ∷ symbol (b % 16 * 4) ∷ body_padding ∷ []
encode (a ∷ b ∷ c ∷ s) =
    symbol (a / 4)
    ∷ symbol (a % 4 * 16 + b / 16)
    ∷ symbol (b % 16 * 4 + c / 64)
    ∷ symbol (c % 64)
    ∷ encode s

abbrev pub bind_option {ℓ κ} : {A : Type ℓ} {B : Type κ} → Option A → (A → Option B) → Option B
bind_option none f = none
bind_option (some a) f = f a

abbrev pub when : Bool → Text → Option Text
when true s = some s
when false s = none

-- The last four symbols, with the bits that are left over being zero, as Strict asks for.
unfoldable pub decode_last : ℕ → ℕ → ℕ → ℕ → Option Text
decode_last w x y z = bind_option (value w) λ a. bind_option (value x) λ b.
    if nat_beq y body_padding
    then when (nat_beq z body_padding && nat_beq (b % 16) 0) ((a * 4 + b / 16) ∷ [])
    else bind_option (value y) λ c.
      if nat_beq z body_padding
      then when (nat_beq (c % 4) 0) ((a * 4 + b / 16) ∷ (b % 16 * 16 + c / 4) ∷ [])
      else bind_option (value z)
          λ d. some ((a * 4 + b / 16) ∷ (b % 16 * 16 + c / 4) ∷ (c % 4 * 64 + d) ∷ [])

-- Four symbols that are not the last.
unfoldable pub decode_four : ℕ → ℕ → ℕ → ℕ → Option Text
decode_four w x y z = bind_option (value w) λ a. bind_option (value x) λ b.
    bind_option (value y) λ c.
      bind_option (value z)
        λ d. some ((a * 4 + b / 16) ∷ (b % 16 * 16 + c / 4) ∷ (c % 4 * 64 + d) ∷ [])

unfoldable pub decode_fours : Text → Option Text
decode_fours [] = some []
decode_fours (w ∷ []) = none
decode_fours (w ∷ x ∷ []) = none
decode_fours (w ∷ x ∷ y ∷ []) = none
decode_fours (w ∷ x ∷ y ∷ z ∷ []) = decode_last w x y z
decode_fours (w ∷ x ∷ y ∷ z ∷ v ∷ s) =
    let rest = decode_fours (v ∷ s) in
    bind_option (decode_four w x y z) λ a. bind_option rest λ b. some (a ++ b)

-- Line breaks are passed over.
unfoldable pub without_breaks : Text → Text
without_breaks [] = []
without_breaks (c ∷ s) =
    if nat_beq c 10 || nat_beq c 13 then without_breaks s else c ∷ without_breaks s

-- Decode of encoding/base64.
unfoldable pub decode : Text → Option Text
unfolding decode_fours decode_last decode_four without_breaks
decode s = decode_fours (without_breaks s)

unfoldable pub encode_body : Text → Text
encode_body raw = swap_outer_thirds (encode raw)

-- A nil slice is `none`.
unfoldable pub decode_body : Text → Option Text
decode_body encoded = decode (swap_outer_thirds encoded)
