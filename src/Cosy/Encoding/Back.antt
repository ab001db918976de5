-- ===== src/Cosy/Encoding/Back.antt =====
-- What internal/qodertransport/cosy/encoding.go encodes is decoded as it was.
use qoder_cpa.Prelude.{
  if◌then◌else◌, ℕ, zero, suc, ◌+◌, ◌*◌, ◌/◌, ◌%◌, ◌<◌, Bool, true, false, not, ◌&&◌, ◌||◌, [], ◌∷◌,
  ◌++◌, none, some, List, Text, inl, inr, Bool-cases, text_eq, ◌==◌, nat_beq, All, ◌≡◌, refl, arith,
  ap, ◌∙◌,
}
use qoder_cpa.Auth.Hex.{IsByte}
use qoder_cpa.Cosy.Encoding.{
  body_padding, symbol, value, encode, decode, decode_last, decode_four, decode_fours,
  without_breaks, encode_body, decode_body,
}
use qoder_cpa.Cosy.Encoding.Thirds.{swap_outer_thirds_twice}

-- The symbol of a value has that value, and is neither the padding nor a line break.
is_good : ℕ → Bool
is_good n =
    elim (value (symbol n)) [ none ↦ false | some m ↦ nat_beq m n ]
    && not (nat_beq (symbol n) body_padding)
    && not (nat_beq (symbol n) 10 || nat_beq (symbol n) 13)

-- The values under a bound whose symbols are not good.
misses : ℕ → List ℕ
misses zero = []
misses (suc top) = let lower = misses top in if is_good top then lower else top ∷ lower

no_miss : misses 64 ≡ []
unfolding misses is_good value symbol
no_miss = refl

good_under : (bound n : ℕ) → n < bound → misses bound ≡ [] → is_good n ≡ true
unfolding misses
good_under zero n small none_missed = absurd (omega arith)
good_under (suc top) n small none_missed = elim (Bool-cases (is_good top)) [
  | inr bad ↦ absurd (ground arith)
  | inl fine ↦ ground (arith, good_under top n)
]

good : (n : ℕ) → n < 64 → is_good n ≡ true
good n h = good_under 64 n h no_miss

module _ (n : ℕ) (h : n < 64) where
  value-symbol : value (symbol n) ≡ some n
  unfolding is_good
  value-symbol = ground (arith, good n h)

  symbol_no_padding : nat_beq (symbol n) body_padding ≡ false
  unfolding is_good
  symbol_no_padding = ground (arith, good n h)

  symbol_no_break : (nat_beq (symbol n) 10 || nat_beq (symbol n) 13) ≡ false
  unfolding is_good
  symbol_no_break = ground (arith, good n h)

kept :
    (c : ℕ) (s : Text)
    → (nat_beq c 10 || nat_beq c 13) ≡ false
    → without_breaks (c ∷ s) ≡ c ∷ without_breaks s
unfolding without_breaks
kept c s h = rw h refl

kept_symbol :
    (n : ℕ) (s : Text)
    → n < 64
    → without_breaks s ≡ s
    → without_breaks (symbol n ∷ s) ≡ symbol n ∷ s
kept_symbol n s h same = kept (symbol n) s (symbol_no_break n h) ∙ ap (◌∷◌ (symbol n)) same

kept_pad : (s : Text) → without_breaks s ≡ s → without_breaks (body_padding ∷ s) ≡ body_padding ∷ s
kept_pad s same = kept body_padding s refl ∙ ap (◌∷◌ body_padding) same

kept_nil : without_breaks [] ≡ []
unfolding without_breaks
kept_nil = refl

without_breaks-encode : (b : Text) → All IsByte b → without_breaks (encode b) ≡ encode b
unfolding encode
without_breaks-encode [] h = kept_nil
without_breaks-encode (a ∷ []) h =
    kept_symbol (a / 4) _ (omega arith)
      (kept_symbol (a % 4 * 16) _ (omega arith) (kept_pad _ (kept_pad _ kept_nil)))
without_breaks-encode (a ∷ b ∷ []) h = kept_symbol (a / 4) _ (omega arith) (
    kept_symbol (a % 4 * 16 + b / 16) _ (omega arith)
      (kept_symbol (b % 16 * 4) _ (omega arith) (kept_pad _ kept_nil)))
without_breaks-encode (a ∷ b ∷ c ∷ s) h = kept_symbol (a / 4) _ (omega arith) (
    kept_symbol (a % 4 * 16 + b / 16) _ (omega arith) (
      kept_symbol (b % 16 * 4 + c / 64) _ (omega arith)
        (kept_symbol (c % 64) _ (omega arith) (without_breaks-encode s h.1.1.1))))

four :
    (a b c d : ℕ)
    → a < 64
    → b < 64
    → c < 64
    → d < 64
    → decode_four (symbol a) (symbol b) (symbol c) (symbol d)
      ≡ some ((a * 4 + b / 16) ∷ (b % 16 * 16 + c / 4) ∷ (c % 4 * 64 + d) ∷ [])
unfolding decode_four
four a b c d ha hb hc hd =
    rw (decode_four, value-symbol a ha, value-symbol b hb, value-symbol c hc, value-symbol d hd)
      refl

last_full :
    (a b c d : ℕ)
    → a < 64
    → b < 64
    → c < 64
    → d < 64
    → decode_last (symbol a) (symbol b) (symbol c) (symbol d)
      ≡ some ((a * 4 + b / 16) ∷ (b % 16 * 16 + c / 4) ∷ (c % 4 * 64 + d) ∷ [])
unfolding decode_last
last_full a b c d ha hb hc hd =
    rw
      (
        decode_last,
        value-symbol a ha,
        value-symbol b hb,
        symbol_no_padding c hc,
        value-symbol c hc,
        symbol_no_padding d hd,
        value-symbol d hd,
      )
      refl

last_two :
    (a b c : ℕ)
    → a < 64
    → b < 64
    → c < 64
    → nat_beq (c % 4) 0 ≡ true
    → decode_last (symbol a) (symbol b) (symbol c) body_padding
      ≡ some ((a * 4 + b / 16) ∷ (b % 16 * 16 + c / 4) ∷ [])
unfolding decode_last
last_two a b c ha hb hc z =
    rw
      (
        decode_last,
        value-symbol a ha,
        value-symbol b hb,
        symbol_no_padding c hc,
        value-symbol c hc,
        z,
      )
      refl

last_one :
    (a b : ℕ)
    → a < 64
    → b < 64
    → nat_beq (b % 16) 0 ≡ true
    → decode_last (symbol a) (symbol b) body_padding body_padding ≡ some ((a * 4 + b / 16) ∷ [])
unfolding decode_last
last_one a b ha hb z = rw (decode_last, value-symbol a ha, value-symbol b hb, z) refl

more :
    (w x y z : ℕ) (t a b : Text)
    → (t == []) ≡ false
    → decode_four w x y z ≡ some a
    → decode_fours t ≡ some b
    → decode_fours (w ∷ x ∷ y ∷ z ∷ t) ≡ some (a ++ b)
unfolding decode_fours
more w x y z [] a b h p q = cc
more w x y z (v ∷ s) a b h p q = rw (p, q) refl

encode_more : (c : ℕ) (s : Text) → (encode (c ∷ s) == []) ≡ false
unfolding encode
encode_more c [] = refl
encode_more c (d ∷ []) = refl
encode_more c (d ∷ e ∷ s) = refl

only_back : (a : ℕ) → a < 256 → a / 4 * 4 + a % 4 * 16 / 16 ≡ a
only_back a h = omega arith

last_back : (a b : ℕ) → b < 256 → (a % 4 * 16 + b / 16) % 16 * 16 + b % 16 * 4 / 4 ≡ b
last_back a b h = omega arith

first_back : (a b : ℕ) → a < 256 → b < 256 → a / 4 * 4 + (a % 4 * 16 + b / 16) / 16 ≡ a
first_back a b ha hb = omega arith

second_back :
    (a b c : ℕ)
    → b < 256
    → c < 256
    → (a % 4 * 16 + b / 16) % 16 * 16 + (b % 16 * 4 + c / 64) / 4 ≡ b
second_back a b c hb hc = omega arith

third_back : (b c : ℕ) → c < 256 → (b % 16 * 4 + c / 64) % 4 * 64 + c % 64 ≡ c
third_back b c hc = omega arith

decode_fours-encode : (b : Text) → All IsByte b → decode_fours (encode b) ≡ some b
unfolding encode decode_fours
decode_fours-encode [] h = refl
decode_fours-encode (a ∷ []) h =
    last_one (a / 4) (a % 4 * 16) (omega arith) (omega arith) (ground arith)
    ∙ rw (only_back a h.0) refl
decode_fours-encode (a ∷ b ∷ []) h =
    last_two (a / 4) (a % 4 * 16 + b / 16) (b % 16 * 4) (omega arith) (omega arith) (omega arith)
      (ground arith)
    ∙ rw (first_back a b h.0 h.1.0, last_back a b h.1.0) refl
decode_fours-encode (a ∷ b ∷ c ∷ []) h =
    last_full (a / 4) (a % 4 * 16 + b / 16) (b % 16 * 4 + c / 64) (c % 64) (omega arith)
      (omega arith) (omega arith) (omega arith)
    ∙ rw (first_back a b h.0 h.1.0, second_back a b c h.1.0 h.1.1.0, third_back b c h.1.1.0) refl
decode_fours-encode (a ∷ b ∷ c ∷ d ∷ s) h =
    more (symbol (a / 4)) (symbol (a % 4 * 16 + b / 16)) (symbol (b % 16 * 4 + c / 64))
      (symbol (c % 64)) (encode (d ∷ s)) _ (d ∷ s) (encode_more d s)
      (four (a / 4) (a % 4 * 16 + b / 16) (b % 16 * 4 + c / 64) (c % 64) (omega arith) (omega arith)
        (omega arith) (omega arith))
      (decode_fours-encode (d ∷ s) h.1.1.1)
    ∙ rw (first_back a b h.0 h.1.0, second_back a b c h.1.0 h.1.1.0, third_back b c h.1.1.0) refl

-- A body of bytes is decoded as it was encoded, whatever its length.
pub decode_body-encode_body :
    (raw : Text) → All IsByte raw → decode_body (encode_body raw) ≡ some raw
unfolding decode_body encode_body decode
decode_body-encode_body raw h =
    rw ((swap_outer_thirds_twice (encode raw)).0, without_breaks-encode raw h)
      (decode_fours-encode raw h)
