-- ===== src/Prelude/Int.antt =====
-- Go's `int` and `int64`: integers over the native numbers, and the wrap to 64 bits.
use Prim.Native.Nat.{ℕ, suc, ◌+◌, ◌-◌, ◌*◌, ◌%◌, ◌≤◌, ◌<◌}
use mathlib.Core.Path.{◌≡◌}
use mathlib.Core.Logic.{◌↔◌}
use mathlib.Core.Bool.{Bool, true, false}
use native.Mathlib.Omega.{arith}
use qoder_cpa.Prelude.Tests.{Eq, ltb, leb, nat_beq, if◌then◌else◌}

-- `negsuc n` is -(n + 1).
pub data ℤ : Type 0 where
  pos : ℕ → ℤ
  negsuc : ℕ → ℤ

abbrev pub int_beq : ℤ → ℤ → Bool
int_beq (pos a) (pos b) = nat_beq a b
int_beq (negsuc a) (negsuc b) = nat_beq a b
int_beq (pos a) (negsuc b) = false
int_beq (negsuc a) (pos b) = false

pub int_beq_iff : (a b : ℤ) → (int_beq a b ≡ true) ↔ (a ≡ b)
int_beq_iff (pos a) (pos b) = ground arith
int_beq_iff (negsuc a) (negsuc b) = ground arith
int_beq_iff (pos a) (negsuc b) = ground arith
int_beq_iff (negsuc a) (pos b) = ground arith

instance abbrev pub int_eq : Eq ℤ
int_eq = record { same = int_beq; same_iff = int_beq_iff }

abbrev pub pos_part : ℤ → ℕ
pos_part (pos n) = n
pos_part (negsuc n) = 0

abbrev pub neg_part : ℤ → ℕ
neg_part (pos n) = 0
neg_part (negsuc n) = suc n

abbrev pub sub_ℕ : ℕ → ℕ → ℤ
sub_ℕ a b = if leb b a then pos (a - b) else negsuc (b - a - 1)

infix 50 ◌≤ℤ◌
abbrev pub ◌≤ℤ◌ : ℤ → ℤ → Type 0
a ≤ℤ b = pos_part a + neg_part b ≤ pos_part b + neg_part a

abbrev pub ltb_ℤ : ℤ → ℤ → Bool
ltb_ℤ a b = ltb (pos_part a + neg_part b) (pos_part b + neg_part a)

abbrev pub leb_ℤ : ℤ → ℤ → Bool
leb_ℤ a b = leb (pos_part a + neg_part b) (pos_part b + neg_part a)

-- The sum of two integers that does not wrap, for instants.
abbrev pub plus : ℤ → ℤ → ℤ
plus a b = sub_ℕ (pos_part a + pos_part b) (neg_part a + neg_part b)

abbrev pub word_mod : ℕ
word_mod = 18446744073709551616

abbrev pub half_word : ℕ
half_word = 9223372036854775808

-- The signed reading of a 64-bit pattern.
abbrev pub of_word : ℕ → ℤ
of_word u = if ltb u half_word then pos u else negsuc (word_mod - 1 - u)

-- The 64-bit integer that is left of an integer: two's complement, wrapped.
unfoldable pub int64 : ℤ → ℤ
int64 (pos n) = of_word (n % word_mod)
int64 (negsuc n) = of_word (word_mod - 1 - n % word_mod)

-- `+` and `*` of int64.
infixl 65 ◌+ℤ◌
unfoldable pub ◌+ℤ◌ : ℤ → ℤ → ℤ
unfolding int64
a +ℤ b = int64 (sub_ℕ (pos_part a + pos_part b) (neg_part a + neg_part b))

infixl 70 ◌*ℤ◌
unfoldable pub ◌*ℤ◌ : ℤ → ℤ → ℤ
unfolding int64
a *ℤ b = int64 (
    sub_ℕ (pos_part a * pos_part b + neg_part a * neg_part b)
      (pos_part a * neg_part b + neg_part a * pos_part b))

-- A sum and a product that fit do not wrap.
pub +ℤ-pos : (a b : ℕ) → a + b < half_word → pos a +ℤ pos b ≡ pos (a + b)
unfolding ◌+ℤ◌
+ℤ-pos a b h = ground arith

pub *ℤ-pos : (a b : ℕ) → a * b < half_word → pos a *ℤ pos b ≡ pos (a * b)
unfolding ◌*ℤ◌
*ℤ-pos a b h = ground arith

int64_range : (a : ℤ) → (int64 a ≤ℤ pos (half_word - 1)) × (negsuc (half_word - 1) ≤ℤ int64 a)
unfolding int64
int64_range a = ground arith
