-- ===== src/Transport/Decimal.antt =====
-- itoa of internal/qodertransport/errors.go writes the number that it is given.
use qoder_cpa.Prelude.{
  ℕ, zero, suc, ◌+◌, ◌-◌, ◌*◌, ◌/◌, ◌%◌, ◌^◌, ◌<◌, [], ◌∷◌, Text, ◌≡◌, refl, ap, ◌∙◌, arith, inl,
  inr, Bool-cases, nat_beq, ℤ, pos, negsuc, ◌≤ℤ◌,
}
use native.Mathlib.Numerals.{unary_clauses}
use qoder_cpa.Transport.{digits, itoa}

-- The number that decimal digits write, after those read before.
abbrev pub value : Text → ℕ → ℕ
value [] acc = acc
value (c ∷ s) acc = value s (acc * 10 + (c - 48))

power_step : (fuel : ℕ) → 10 ^ suc fuel ≡ 10 * 10 ^ fuel
power_step fuel = simp unary_clauses (omega arith)

pub value-digits :
    (fuel n : ℕ) (written : Text)
    → n < 10 ^ fuel
    → value (digits fuel n written) 0 ≡ value written n
unfolding digits
value-digits zero n written small = let e : 0 ≡ n = omega arith in ap (value written) e
value-digits (suc fuel) n written small = elim (Bool-cases (nat_beq n 0)) [
  | inl nothing ↦ let e : 0 ≡ n = ground arith in rw (digits, nothing) (ap (value written) e)
  | inr more ↦
      let e : n / 10 * 10 + (48 + n % 10 - 48) ≡ n = omega arith in
      rw (digits, more)
        (value-digits fuel (n / 10) ((48 + n % 10) ∷ written) (omega (arith, power_step fuel))
          ∙ ap (value written) e)
]

-- A text that writes an integer.
abbrev pub Writes : ℤ → Text → Type 0
Writes (pos n) s = value s 0 ≡ n
Writes (negsuc n) s = (body : Text) × (s ≡ 45 ∷ body) × (value body 0 ≡ n + 1)

-- Every 64-bit integer but the least is written in decimal, with a minus sign if it is negative.
pub itoa-Writes :
    (a : ℤ) → a ≤ℤ pos 9223372036854775807 → negsuc 9223372036854775806 ≤ℤ a → Writes a (itoa a)
unfolding itoa
itoa-Writes (pos zero) above below = refl
itoa-Writes (pos (suc n)) above below = value-digits 20 (suc n) [] (omega arith)
itoa-Writes (negsuc n) above below = elim (Bool-cases (nat_beq n 9223372036854775807)) [
  | inl least ↦ absurd (ground arith)
  | inr other ↦
      (digits 20 (n + 1) [], rw (itoa, other) refl, value-digits 20 (n + 1) [] (omega arith))
]
