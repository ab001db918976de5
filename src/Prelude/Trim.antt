-- ===== src/Prelude/Trim.antt =====
-- strings.TrimSpace on a text that ends in a dash and digits: only what is before the dash changes.
use Prim.Native.Nat.{ℕ, zero, suc, ◌≤◌}
use mathlib.Core.Path.{◌≡◌, refl, sym, ap, ◌∙◌}
use mathlib.Core.Bool.{true, false, ◌&&◌, ◌||◌}
use mathlib.Core.List.{[], ◌∷◌, ◌++◌, append_assoc, reverse, reverse-append, reverse-reverse}
use native.Mathlib.Omega.{arith}
use qoder_cpa.Prelude.Tests.{leb, nat_beq, Text, if◌then◌else◌}
use qoder_cpa.Prelude.Lists.{length}
use qoder_cpa.Prelude.Strings.{
  trim_space, trim_from, space_width, space_width_rev, is_ascii_space, is_space2, is_space3,
}

at_dash : (s : Text) → trim_from space_width 0 (b'-' ∷ s) ≡ b'-' ∷ s
unfolding trim_from space_width is_ascii_space is_space2 is_space3
at_dash [] = refl
at_dash (b ∷ []) = refl
at_dash (b ∷ c ∷ s) = refl

-- What the trimming leaves before the dash does not depend on what is after it.
abbrev Kept : ℕ → Text → Type 0
Kept n a = (p : Text) × ((s : Text) → trim_from space_width n (a ++ b'-' ∷ s) ≡ p ++ b'-' ∷ s)

stepped :
    (k c : ℕ) (a : Text)
    → ((s : Text) → space_width (c ∷ (a ++ b'-' ∷ s)) ≡ k)
    → ((n : ℕ) → suc n ≡ k → Kept n a)
    → Kept 0 (c ∷ a)
unfolding trim_from
stepped zero c a width rest = (c ∷ a, λ s. rw (trim_from, width s) refl)
stepped (suc n) c a width rest = let r = rest n refl in (r.0, λ s. rw (trim_from, width s) (r.1 s))

abbrev width_one : ℕ → ℕ
width_one c = if is_ascii_space c then 1 else 0

abbrev width_three : ℕ → ℕ → ℕ → ℕ
width_three a b c =
    if is_ascii_space a then 1 else if is_space2 a b then 2 else if is_space3 a b c then 3 else 0

before_dash : (c : ℕ) (s : Text) → space_width (c ∷ b'-' ∷ s) ≡ width_one c
unfolding space_width is_ascii_space is_space2 is_space3
before_dash c [] = ground arith
before_dash c (x ∷ s) = ground arith

one_bound : (c n : ℕ) → suc n ≡ width_one c → n ≤ 0
one_bound c n e = ground arith

two_bound : (a b n : ℕ) → suc n ≡ width_three a b b'-' → n ≤ 1
unfolding is_space3
two_bound a b n e = ground arith

three_bound : (a b c n : ℕ) → suc n ≡ width_three a b c → n ≤ 2
three_bound a b c n e = ground arith

left_of_dash : (n : ℕ) (a : Text) → n ≤ length a → Kept n a
unfolding trim_from space_width
left_of_dash zero [] h = ([], at_dash)
left_of_dash (suc n) [] h = absurd (omega arith)
left_of_dash (suc n) (c ∷ a) h = left_of_dash n a (omega arith)
left_of_dash zero (c ∷ []) h =
    stepped (width_one c) c [] (before_dash c) λ n e. left_of_dash n [] (one_bound c n e)
left_of_dash zero (c ∷ b ∷ []) h =
    stepped (width_three c b b'-') c (b ∷ []) (λ s. refl)
      λ n e. left_of_dash n (b ∷ []) (two_bound c b n e)
left_of_dash zero (c ∷ b ∷ d ∷ a) h =
    stepped (width_three c b d) c (b ∷ d ∷ a) (λ s. refl)
      λ n e. left_of_dash n (b ∷ d ∷ a) (omega (arith, three_bound c b d n e))

module _ (d : ℕ) (h : (leb 48 d && leb d 57) ≡ true) where
  digit_not_blank : is_ascii_space d ≡ false
  unfolding is_ascii_space
  digit_not_blank = ground arith

  digit_not_second : (a : ℕ) → is_space2 a d ≡ false
  unfolding is_space2
  digit_not_second a = ground arith

  digit_not_third : (a b : ℕ) → is_space3 a b d ≡ false
  unfolding is_space3
  digit_not_third a b =
      let low : leb 0x80 d ≡ false = ground arith in
      let other : (nat_beq d 0x80
            || nat_beq d 0xa8
            || nat_beq d 0xa9
            || nat_beq d 0xaf
            || nat_beq d 0x9f)
          ≡ false =
        ground arith in
      ground arith

  at_digit : (s : Text) → trim_from space_width_rev 0 (d ∷ s) ≡ d ∷ s
  unfolding trim_from space_width_rev
  at_digit [] = rw (trim_from, digit_not_blank) refl
  at_digit (b ∷ []) = rw (trim_from, digit_not_blank, digit_not_second b) refl
  at_digit (b ∷ a ∷ s) =
      rw (trim_from, digit_not_blank, digit_not_second b, digit_not_third a b) refl

right_of_digit :
    (s : Text) (d : ℕ)
    → (leb 48 d && leb d 57) ≡ true
    → reverse (trim_from space_width_rev 0 (reverse (s ++ d ∷ []))) ≡ s ++ d ∷ []
right_of_digit s d h =
    ap (λ (r : Text). reverse (trim_from space_width_rev 0 r)) (reverse-append s (d ∷ []))
    ∙ ap reverse (at_digit d h (reverse s))
    ∙ ap reverse (sym (reverse-append s (d ∷ [])))
    ∙ reverse-reverse (s ++ d ∷ [])

-- A text that ends in a dash and digits keeps both.
pub trim_space-dash :
    (a : Text)
    → (p : Text) × ((s : Text) (d : ℕ)
        → (leb 48 d && leb d 57) ≡ true
        → trim_space (a ++ b'-' ∷ (s ++ d ∷ [])) ≡ p ++ b'-' ∷ (s ++ d ∷ []))
unfolding trim_space
trim_space-dash a =
    let left = left_of_dash 0 a (omega arith) in
    (
      left.0,
      λ s d digit.
          ap (λ (r : Text). reverse (trim_from space_width_rev 0 (reverse r)))
            (left.1 (s ++ d ∷ []))
          ∙ ap (λ (r : Text). reverse (trim_from space_width_rev 0 (reverse r)))
              (sym (append_assoc left.0 (b'-' ∷ s) (d ∷ [])))
          ∙ right_of_digit (left.0 ++ b'-' ∷ s) d digit
          ∙ append_assoc left.0 (b'-' ∷ s) (d ∷ []),
    )
