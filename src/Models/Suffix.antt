-- ===== src/Models/Suffix.antt =====
-- The ids with a suffix that uniquePublicModelID of model_provider.go tries are all different.
use qoder_cpa.Prelude.{
  ℕ, zero, suc, ◌+◌, ◌/◌, ◌%◌, ◌^◌, ◌<◌, true, false, ◌&&◌, [], ◌∷◌, ◌++◌, Text, text_eq, ◌==◌,
  text_beq_iff, nat_beq, leb, trim_space, trim_space-dash, append_assoc, ◌≡◌, refl, sym, ap, ◌∙◌,
  arith, inl, inr, Bool-cases,
}
use qoder_cpa.Transport.{digits}
use qoder_cpa.Transport.Decimal.{value, value-digits}
use qoder_cpa.Request.{provider_prefix}
use qoder_cpa.Models.{public_model_id, numbered}

-- The digits are put before those that are there.
digits-before :
    (fuel n : ℕ) (written : Text) → (front : Text) × (digits fuel n written ≡ front ++ written)
unfolding digits
digits-before zero n written = ([], refl)
digits-before (suc fuel) n written = elim (Bool-cases (nat_beq n 0)) [
  | inl nothing ↦ ([], rw nothing refl)
  | inr more ↦
      let r = digits-before fuel (n / 10) ((48 + n % 10) ∷ written) in
      (
        r.0 ++ (48 + n % 10) ∷ [],
        rw (digits, more) (r.1 ∙ sym (append_assoc r.0 ((48 + n % 10) ∷ []) written)),
      )
]

first_digit :
    (n : ℕ) → nat_beq n 0 ≡ false → digits 20 n [] ≡ digits 19 (n / 10) ((48 + n % 10) ∷ [])
unfolding digits
first_digit n positive = rw (digits, positive) refl

-- A number that is not 0 ends in a digit.
ends_in_digit :
    (n : ℕ) → nat_beq n 0 ≡ false → (front : Text) × (digits 20 n [] ≡ front ++ (48 + n % 10) ∷ [])
ends_in_digit n positive =
    let r = digits-before 19 (n / 10) ((48 + n % 10) ∷ []) in (r.0, first_digit n positive ∙ r.1)

is_digit : (n : ℕ) → (leb 48 (48 + n % 10) && leb (48 + n % 10) 57) ≡ true
is_digit n = ground arith

not_empty : (p : Text) (c : ℕ) (s : Text) → (p ++ c ∷ s == []) ≡ false
not_empty [] c s = refl
not_empty (d ∷ p) c s = refl

public_of :
    (name t : Text)
    → trim_space name ≡ t
    → (t == []) ≡ false
    → public_model_id name ≡ provider_prefix ++ t
unfolding public_model_id
public_of name t trimmed some_text = rw (public_model_id, trimmed, some_text) refl

-- What is before the suffix is the same for all suffixes.
numbered_form :
    (a : Text)
    → (q : Text) × ((n : ℕ) → nat_beq n 0 ≡ false → numbered a n ≡ q ++ b'-' ∷ digits 20 n [])
numbered_form a =
    let t = trim_space-dash a in
    (
      provider_prefix ++ t.0,
      λ n positive.
          let e = ends_in_digit n positive in
          let trimmed : trim_space (a ++ b'-' ∷ digits 20 n []) ≡ t.0 ++ b'-' ∷ digits 20 n [] =
            rw e.1 (t.1 e.0 (48 + n % 10) (is_digit n)) in
          public_of (a ++ b'-' ∷ digits 20 n []) (t.0 ++ b'-' ∷ digits 20 n []) trimmed
            (not_empty t.0 b'-' (digits 20 n []))
          ∙ sym (append_assoc provider_prefix t.0 (b'-' ∷ digits 20 n [])),
    )

cancel : (p s t : Text) → p ++ s ≡ p ++ t → s ≡ t
cancel [] s t h = h
cancel (c ∷ p) s t h = cancel p s t (ground arith)

same_number : (i j : ℕ) → i < 10 ^ 20 → j < 10 ^ 20 → digits 20 i [] ≡ digits 20 j [] → i ≡ j
same_number i j low high h =
    sym (value-digits 20 i [] low) ∙ ap (λ (s : Text). value s 0) h ∙ value-digits 20 j [] high

-- Two suffixes give two ids.
pub numbered_apart :
    (a : Text) (i j : ℕ) → 0 < i → i < j → j < 10 ^ 20 → (numbered a i == numbered a j) ≡ false
numbered_apart a i j positive less high = elim (Bool-cases (numbered a i == numbered a j)) [
  | inr other ↦ other
  | inl same ↦
      let form = numbered_form a in
      let equal =
        sym (form.1 i (ground arith))
        ∙ (text_beq_iff (numbered a i) (numbered a j)).0 same
        ∙ form.1 j (ground arith) in
      let tails = cancel form.0 (b'-' ∷ digits 20 i []) (b'-' ∷ digits 20 j []) equal in
      let i_is_j = same_number i j (omega arith) high (cancel (b'-' ∷ []) _ _ tails) in
      absurd (omega arith)
]
