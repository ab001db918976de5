-- ===== src/Prelude/Tests.antt =====
-- Boolean tests on numbers, the conditional, and equality as an interface.
use Prim.Native.Nat.{ℕ, compare, Ordering}
use mathlib.Core.Path.{◌≡◌, refl, sym, ◌∙◌}
use mathlib.Core.Logic.{◌≢◌, ◌↔◌, ◌⊎◌, inl, inr}
use mathlib.Core.Bool.{Bool, true, false, true≢false, ◌&&◌}
use mathlib.Core.Option.{Option, none, some}
use mathlib.Core.List.{List, [], ◌∷◌}
use native.Mathlib.Omega.{arith}

abbrev pub ltb : ℕ → ℕ → Bool
ltb a b = elim (compare a b) [ Ordering.lt ↦ true | _ ↦ false ]

abbrev pub leb : ℕ → ℕ → Bool
leb a b = elim (compare a b) [ Ordering.gt ↦ false | _ ↦ true ]

abbrev pub nat_beq : ℕ → ℕ → Bool
nat_beq a b = elim (compare a b) [ Ordering.eq ↦ true | _ ↦ false ]

infix 1 if◌then◌else◌
abbrev pub if◌then◌else◌ {ℓ} : {A : Type ℓ} → Bool → A → A → A
if true then x else y = x
if false then x else y = y

pub nat_beq_iff : (a b : ℕ) → (nat_beq a b ≡ true) ↔ (a ≡ b)
nat_beq_iff a b = ground arith

-- To split on a computed value and keep the equation.
pub Bool-cases : (b : Bool) → (b ≡ true) ⊎ (b ≡ false)
Bool-cases true = inl refl
Bool-cases false = inr refl

pub Option-cases {ℓ} : {A : Type ℓ} (o : Option A) → (o ≡ none) ⊎ ((a : A) × (o ≡ some a))
Option-cases none = inl refl
Option-cases (some a) = inr (a, refl)

pub List-cases {ℓ} :
    {A : Type ℓ} (xs : List A) → (xs ≡ []) ⊎ ((a : A) × (rest : List A) × (xs ≡ a ∷ rest))
List-cases [] = inl refl
List-cases (a ∷ rest) = inr (a, rest, refl)

-- A type whose values Go compares with `==`.
pub record Eq {ℓ} (K : Type ℓ) : Type ℓ where
  pub same : K → K → Bool
  pub same_iff : (x y : K) → (same x y ≡ true) ↔ (x ≡ y)

instance abbrev pub nat_eq : Eq ℕ
nat_eq = record { same = nat_beq; same_iff = nat_beq_iff }

infix 50 ◌==◌
abbrev pub ◌==◌ {ℓ} : {K : Type ℓ} ⦃eq : Eq K⦄ → K → K → Bool
◌==◌ ⦃eq⦄ x y = eq.same x y

-- A text is the list of its bytes.
abbrev pub Text : Type 0
Text = List ℕ

abbrev pub text_beq : Text → Text → Bool
text_beq [] [] = true
text_beq [] (y ∷ ys) = false
text_beq (x ∷ xs) [] = false
text_beq (x ∷ xs) (y ∷ ys) = nat_beq x y && text_beq xs ys

pub text_beq_iff : (a b : Text) → (text_beq a b ≡ true) ↔ (a ≡ b)
text_beq_iff [] [] = (λ _. refl, λ _. refl)
text_beq_iff [] (y ∷ ys) = (λ e. cc, λ e. cc)
text_beq_iff (x ∷ xs) [] = (λ e. cc, λ e. cc)
text_beq_iff (x ∷ xs) (y ∷ ys) =
    (λ e. ground (arith, text_beq_iff xs ys), λ e. ground (arith, text_beq_iff xs ys))

instance abbrev pub text_eq : Eq Text
text_eq = record { same = text_beq; same_iff = text_beq_iff }

module _ {ℓ} {A : Type ℓ} ⦃e : Eq A⦄ where
  pub eq_self : (a : A) → (a == a) ≡ true
  eq_self a = (e.same_iff a a).1 refl

  pub eq→path : (a b : A) → (a == b) ≡ true → a ≡ b
  eq→path a b h = (e.same_iff a b).0 h

  pub neq→not_path : (a b : A) → (a == b) ≡ false → a ≢ b
  neq→not_path a b h same = absurd (true≢false (sym ((e.same_iff a b).1 same) ∙ h))
