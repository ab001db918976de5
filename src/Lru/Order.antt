-- ===== src/Lru/Order.antt =====
-- The list of keys and the places in it: what cutting a key out and numbering again does.
use qoder_cpa.Prelude.{
  ℕ, zero, suc, ◌+◌, ◌≡◌, refl, ap, true, false, List, [], ◌∷◌, ◌++◌, Option, none, some, inl, inr,
  arith, Text, text_eq, ◌==◌, text_beq_iff, Bool-cases, if◌then◌else◌, length, take, drop, keys,
  mem, IsNodup, mem-append, lookup, insert, delete, lookup-insert,
}
use native.Mathlib.Numerals.{add-one}
use qoder_cpa.Lru.Spec.{index_from}
use qoder_cpa.Lru.{reindex}

-- The first of two answers.
abbrev pub or_else {ℓ} : {A : Type ℓ} → Option A → Option A → Option A
or_else none b = b
or_else (some a) b = some a

pub index_from_absent :
    (i : ℕ) (k : Text) (xs : List Text) → mem k xs ≡ false → index_from i k xs ≡ none
unfolding index_from
index_from_absent i k [] h = refl
index_from_absent i k (x ∷ xs) h = ground (arith, index_from_absent (i + 1) k xs)

pub mem_of_index_from-none :
    (i : ℕ) (k : Text) (xs : List Text) → index_from i k xs ≡ none → mem k xs ≡ false
unfolding index_from
mem_of_index_from-none i k [] h = refl
mem_of_index_from-none i k (x ∷ xs) h = ground (arith, mem_of_index_from-none (i + 1) k xs)

pub index_from-append :
    (i j : ℕ) (k : Text) (xs ys : List Text)
    → j ≡ i + length xs
    → index_from i k (xs ++ ys) ≡ or_else (index_from i k xs) (index_from j k ys)
unfolding index_from
index_from-append i j k [] ys h = ap (λ n. index_from n k ys) (omega arith)
index_from-append i j k (x ∷ xs) ys h =
    ground (arith, index_from-append (i + 1) j k xs ys (omega arith))

-- Numbering again gives each key of the list its place, and leaves every other key.
pub lookup-reindex :
    (k : Text) (i : ℕ) (xs : List Text) (idx : List (Text × ℕ))
    → IsNodup xs
    → lookup k (reindex i xs idx) ≡ or_else (index_from i k xs) (lookup k idx)
unfolding reindex index_from
lookup-reindex k i [] idx d = refl
lookup-reindex k i (x ∷ xs) idx d = ground (
  arith,
  text_beq_iff x k,
  lookup-reindex k (i + 1) xs (insert x i idx) d.1,
  lookup-insert x k i idx,
  index_from_absent (i + 1) k xs,
)

-- A key that has a place cuts the list there.
pub split_at_index :
    (i j : ℕ) (k : Text) (xs : List Text)
    → index_from i k xs ≡ some j
    → (before after : List Text) × (xs ≡ before ++ k ∷ after) × (j ≡ i + length before)
unfolding index_from
split_at_index i j k [] h = cc
split_at_index i j k (x ∷ xs) h = elim (Bool-cases (x == k)) [
  | inl here ↦ ([], xs, ground (arith, text_beq_iff x k), ground arith)
  | inr other ↦
      let (before, after, cut, place) = split_at_index (i + 1) j k xs (rw other at h) in
      (x ∷ before, after, ap (◌∷◌ x) cut, omega (arith, place))
]

unfoldable pub remove : Text → List Text → List Text
remove k [] = []
remove k (x ∷ xs) = if x == k then remove k xs else x ∷ remove k xs

pub remove_absent : (k : Text) (xs : List Text) → mem k xs ≡ false → remove k xs ≡ xs
unfolding remove
remove_absent k [] h = refl
remove_absent k (x ∷ xs) h = ground (arith, remove_absent k xs)

pub keys-delete {ℓ} :
    {V : Type ℓ} (k : Text) (es : List (Text × V)) → keys (delete k es) ≡ remove k (keys es)
unfolding remove delete
keys-delete k [] = refl
keys-delete k ((j, v) ∷ es) = ground (arith, keys-delete k es)

-- A list without repetitions has the key at which it is cut on neither side.
pub IsNodup-cut :
    (k : Text) (before after : List Text)
    → IsNodup (before ++ k ∷ after)
    → (mem k before ≡ false) × (mem k after ≡ false) × IsNodup (before ++ after)
IsNodup-cut k [] after d = (refl, d.0, d.1)
IsNodup-cut k (x ∷ before) after d =
    let (b, a, rest) = IsNodup-cut k before after d.1 in
    ground (
      arith,
      text_beq_iff x k,
      text_beq_iff k x,
      mem-append x before (k ∷ after),
      mem-append x before after,
    )

pub IsNodup-append :
    (xs ys : List Text)
    → IsNodup (xs ++ ys)
    → IsNodup xs × IsNodup ys × ((k : Text) → mem k xs ≡ true → mem k ys ≡ false)
IsNodup-append [] ys d = (tt, d, λ k h. cc)
IsNodup-append (x ∷ xs) ys d =
    let (l, r, apart) = IsNodup-append xs ys d.1 in
    (
      ground (arith, mem-append x xs ys),
      r,
      λ k h. ground (arith, text_beq_iff x k, apart k, mem-append x xs ys),
    )

pub IsNodup-snoc :
    (xs : List Text) (k : Text) → IsNodup xs → mem k xs ≡ false → IsNodup (xs ++ k ∷ [])
IsNodup-snoc [] k d h = (refl, tt)
IsNodup-snoc (x ∷ xs) k d h =
    ground
      (arith, text_beq_iff x k, text_beq_iff k x, mem-append x xs (k ∷ []), IsNodup-snoc xs k d.1)

pub remove-cut :
    (k : Text) (before after : List Text)
    → IsNodup (before ++ k ∷ after)
    → remove k (before ++ k ∷ after) ≡ before ++ after
unfolding remove
remove-cut k [] after d = ground (arith, text_beq_iff k k, remove_absent k after d.0)
remove-cut k (x ∷ before) after d = ground (
  arith,
  text_beq_iff x k,
  mem-append x before (k ∷ after),
  text_beq_iff k x,
  text_beq_iff k k,
  remove-cut k before after d.1,
)

-- Cutting out the place of a key.
pub cut_out :
    (n : ℕ) (k : Text) (before after : List Text)
    → n ≡ length before
    → take n (before ++ k ∷ after) ++ drop (n + 1) (before ++ k ∷ after) ≡ before ++ after
cut_out zero k [] after h = ap (λ j. drop j (k ∷ after)) (add-one 0)
cut_out (suc n) k [] after h = absurd (omega arith)
cut_out zero k (x ∷ before) after h = absurd (omega arith)
cut_out (suc n) k (x ∷ before) after h =
    rw (add-one (suc n)) (ap (◌∷◌ x) (rw add-one at (cut_out n k before after (omega arith))))
