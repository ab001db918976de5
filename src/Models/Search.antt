-- ===== src/Models/Search.antt =====
-- The loop of uniquePublicModelID in model_provider.go finds an id.
use qoder_cpa.Prelude.{
  ℕ, zero, suc, ◌+◌, ◌≤◌, ◌<◌, true, false, List, none, some, Text, text_eq, ◌==◌, length, mem,
  keys, IsNodup, lookup, delete, lookup-delete, length-delete, keys-delete-IsNodup,
  lookup-none_of_mem, ◌≡◌, refl, arith, inl, inr, Bool-cases, Option-cases,
}
use qoder_cpa.Request.{is_some}
use qoder_cpa.Models.{first_free}

is_some-mem :
    (k : Text) (m : List (Text × Text)) → is_some (lookup k m) ≡ true → mem k (keys m) ≡ true
is_some-mem k m h = elim (Bool-cases (mem k (keys m))) [
  | inl there ↦ there
  | inr absent ↦ absurd (ground (arith, lookup-none_of_mem k m absent))
]

module _ (candidate : ℕ → Text) (bound : ℕ)
    (apart : (i j : ℕ) → 0 < i → i < j → j < bound → (candidate i == candidate j) ≡ false) where
  -- A pair that no candidate names is not missed.
  first_free-delete :
      (fuel n i : ℕ) (m : List (Text × Text))
      → 0 < i
      → i < n
      → n + fuel ≤ bound
      → first_free candidate fuel n m ≡ none
      → first_free candidate fuel n (delete (candidate i) m) ≡ none
  unfolding first_free
  first_free-delete zero n i m some_try below fits h = refl
  first_free-delete (suc fuel) n i m some_try below fits h =
      elim (Bool-cases (is_some (lookup (candidate n) m))) [
        | inr free ↦ absurd (ground arith)
        | inl taken ↦
            let kept : lookup (candidate n) (delete (candidate i) m) ≡ lookup (candidate n) m =
              ground (
                arith,
                lookup-delete (candidate i) (candidate n) m,
                apart i n some_try below (omega arith),
              ) in
            let later : first_free candidate fuel (n + 1) m ≡ none = ground arith in
            rw (first_free, kept, taken)
              (first_free-delete fuel (n + 1) i m some_try (omega arith) (omega arith) later)
      ]

  -- Every try that fails is a pair of the mapping.
  tries_bounded :
      (fuel n : ℕ) (m : List (Text × Text))
      → 0 < n
      → IsNodup (keys m)
      → n + fuel ≤ bound
      → first_free candidate fuel n m ≡ none
      → fuel ≤ length m
  unfolding first_free
  tries_bounded zero n m some_try nodup fits h = omega arith
  tries_bounded (suc fuel) n m some_try nodup fits h =
      elim (Bool-cases (is_some (lookup (candidate n) m))) [
        | inr free ↦ absurd (ground arith)
        | inl taken ↦
            let later : first_free candidate fuel (n + 1) m ≡ none = ground arith in
            let shorter =
              tries_bounded fuel (n + 1) (delete (candidate n) m) (omega arith)
                (keys-delete-IsNodup (candidate n) m nodup) (omega arith)
                (first_free-delete fuel (n + 1) n m some_try (omega arith) (omega arith) later) in
            omega (
              arith,
              shorter,
              length-delete (candidate n) m nodup (is_some-mem (candidate n) m taken),
            )
      ]

  -- One more try than there are pairs is enough.
  pub first_free_returns :
      (n : ℕ) (m : List (Text × Text))
      → 0 < n
      → IsNodup (keys m)
      → n + suc (length m) ≤ bound
      → (k : Text) × (first_free candidate (suc (length m)) n m ≡ some k)
  first_free_returns n m some_try nodup fits =
      elim (Option-cases (first_free candidate (suc (length m)) n m)) [
        | inl never ↦
            absurd (omega (arith, tries_bounded (suc (length m)) n m some_try nodup fits never))
        | inr (k, found) ↦ (k, found)
      ]

  -- What it gives is not among the keys.
  pub first_free_fresh :
      (fuel n : ℕ) (m : List (Text × Text)) (k : Text)
      → first_free candidate fuel n m ≡ some k
      → lookup k m ≡ none
  unfolding first_free
  first_free_fresh zero n m k h = absurd (ground arith)
  first_free_fresh (suc fuel) n m k h = elim (Option-cases (lookup (candidate n) m)) [
    | inl free ↦ let same : candidate n ≡ k = ground arith in rw (← same) free
    | inr (v, taken) ↦
        let later : first_free candidate fuel (n + 1) m ≡ some k = ground arith in
        first_free_fresh fuel (n + 1) m k later
  ]
