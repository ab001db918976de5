-- ===== src/Prelude/Assoc.antt =====
-- Go's maps as association lists: `m[k]`, `m[k] = v`, `delete(m, k)`, and `len(m)` by `length`.
use Prim.Native.Nat.{ℕ, suc}
use mathlib.Core.Path.{◌≡◌, refl, ap}
use mathlib.Core.Logic.{◌≢◌}
use mathlib.Core.Bool.{Bool, true, false, ◌||◌}
use mathlib.Core.List.{List, [], ◌∷◌, ◌++◌}
use mathlib.Core.Option.{Option, none, some}
use native.Mathlib.Omega.{arith}
use qoder_cpa.Prelude.Tests.{if◌then◌else◌, Eq, ◌==◌, nat_beq}
use qoder_cpa.Prelude.Lists.{length}

-- A function with the value at one place replaced.
abbrev pub update {ℓ} : {A : Type ℓ} → (ℕ → A) → ℕ → A → ℕ → A
update f n a m = if nat_beq n m then a else f m

module _ {ℓ κ} {K : Type ℓ} {V : Type κ} where
  abbrev pub keys : List (K × V) → List K
  keys [] = []
  keys ((k, v) ∷ m) = k ∷ keys m

  pub length-keys : (m : List (K × V)) → length (keys m) ≡ length m
  length-keys [] = refl
  length-keys ((k, v) ∷ m) = ap suc (length-keys m)

  pub keys-append : (a b : List (K × V)) → keys (a ++ b) ≡ keys a ++ keys b
  keys-append [] b = refl
  keys-append ((k, v) ∷ a) b = ap (◌∷◌ k) (keys-append a b)

module _ {ℓ} {K : Type ℓ} ⦃e : Eq K⦄ where
  abbrev pub mem : K → List K → Bool
  mem k [] = false
  mem k (x ∷ xs) = x == k || mem k xs

  abbrev pub IsNodup : List K → Type 0
  IsNodup [] = Unit
  IsNodup (x ∷ xs) = (mem x xs ≡ false) × IsNodup xs

  pub mem-append : (k : K) (xs ys : List K) → mem k (xs ++ ys) ≡ (mem k xs || mem k ys)
  mem-append k [] ys = refl
  mem-append k (x ∷ xs) ys = ground (arith, mem-append k xs ys)

module _ {ℓ κ} {K : Type ℓ} {V : Type κ} ⦃e : Eq K⦄ where
  unfoldable pub lookup : K → List (K × V) → Option V
  lookup key [] = none
  lookup key ((j, v) ∷ rest) = if j == key then some v else lookup key rest

  unfoldable pub delete : K → List (K × V) → List (K × V)
  delete k [] = []
  delete k ((j, w) ∷ m) = if j == k then delete k m else (j, w) ∷ delete k m

  unfoldable pub insert : K → V → List (K × V) → List (K × V)
  insert key new [] = (key, new) ∷ []
  insert key new ((j, v) ∷ rest) =
      if j == key then (key, new) ∷ rest else (j, v) ∷ insert key new rest

  pub lookup-insert :
      (key other : K) (new : V) (m : List (K × V))
      → lookup other (insert key new m) ≡ (if key == other then some new else lookup other m)
  unfolding insert lookup
  lookup-insert key other new [] = refl
  lookup-insert key other new ((j, v) ∷ rest) = ground (
    arith,
    lookup-insert key other new rest,
    e.same_iff j other,
    e.same_iff j key,
    e.same_iff key other,
  )

  pub lookup-delete :
      (k j : K) (m : List (K × V)) → lookup j (delete k m) ≡ (if k == j then none else lookup j m)
  unfolding lookup delete
  lookup-delete k j [] = ground arith
  lookup-delete k j ((i, w) ∷ m) =
      ground (arith, e.same_iff k j, e.same_iff i k, e.same_iff i j, lookup-delete k j m)

  pub lookup-append :
      (k : K) (a b : List (K × V))
      → lookup k (a ++ b) ≡ elim (lookup k a) [ none ↦ lookup k b | some v ↦ some v ]
  unfolding lookup
  lookup-append k [] b = refl
  lookup-append k ((j, v) ∷ a) b = ground (arith, lookup-append k a b)

  -- A key is bound exactly when it is among the keys.
  pub lookup-none_of_mem : (k : K) (m : List (K × V)) → mem k (keys m) ≡ false → lookup k m ≡ none
  unfolding lookup
  lookup-none_of_mem k [] h = refl
  lookup-none_of_mem k ((j, v) ∷ m) h = ground (arith, lookup-none_of_mem k m)

  pub mem_of_lookup-none : (k : K) (m : List (K × V)) → lookup k m ≡ none → mem k (keys m) ≡ false
  unfolding lookup
  mem_of_lookup-none k [] h = refl
  mem_of_lookup-none k ((j, v) ∷ m) h = ground (arith, mem_of_lookup-none k m)

  pub mem-keys-delete :
      (k j : K) (m : List (K × V))
      → mem j (keys (delete k m)) ≡ (if k == j then false else mem j (keys m))
  unfolding delete
  mem-keys-delete k j [] = ground arith
  mem-keys-delete k j ((i, w) ∷ m) =
      ground (arith, e.same_iff k j, e.same_iff i k, e.same_iff i j, mem-keys-delete k j m)

  pub mem-keys-insert :
      (k j : K) (v : V) (m : List (K × V))
      → mem j (keys (insert k v m)) ≡ (k == j || mem j (keys m))
  unfolding insert
  mem-keys-insert k j v [] = refl
  mem-keys-insert k j v ((i, w) ∷ m) =
      ground (arith, e.same_iff k j, e.same_iff i k, e.same_iff i j, mem-keys-insert k j v m)

  pub keys-insert-IsNodup :
      (k : K) (v : V) (m : List (K × V)) → IsNodup (keys m) → IsNodup (keys (insert k v m))
  unfolding insert
  keys-insert-IsNodup k v [] h = (refl, tt)
  keys-insert-IsNodup k v ((i, w) ∷ m) h = ground (
    arith,
    e.same_iff i k,
    e.same_iff k i,
    mem-keys-insert k i v m,
    keys-insert-IsNodup k v m h.1,
  )

  pub keys-delete-IsNodup :
      (k : K) (m : List (K × V)) → IsNodup (keys m) → IsNodup (keys (delete k m))
  unfolding delete
  keys-delete-IsNodup k [] h = tt
  keys-delete-IsNodup k ((i, w) ∷ m) h =
      ground (arith, mem-keys-delete k i m, keys-delete-IsNodup k m h.1)

  pub delete_absent : (k : K) (m : List (K × V)) → mem k (keys m) ≡ false → delete k m ≡ m
  unfolding delete
  delete_absent k [] h = refl
  delete_absent k ((i, w) ∷ m) h = ground (arith, delete_absent k m)

  pub length-delete :
      (k : K) (m : List (K × V))
      → IsNodup (keys m)
      → mem k (keys m) ≡ true
      → suc (length (delete k m)) ≡ length m
  unfolding delete
  length-delete k [] d h = cc
  length-delete k ((i, w) ∷ m) d h =
      ground (arith, e.same_iff i k, delete_absent k m, length-delete k m d.1)

  pub length-insert_fresh :
      (k : K) (v : V) (m : List (K × V))
      → lookup k m ≡ none
      → length (insert k v m) ≡ suc (length m)
  unfolding lookup insert
  length-insert_fresh k v [] h = refl
  length-insert_fresh k v ((i, w) ∷ m) h = ground (arith, length-insert_fresh k v m)

  pub length-insert_bound :
      (k : K) (v : V) (m : List (K × V)) → lookup k m ≢ none → length (insert k v m) ≡ length m
  unfolding lookup insert
  length-insert_bound k v [] h = absurd (h refl)
  length-insert_bound k v ((i, w) ∷ m) h = ground (arith, length-insert_bound k v m)
