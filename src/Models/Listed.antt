-- ===== src/Models/Listed.antt =====
-- The models that authService.models of model_provider.go lists, and the catalog that it stores.
use qoder_cpa.Prelude.{
  suc, ◌^◌, ◌<◌, Bool, true, false, ◌&&◌, List, [], ◌∷◌, map, none, some, Text, text_eq, ◌==◌,
  text_beq_iff, length, mem, keys, IsNodup, All, lookup, insert, ◌≡◌, ◌⊎◌, refl, arith, inl, inr,
  Bool-cases, Option-cases,
}
use qoder_cpa.Registry.{ModelMeta}
use qoder_cpa.Models.{
  ModelInfo, public_model_id, is_open, numbered, unique_public_model_id, Listing,
}
use qoder_cpa.Models.Search.{first_free_returns, first_free_fresh}
use qoder_cpa.Models.Suffix.{numbered_apart}

-- A model of the list is in the catalog, under its own id, with its own internal id.
abbrev pub IsKept : List (Text × Text) → List (Text × ModelMeta) → ModelInfo → Type 0
IsKept mapping meta i =
    (lookup i.id mapping ≡ some i.name)
    × ((m : ModelMeta) × (lookup i.id meta ≡ some m) × (m.is_reasoning ≡ i.thinking))

abbrev pub id_of : ModelInfo → Text
id_of i = i.id

abbrev pub name_of : ModelInfo → Text
name_of i = i.name

-- The list and the catalog agree: each model is in the catalog, and no two have the same id or the
-- same internal id.
pub record IsListed (l : Listing) : Type 0 where
  pub each : All (IsKept l.mapping l.meta) l.models
  pub ids : IsNodup (map id_of l.models)
  pub names : IsNodup (map name_of l.models)

abbrev pub all_seen : List Text → List (Text × Text) → Bool
all_seen seen [] = true
all_seen seen ((k, v) ∷ m) = mem v seen && all_seen seen m

pub lookup_seen :
    (seen : List Text) (m : List (Text × Text)) (k v : Text)
    → all_seen seen m ≡ true
    → lookup k m ≡ some v
    → mem v seen ≡ true
unfolding lookup
lookup_seen seen [] k v h at = absurd (ground arith)
lookup_seen seen ((j, w) ∷ m) k v h at = ground (arith, lookup_seen seen m k v)

pub all_seen-more :
    (seen : List Text) (x : Text) (m : List (Text × Text))
    → all_seen seen m ≡ true
    → all_seen (x ∷ seen) m ≡ true
all_seen-more seen x [] h = refl
all_seen-more seen x ((k, v) ∷ m) h = ground (arith, all_seen-more seen x m)

pub all_seen-insert :
    (seen : List Text) (k v : Text) (m : List (Text × Text))
    → all_seen seen m ≡ true
    → mem v seen ≡ true
    → all_seen seen (insert k v m) ≡ true
unfolding insert
all_seen-insert seen k v [] h there = ground arith
all_seen-insert seen k v ((j, w) ∷ m) h there = ground (arith, all_seen-insert seen k v m)

-- An internal id that was not seen is no value of the mapping, so that only free ids are open to it.
open_free :
    (seen : List Text) (m : List (Text × Text)) (k internal : Text)
    → all_seen seen m ≡ true
    → mem internal seen ≡ false
    → is_open internal (lookup k m) ≡ true
    → lookup k m ≡ none
open_free seen m k internal h new can = elim (Option-cases (lookup k m)) [
  | inl free ↦ free
  | inr (v, taken) ↦
      let same : v ≡ internal = (text_beq_iff v internal).0 (ground arith) in
      absurd (ground (arith, lookup_seen seen m k v h taken))
]

pub unique_free :
    (seen : List Text) (m : List (Text × Text)) (name internal : Text)
    → all_seen seen m ≡ true
    → mem internal seen ≡ false
    → IsNodup (keys m)
    → length m < 10 ^ 19
    → (k : Text) × (unique_public_model_id name internal m ≡ some k)
      × (((k == []) ≡ true) ⊎ (lookup k m ≡ none))
unfolding unique_public_model_id
unique_free seen m name internal h new nodup small =
    elim (Bool-cases (public_model_id name == [])) [
      | inl empty ↦ ([], rw (unique_public_model_id, empty) refl, inl refl)
      | inr some_name ↦ elim (Bool-cases (is_open internal (lookup (public_model_id name) m))) [
        | inl can ↦ (
          public_model_id name,
          rw (unique_public_model_id, some_name, can) refl,
          inr (open_free seen m (public_model_id name) internal h new can),
        )
        | inr taken ↦ elim (Bool-cases (is_open internal (lookup (public_model_id internal) m))) [
          | inl can ↦ (
            public_model_id internal,
            rw (unique_public_model_id, some_name, taken, can) refl,
            inr (open_free seen m (public_model_id internal) internal h new can),
          )
          | inr both ↦
              let r =
                first_free_returns (numbered internal) (10 ^ 20) (numbered_apart internal) 2 m
                  (omega arith) nodup (omega arith) in
              (
                r.0,
                rw (unique_public_model_id, some_name, taken, both) r.1,
                inr (
                    first_free_fresh (numbered internal) (10 ^ 20) (numbered_apart internal)
                      (suc (length m)) 2 m r.0 r.1),
              )
        ]
      ]
    ]
