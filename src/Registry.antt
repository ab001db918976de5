-- ===== src/Registry.antt =====
-- model_registry.go: the catalog of models of each account.
use qoder_cpa.Prelude.{
  Bool, true, false, not, ◌||◌, List, [], ◌∷◌, ◌++◌, Option, none, some, Text, text_eq, ◌==◌, codes,
  if◌then◌else◌, drop, has_prefix, trim_space, ℤ, pos, lookup, insert, lookup-insert, ◌≡◌, refl,
  Bool-cases, inl, inr, eq_self, ◌∙◌,
}
use qoder_cpa.Classify.{to_lower}

pub record ModelMeta : Type 0 where
  pub is_reasoning : Bool
  pub max_input_tokens : ℤ

pub record ModelRecord : Type 0 where
  pub internal_id : Text
  pub meta : ModelMeta
  pub has_meta : Bool

abbrev pub Catalog : Type 0
Catalog = List (Text × ModelRecord)

abbrev pub Registry : Type 0
Registry = List (Text × Catalog)

abbrev pub no_meta : ModelMeta
no_meta = record { is_reasoning = false; max_input_tokens = pos 0 }

abbrev pub no_record : ModelRecord
no_record = record { internal_id = []; meta = no_meta; has_meta = false }

abbrev record_of : Text → Option ModelMeta → ModelRecord
record_of internal none = record { internal_id = internal; meta = no_meta; has_meta = false }
record_of internal (some m) = record { internal_id = internal; meta = m; has_meta = true }

abbrev add_model : List (Text × ModelMeta) → Text → Text → Catalog → Catalog
add_model meta public internal snapshot =
    if public == [] || internal == []
    then snapshot
    else insert public (record_of internal (lookup public meta)) snapshot

-- The snapshot of a mapping, which is given in the order in which the range meets its pairs.
unfoldable pub snapshot_from : List (Text × ModelMeta) → List (Text × Text) → Catalog → Catalog
snapshot_from meta [] snapshot = snapshot
snapshot_from meta ((public, internal) ∷ mapping) snapshot =
    snapshot_from meta mapping (add_model meta (trim_space public) (trim_space internal) snapshot)

unfoldable pub store_catalog :
    Text → List (Text × Text) → List (Text × ModelMeta) → Registry → Registry
unfolding snapshot_from
store_catalog auth mapping meta r =
    if trim_space auth == [] then r else insert (trim_space auth) (snapshot_from meta mapping []) r

abbrev record_or_none : Option ModelRecord → ModelRecord
record_or_none none = no_record
record_or_none (some m) = m

-- `mapping[id]`.
abbrev at : Text → Catalog → ModelRecord
at id catalog = record_or_none (lookup id catalog)

abbrev other_spelling : Text → Text
other_spelling public =
    if has_prefix (to_lower public) (codes "qoder/")
    then drop 6 public
    else codes "qoder/" ++ public

-- The record of an id that is not empty, with or without the provider before it.
unfoldable pub resolve_in : Catalog → Text → ModelRecord
resolve_in catalog public =
    if (at public catalog).internal_id == []
    then at (other_spelling public) catalog
    else at public catalog

abbrev catalog_or_none : Option Catalog → Catalog
catalog_or_none none = []
catalog_or_none (some c) = c

unfoldable pub resolve_record : Registry → Text → Text → ModelRecord × Bool
unfolding resolve_in
resolve_record r auth public =
    let found = resolve_in (catalog_or_none (lookup (trim_space auth) r)) (trim_space public) in
    if trim_space auth == [] || trim_space public == []
    then (no_record, false)
    else (found, not (found.internal_id == []))

unfoldable pub resolve_model : Registry → Text → Text → Text × ModelMeta
unfolding resolve_record
resolve_model r auth public = let m = (resolve_record r auth public).0 in (m.internal_id, m.meta)

abbrev pub resolved_in : Catalog → Text → ModelRecord × Bool
resolved_in catalog public =
    (resolve_in catalog public, not ((resolve_in catalog public).internal_id == []))

same_account :
    (auth : Text) (mapping : List (Text × Text)) (meta : List (Text × ModelMeta)) (r : Registry)
    → (trim_space auth == []) ≡ false
    → lookup (trim_space auth) (store_catalog auth mapping meta r)
      ≡ some (snapshot_from meta mapping [])
unfolding store_catalog
same_account auth mapping meta r named =
    rw (store_catalog, named)
      (lookup-insert (trim_space auth) (trim_space auth) (snapshot_from meta mapping []) r
        ∙ rw (eq_self (trim_space auth)) refl)

-- After a catalog was stored for an account, its models are resolved in that catalog alone, whatever
-- the registry held for it; both ids are named.
pub resolve_record-store_catalog :
    (auth public : Text) (mapping : List (Text × Text)) (meta : List (Text × ModelMeta))
    (r : Registry)
    → (trim_space auth == []) ≡ false
    → (trim_space public == []) ≡ false
    → resolve_record (store_catalog auth mapping meta r) auth public
      ≡ resolved_in (snapshot_from meta mapping []) (trim_space public)
unfolding resolve_record
resolve_record-store_catalog auth public mapping meta r named asked =
    rw (resolve_record, named, asked, same_account auth mapping meta r named) refl

-- A catalog that is stored for one account changes no answer for another.
pub resolve_record_other :
    (auth other public : Text) (mapping : List (Text × Text)) (meta : List (Text × ModelMeta))
    (r : Registry)
    → (trim_space auth == trim_space other) ≡ false
    → resolve_record (store_catalog auth mapping meta r) other public
      ≡ resolve_record r other public
unfolding store_catalog resolve_record
resolve_record_other auth other public mapping meta r apart =
    elim (Bool-cases (trim_space auth == [])) [
      | inl unnamed ↦ rw (store_catalog, unnamed) refl
      | inr named ↦
          let same : lookup (trim_space other) (store_catalog auth mapping meta r)
              ≡ lookup (trim_space other) r =
            rw (store_catalog, named)
              (lookup-insert (trim_space auth) (trim_space other) (snapshot_from meta mapping []) r
                ∙ rw apart refl) in
          rw (resolve_record, same) refl
    ]
