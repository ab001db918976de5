-- ===== src/Models/Catalog.antt =====
-- The loop of authService.models in model_provider.go returns, and its list and catalog agree.
use qoder_cpa.Prelude.{
  suc, ◌+◌, ◌^◌, ◌≤◌, ◌<◌, true, false, ◌||◌, List, [], ◌∷◌, ◌++◌, map, map-append, none, some,
  Text, text_eq, ◌==◌, text_beq_iff, eq_self, length, mem, mem-append, keys, IsNodup, All, lookup,
  insert, lookup-insert, keys-insert-IsNodup, length-insert_fresh, ◌≡◌, ◌⊎◌, refl, sym, ◌∙◌, subst,
  arith, inl, inr, Bool-cases,
}
use qoder_cpa.Registry.{ModelMeta}
use qoder_cpa.Models.{
  Model, ModelInfo, display_name_for_model, Listing, no_listing, meta_of, info_of, put,
  internal_id_of, list_model, list_models,
}
use qoder_cpa.Models.Listed.{
  IsKept, id_of, name_of, IsListed, all_seen, all_seen-more, all_seen-insert, lookup_seen,
  unique_free,
}

-- A key that is free is no key that is bound.
other_key :
    (k j v : Text) (m : List (Text × Text))
    → lookup k m ≡ none
    → lookup j m ≡ some v
    → (k == j) ≡ false
other_key k j v m free bound = elim (Bool-cases (k == j)) [
  | inr other ↦ other
  | inl same ↦ let e : k ≡ j = (text_beq_iff k j).0 same in absurd (ground arith)
]

-- A fresh pair leaves the models of the list in the catalog.
IsKept-insert :
    (k v : Text) (n : ModelMeta) (mapping : List (Text × Text)) (meta : List (Text × ModelMeta))
    (is : List ModelInfo)
    → lookup k mapping ≡ none
    → All (IsKept mapping meta) is
    → All (IsKept (insert k v mapping) (insert k n meta)) is
IsKept-insert k v n mapping meta [] free h = tt
IsKept-insert k v n mapping meta (i ∷ is) free h =
    let apart : (k == i.id) ≡ false = other_key k i.id i.name mapping free h.0.0 in
    (
      (
        lookup-insert k i.id v mapping ∙ rw apart h.0.0,
        (h.0.1.0, lookup-insert k i.id n meta ∙ rw apart h.0.1.1, h.0.1.2),
      ),
      IsKept-insert k v n mapping meta is free h.1,
    )

-- A free id is the id of no model of the list.
fresh_id :
    (k : Text) (mapping : List (Text × Text)) (meta : List (Text × ModelMeta)) (is : List ModelInfo)
    → lookup k mapping ≡ none
    → All (IsKept mapping meta) is
    → mem k (map id_of is) ≡ false
fresh_id k mapping meta [] free h = refl
fresh_id k mapping meta (i ∷ is) free h = ground (
  arith,
  text_beq_iff i.id k,
  other_key k i.id i.name mapping free h.0.0,
  text_beq_iff k i.id,
  fresh_id k mapping meta is free h.1,
)

-- An internal id that was not seen is that of no model of the list.
fresh_name :
    (seen : List Text) (internal : Text) (mapping : List (Text × Text))
    (meta : List (Text × ModelMeta)) (is : List ModelInfo)
    → all_seen seen mapping ≡ true
    → mem internal seen ≡ false
    → All (IsKept mapping meta) is
    → mem internal (map name_of is) ≡ false
fresh_name seen internal mapping meta [] values new h = refl
fresh_name seen internal mapping meta (i ∷ is) values new h =
    elim (Bool-cases (i.name == internal)) [
      | inl same ↦
          let e : i.name ≡ internal = (text_beq_iff i.name internal).0 same in
          absurd (ground (arith, lookup_seen seen mapping i.id i.name values h.0.0))
      | inr other ↦ ground (arith, fresh_name seen internal mapping meta is values new h.1)
    ]

All-append :
    (P : ModelInfo → Type 0) (xs : List ModelInfo) (y : ModelInfo)
    → All P xs
    → P y
    → All P (xs ++ y ∷ [])
All-append P [] y h p = (p, tt)
All-append P (x ∷ xs) y h p = (h.0, All-append P xs y h.1 p)

nodup_append : (xs : List Text) (y : Text) → IsNodup xs → mem y xs ≡ false → IsNodup (xs ++ y ∷ [])
nodup_append [] y h new = (refl, tt)
nodup_append (x ∷ xs) y h new = (
  ground (arith, mem-append x xs (y ∷ []), text_beq_iff x y, text_beq_iff y x),
  nodup_append xs y h.1 (ground arith),
)

-- What the loop keeps.
record IsSound (l : Listing) : Type 0 where
  listed : IsListed l
  values : all_seen l.seen l.mapping ≡ true
  nodup : IsNodup (keys l.mapping)
  size : length l.mapping ≤ length l.seen

put-IsSound :
    (public internal name : Text) (m : Model) (l : Listing)
    → mem internal l.seen ≡ false
    → ((public == []) ≡ true) ⊎ (lookup public l.mapping ≡ none)
    → IsSound l
    → IsSound (put public internal name m l)
put-IsSound public internal name m l new free h = elim (Bool-cases (public == [])) [
  | inl empty ↦ rw empty (record {
    listed = record { each = h.listed.each; ids = h.listed.ids; names = h.listed.names };
    values = all_seen-more l.seen internal l.mapping h.values;
    nodup = h.nodup;
    size = let s = h.size in omega arith;
  })
  | inr named ↦
      let absent : lookup public l.mapping ≡ none = elim free [
        | inl empty ↦ absurd (ground arith)
        | inr fresh ↦ fresh
      ] in
      let kept =
        IsKept-insert public internal (meta_of m) l.mapping l.meta l.models absent h.listed.each in
      let i = info_of public internal name m in
      rw named (record {
        listed = record {
          each =
              All-append
                (IsKept (insert public internal l.mapping) (insert public (meta_of m) l.meta))
                l.models i kept
                (
                  lookup-insert public public internal l.mapping ∙ rw (eq_self public) refl,
                  (
                    meta_of m,
                    lookup-insert public public (meta_of m) l.meta ∙ rw (eq_self public) refl,
                    refl,
                  ),
                );
          ids = subst IsNodup (sym (map-append id_of l.models (i ∷ []))) (
              nodup_append (map id_of l.models) public h.listed.ids
                (fresh_id public l.mapping l.meta l.models absent h.listed.each));
          names = subst IsNodup (sym (map-append name_of l.models (i ∷ []))) (
              nodup_append (map name_of l.models) internal h.listed.names
                (fresh_name l.seen internal l.mapping l.meta l.models h.values new h.listed.each));
        };
        values =
            all_seen-insert (internal ∷ l.seen) public internal l.mapping
              (all_seen-more l.seen internal l.mapping h.values) (ground (arith, eq_self internal));
        nodup = keys-insert-IsNodup public internal l.mapping h.nodup;
        size =
            let s = h.size in omega (arith, length-insert_fresh public internal l.mapping absent);
      })
]

put_seen :
    (public internal name : Text) (m : Model) (l : Listing)
    → length (put public internal name m l).seen ≡ suc (length l.seen)
put_seen public internal name m l = elim (Bool-cases (public == [])) [
  | inl empty ↦ rw empty refl
  | inr named ↦ rw named refl
]

-- One pass returns.
list_model-IsSound :
    (m : Model) (l : Listing)
    → IsSound l
    → length l.seen < 10 ^ 19
    → (l' : Listing) × (list_model m l ≡ some l')
      × IsSound l'
      × (length l'.seen ≤ suc (length l.seen))
unfolding list_model
list_model-IsSound m l h small =
    let internal = internal_id_of m in
    let name = display_name_for_model internal m.name in
    elim (Bool-cases (internal == [] || mem internal l.seen)) [
      | inl skipped ↦ (l, rw (list_model, skipped) refl, h, omega arith)
      | inr listed ↦
          let new : mem internal l.seen ≡ false = ground arith in
          let s = h.size in
          let r = unique_free l.seen l.mapping name internal h.values new h.nodup (omega arith) in
          (
            put r.0 internal name m l,
            rw (list_model, listed, r.1) refl,
            put-IsSound r.0 internal name m l new r.2 h,
            omega (arith, put_seen r.0 internal name m l),
          )
    ]

list_models-IsSound :
    (ms : List Model) (l : Listing)
    → IsSound l
    → length ms + length l.seen < 10 ^ 19
    → (l' : Listing) × (list_models ms l ≡ some l') × IsSound l'
unfolding list_models
list_models-IsSound [] l h small = (l, refl, h)
list_models-IsSound (m ∷ ms) l h small =
    let one = list_model-IsSound m l h (omega arith) in
    let b = one.3 in
    let rest = list_models-IsSound ms one.0 one.2 (omega arith) in
    (rest.0, rw (list_models, one.1) rest.1, rest.2)

-- Whatever the upstream lists, less than 10^19 models, the loop returns, and so does each loop over
-- suffixes in it; each model that is listed is in the catalog under its own id, with its own internal
-- id, and with a meta that tells of reasoning as the list does; no two have the same id or the same internal id.
pub list_models-IsListed :
    (ms : List Model)
    → length ms < 10 ^ 19
    → (l : Listing) × (list_models ms no_listing ≡ some l) × IsListed l
list_models-IsListed ms small =
    let r =
      list_models-IsSound ms no_listing
        (record {
          listed = record { each = tt; ids = tt; names = tt };
          values = refl;
          nodup = tt;
          size = omega arith;
        })
        (omega arith) in
    (r.0, r.1, r.2.listed)
