-- ===== src/Management/Merge.antt =====
-- What management_save_merge.go writes over an account's file.
use qoder_cpa.Prelude.{
  true, false, [], ◌∷◌, Option, none, some, Text, text_eq, ◌==◌, text_beq_iff, if◌then◌else◌, mem,
  keys, IsNodup, lookup, insert, lookup-insert, lookup-none_of_mem, ◌≡◌, refl, ◌∙◌, arith, inl, inr,
  Bool-cases,
}
use qoder_cpa.Management.{Doc, is_owned, merge_old}

abbrev or_else : Option Text → Option Text → Option Text
or_else none w = w
or_else (some v) w = some v

-- The value of a key: what the plugin owns is the fresh one's, what it does not own is the old one's,
-- or the fresh one's where the old document does not have it.
abbrev pub merged_value : Text → Doc → Doc → Option Text
merged_value k old fresh =
    if is_owned k then lookup k fresh else or_else (lookup k old) (lookup k fresh)

-- The key at the front is not among those behind it.
front_lem :
    (k j v : Text) (old fresh : Doc)
    → mem j (keys old) ≡ false
    → is_owned j ≡ false
    → merged_value k old (insert j v fresh) ≡ merged_value k ((j, v) ∷ old) fresh
unfolding lookup
front_lem k j v old fresh new foreign = elim (Bool-cases (j == k)) [
  | inl same ↦
      let e : j ≡ k = (text_beq_iff j k).0 same in
      let here : is_owned k ≡ false = ground arith in
      let gone : lookup k old ≡ none = ground (arith, lookup-none_of_mem k old) in
      rw (here, gone, same) (lookup-insert j k v fresh ∙ rw same refl)
  | inr other ↦
      let kept : lookup k (insert j v fresh) ≡ lookup k fresh =
        lookup-insert j k v fresh ∙ rw other refl in
      rw (kept, other) refl
]

-- A key that is owned adds nothing.
skipped_lem :
    (k j v : Text) (old fresh : Doc)
    → is_owned j ≡ true
    → merged_value k old fresh ≡ merged_value k ((j, v) ∷ old) fresh
unfolding lookup
skipped_lem k j v old fresh owned = elim (Bool-cases (j == k)) [
  | inl same ↦
      let e : j ≡ k = (text_beq_iff j k).0 same in
      let here : is_owned k ≡ true = ground arith in rw here refl
  | inr other ↦ rw other refl
]

-- Of every key, the file that is written has the fresh value where the plugin owns the key; where it
-- does not, the value of the file that was read, or the fresh one where that had none. The old
-- document has each key once.
pub lookup-merge_old :
    (k : Text) (old fresh : Doc)
    → IsNodup (keys old)
    → lookup k (merge_old old fresh) ≡ merged_value k old fresh
unfolding merge_old lookup
lookup-merge_old k [] fresh nodup = elim (Bool-cases (is_owned k)) [
  | inl owned ↦ rw owned refl
  | inr foreign ↦ rw foreign refl
]
lookup-merge_old k ((j, v) ∷ old) fresh nodup = elim (Bool-cases (is_owned j)) [
  | inl owned ↦
      rw (merge_old, owned)
        (lookup-merge_old k old fresh nodup.1 ∙ skipped_lem k j v old fresh owned)
  | inr foreign ↦
      rw (merge_old, foreign)
        (lookup-merge_old k old (insert j v fresh) nodup.1
          ∙ front_lem k j v old fresh nodup.0 foreign)
]
