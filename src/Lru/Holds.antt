-- ===== src/Lru/Holds.antt =====
-- What it means that lruMap holds a list of bindings, kept by every method of the map.
use qoder_cpa.Prelude.{
  ℕ, ◌≡◌, refl, sym, ap, ◌∙◌, subst, true, false, List, [], ◌∷◌, ◌++◌, none, some, inl, inr, arith,
  Text, text_eq, ◌==◌, text_beq_iff, Bool-cases, Option-cases, eq_self, leb, if◌then◌else◌, length,
  drop, length-append, keys, keys-append, mem, IsNodup, lookup, insert, delete, lookup-insert,
  lookup-delete, lookup-append, lookup-none_of_mem, mem_of_lookup-none, keys-insert-IsNodup,
  keys-delete-IsNodup, length-delete, length-insert_fresh, length-insert_bound,
}
use qoder_cpa.Lru.Spec
use qoder_cpa.Lru.Spec.{Entries, Call, index_from}
use qoder_cpa.Lru.Order.{
  index_from_absent, mem_of_index_from-none, index_from-append, lookup-reindex, remove, keys-delete,
  IsNodup-snoc,
}
use qoder_cpa.Lru.Touch.{Ordered, touch-Ordered, touch_keeps}
use qoder_cpa.Lru.{LruMap, reindex, touch, evict_oldest, get, set, push_key}

-- The map holds exactly the bindings `es`.
pub record Holds (l : LruMap) (es : Entries) : Type 0 where
  pub ordered : Ordered l (keys es)
  pub values : (k : Text) → lookup k l.m ≡ lookup k es
  pub unique : IsNodup (keys l.m)
  pub size : length l.m ≡ length es

bound_has_place :
    (k v : Text) (es : Entries)
    → lookup k es ≡ some v
    → (i : ℕ) × (index_from 0 k (keys es) ≡ some i)
bound_has_place k v es h = elim (Option-cases (index_from 0 k (keys es))) [
  | inl missing ↦
      absurd (cc (lookup-none_of_mem k es (mem_of_index_from-none 0 k (keys es) missing)))
  | inr (i, found) ↦ (i, found)
]

moved_values :
    (k key v : Text) (es : Entries)
    → lookup k (delete key es ++ (key, v) ∷ []) ≡ (if key == k then some v else lookup k es)
unfolding lookup
moved_values k key v es =
    ground (arith, lookup-append k (delete key es) ((key, v) ∷ []), lookup-delete key k es)

pub moved_size :
    (key v w : Text) (es : Entries)
    → IsNodup (keys es)
    → lookup key es ≡ some w
    → length (delete key es ++ (key, v) ∷ []) ≡ length es
moved_size key v w es d h = elim (Bool-cases (mem key (keys es))) [
  | inl bound ↦
      omega (arith, length-append (delete key es) ((key, v) ∷ []), length-delete key es d bound)
  | inr absent ↦ absurd (cc (lookup-none_of_mem key es absent))
]

moved_keys :
    (key v : Text) (es : Entries)
    → keys (delete key es ++ (key, v) ∷ []) ≡ remove key (keys es) ++ key ∷ []
moved_keys key v es = rw (keys-append (delete key es) ((key, v) ∷ []), keys-delete key es)

-- A bound key gets the value `v` and becomes the newest.
touch-Holds :
    (l : LruMap) (es : Entries) (key v w : Text) (m : List (Text × Text))
    → Holds l es
    → lookup key es ≡ some w
    → ((k : Text) → lookup k m ≡ (if key == k then some v else lookup k es))
    → IsNodup (keys m)
    → length m ≡ length es
    → Holds (touch (record l { m = m }) key) (delete key es ++ (key, v) ∷ [])
touch-Holds l es key v w m h at vals uniq len =
    let (i, place) = bound_has_place key w es at in
    let l' : LruMap = record l { m = m } in
    let o : Ordered l' (keys es) = record {
      listed = h.ordered.listed;
      distinct = h.ordered.distinct;
      placed = h.ordered.placed;
    } in
    let (same_m, same_cap) = touch_keeps l' key in
    record {
      ordered =
          subst (Ordered (touch l' key)) (sym (moved_keys key v es))
            (touch-Ordered l' (keys es) key i o place);
      values = λ k. ap (lookup k) same_m ∙ vals k ∙ sym (moved_values k key v es);
      unique = rw same_m uniq;
      size = ap length same_m ∙ len ∙ sym (moved_size key v w es h.ordered.distinct at);
    }

push-Holds :
    (l : LruMap) (es : Entries) (key v : Text)
    → Holds l es
    → lookup key es ≡ none
    → Holds (push_key key v l) (es ++ (key, v) ∷ [])
unfolding lookup index_from
push-Holds l es key v h at =
    let absent = mem_of_lookup-none key es at in
    let place : length l.order ≡ length (keys es) = ap length h.ordered.listed in
    record {
      ordered = subst (Ordered (push_key key v l)) (sym (keys-append es ((key, v) ∷ []))) (record {
        listed = rw h.ordered.listed;
        distinct = IsNodup-snoc (keys es) key h.ordered.distinct absent;
        placed = push_place h.ordered absent;
      });
      values = push_value;
      unique = keys-insert-IsNodup key v l.m h.unique;
      size = omega (
        arith,
        length-insert_fresh key v l.m (h.values key ∙ at),
        length-append es ((key, v) ∷ []),
        h.size,
      );
    }
  where
    push_place :
        Ordered l (keys es)
        → mem key (keys es) ≡ false
        → (k : Text)
        → lookup k (insert key (length l.order) l.idx) ≡ index_from 0 k (keys es ++ key ∷ [])
    push_place o absent k = ground (
      arith,
      text_beq_iff key k,
      o.placed k,
      ap length o.listed,
      lookup-insert key k (length l.order) l.idx,
      index_from-append 0 (length (keys es)) k (keys es) (key ∷ []) (omega arith),
      index_from_absent 0 key (keys es) absent,
    )

    push_value : (k : Text) → lookup k (insert key v l.m) ≡ lookup k (es ++ (key, v) ∷ [])
    push_value k = ground (
      arith,
      text_beq_iff key k,
      h.values k,
      lookup-insert key k v l.m,
      lookup-append k es ((key, v) ∷ []),
    )

evict_empty : (l : LruMap) → l.order ≡ [] → evict_oldest l ≡ l
unfolding evict_oldest
evict_empty l h = ground arith

evict_first :
    (l : LruMap) (key : Text) (ks : List Text)
    → l.order ≡ key ∷ ks
    → evict_oldest l
      ≡ record l { m = delete key l.m; order = ks; idx = reindex 0 ks (delete key l.idx) }
unfolding evict_oldest
evict_first l key ks h = ground arith

-- Eviction drops the oldest binding, and that one only.
evict-Holds : (l : LruMap) (es : Entries) → Holds l es → Holds (evict_oldest l) (drop 1 es)
unfolding lookup index_from
evict-Holds l [] h = rw (evict_empty l h.ordered.listed) h
evict-Holds l ((key, v) ∷ es) h = rw (evict_first l key (keys es) h.ordered.listed) (record {
  ordered = record { listed = refl; distinct = h.ordered.distinct.1; placed = place };
  values = value;
  unique = keys-delete-IsNodup key l.m h.unique;
  size = omega (arith, h.size, length-delete key l.m h.unique bound);
})
  where
    place :
        (k : Text) → lookup k (reindex 0 (keys es) (delete key l.idx)) ≡ index_from 0 k (keys es)
    place k = ground (
      arith,
      lookup-reindex k 0 (keys es) (delete key l.idx) h.ordered.distinct.1,
      lookup-delete key k l.idx,
      h.ordered.placed k,
      mem_of_index_from-none 0 k (keys es),
      index_from_absent 1 k (keys es),
    )

    value : (k : Text) → lookup k (delete key l.m) ≡ lookup k es
    value k = ground (
      arith,
      text_beq_iff key k,
      lookup-delete key k l.m,
      h.values k,
      lookup-none_of_mem key es h.ordered.distinct.0,
    )

    bound : mem key (keys l.m) ≡ true
    bound = ground (arith, eq_self key, h.values key, lookup-none_of_mem key l.m)

-- A read returns the value of the binding, or nothing, and makes the binding the newest.
pub get-Holds :
    (l : LruMap) (es : Entries) (key : Text)
    → Holds l es
    → ((get l key).0 ≡ (Spec.get es key).0) × Holds (get l key).1 (Spec.get es key).1
unfolding get Spec.get
get-Holds l es key h = elim (Option-cases (lookup key es)) [
  | inl missing ↦ rw (h.values key, missing, get, Spec.get) (refl, h)
  | inr (v, found) ↦
      rw (h.values key, found, get, Spec.get)
        (refl, touch-Holds l es key v v l.m h found (kept v found) h.unique h.size)
]
  where
    kept :
        (v : Text)
        → lookup key es ≡ some v
        → (k : Text) → lookup k l.m ≡ (if key == k then some v else lookup k es)
    kept v found k = ground (arith, text_beq_iff key k, h.values k)

pub lookup-drop_absent :
    (key : Text) (es : Entries) → lookup key es ≡ none → lookup key (drop 1 es) ≡ none
unfolding lookup
lookup-drop_absent key [] h = refl
lookup-drop_absent key ((k, v) ∷ es) h = ground arith

-- A write binds the key as the newest; in a full map a new key replaces the oldest binding.
pub set-Holds :
    (l : LruMap) (es : Entries) (key v : Text)
    → Holds l es
    → Holds (set l key v) (Spec.set l.cap es key v)
unfolding set Spec.set
set-Holds l es key v h = elim (Option-cases (lookup key es)) [
  | inl missing ↦ rw (h.values key, missing, set, Spec.set, h.size) (fresh missing)
  | inr (w, found) ↦
      rw (h.values key, found, set, Spec.set)
        (touch-Holds l es key v w (insert key v l.m) h found (λ k. written k)
          (keys-insert-IsNodup key v l.m h.unique)
          (ground (arith, length-insert_bound key v l.m, h.values key)))
]
  where
    written : (k : Text) → lookup k (insert key v l.m) ≡ (if key == k then some v else lookup k es)
    written k = ground (arith, lookup-insert key k v l.m, h.values k)

    fresh :
        lookup key es ≡ none
        → Holds
            (push_key key v (if leb l.cap (length es) then evict_oldest l else l))
            ((if leb l.cap (length es) then drop 1 es else es) ++ (key, v) ∷ [])
    fresh missing = elim (Bool-cases (leb l.cap (length es))) [
      | inl full ↦ rw full (
          push-Holds (evict_oldest l) (drop 1 es) key v (evict-Holds l es h)
            (lookup-drop_absent key es missing))
      | inr room ↦ rw room (push-Holds l es key v h missing)
    ]
