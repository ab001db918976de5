-- ===== src/Lru/Refine.antt =====
-- lruMap implements the list of bindings of `Lru.Spec`: one read or write at a time, and over
-- every sequence of calls.
use qoder_cpa.Prelude.{
  ℕ, ◌≤◌, ◌<◌, ◌≡◌, refl, ap₂, ◌∙◌, subst, List, [], ◌∷◌, inl, inr, arith, Text, text_eq,
  Option-cases, length, drop, length-append, length-drop, keys, IsNodup, lookup, insert,
}
use qoder_cpa.Lru.Spec
use qoder_cpa.Lru.Spec.{Entries, Call, index_from}
use qoder_cpa.Lru.Touch.{touch_keeps}
use qoder_cpa.Lru.Holds.{Holds, get-Holds, set-Holds, moved_size}
use qoder_cpa.Lru
use qoder_cpa.Lru.{LruMap, reindex, touch, evict_oldest, get, set, push_key, new_lru_map}

pub new_lru_map-Holds : (cap : ℕ) → Holds (new_lru_map cap) []
unfolding new_lru_map lookup index_from
new_lru_map-Holds cap = record {
  ordered = record { listed = refl; distinct = tt; placed = λ k. refl };
  values = λ k. refl;
  unique = tt;
  size = refl;
}

get_cap : (l : LruMap) (key : Text) → (get l key).1.cap ≡ l.cap
unfolding get
get_cap l key = ground (arith, touch_keeps l key)

set_cap : (l : LruMap) (key v : Text) → (set l key v).cap ≡ l.cap
unfolding set evict_oldest
set_cap l key v = ground (arith, touch_keeps (record l { m = insert key v l.m }) key)

run-Holds :
    (l : LruMap) (es : Entries) (cap : ℕ) (cs : List Call)
    → Holds l es
    → l.cap ≡ cap
    → ((Lru.run l cs).0 ≡ (Spec.run cap es cs).0) × Holds (Lru.run l cs).1 (Spec.run cap es cs).1
unfolding Lru.run Spec.run
run-Holds l es cap [] h c = (refl, h)
run-Holds l es cap (Call.read k ∷ cs) h c =
    let (same, h') = get-Holds l es k h in
    let (rest, last) = run-Holds (get l k).1 (Spec.get es k).1 cap cs h' (get_cap l k ∙ c) in
    (ap₂ ◌∷◌ same rest, last)
run-Holds l es cap (Call.write k v ∷ cs) h c =
    run-Holds (set l k v) (Spec.set cap es k v) cap cs
      (subst (λ n. Holds (set l k v) (Spec.set n es k v)) c (set-Holds l es k v h))
      (set_cap l k v ∙ c)

-- Over every sequence of reads and writes on a new map the answers of the reads are those of the
-- list of bindings, and the map ends with exactly the bindings of the list: values, recency order
-- and place index together.
pub run_refines :
    (cap : ℕ) (cs : List Call)
    → ((Lru.run (new_lru_map cap) cs).0 ≡ (Spec.run cap [] cs).0)
      × Holds (Lru.run (new_lru_map cap) cs).1 (Spec.run cap [] cs).1
unfolding new_lru_map
run_refines cap cs = run-Holds (new_lru_map cap) [] cap cs (new_lru_map-Holds cap) refl

spec_set-size :
    (cap : ℕ) (es : Entries) (key v : Text)
    → 0 < cap
    → IsNodup (keys es)
    → length es ≤ cap
    → length (Spec.set cap es key v) ≤ cap
unfolding Spec.set
spec_set-size cap es key v pos d h = elim (Option-cases (lookup key es)) [
  | inl missing ↦
      rw (missing, Spec.set)
        (ground (
          arith,
          length-append es ((key, v) ∷ []),
          length-append (drop 1 es) ((key, v) ∷ []),
          length-drop 1 es,
        ))
  | inr (w, found) ↦ rw (found, Spec.set) (omega (arith, moved_size key v w es d found))
]

spec_get-size :
    (es : Entries) (key : Text) → IsNodup (keys es) → length (Spec.get es key).1 ≡ length es
unfolding Spec.get
spec_get-size es key d = elim (Option-cases (lookup key es)) [
  | inl missing ↦ rw (missing, Spec.get)
  | inr (v, found) ↦ rw (found, Spec.get) (moved_size key v v es d found)
]

run-size :
    (l : LruMap) (es : Entries) (cs : List Call)
    → 0 < l.cap
    → Holds l es
    → length es ≤ l.cap
    → length (Lru.run l cs).1.m ≤ l.cap
unfolding Lru.run
run-size l es [] pos h room = omega (arith, h.size)
run-size l es (Call.read k ∷ cs) pos h room =
    let (same, h') = get-Holds l es k h in
    let c = get_cap l k in
    subst (λ n. length (Lru.run (get l k).1 cs).1.m ≤ n) c
      (run-size (get l k).1 (Spec.get es k).1 cs (omega (arith, c)) h'
        (omega (arith, c, spec_get-size es k h.ordered.distinct)))
run-size l es (Call.write k v ∷ cs) pos h room =
    let c = set_cap l k v in
    subst (λ n. length (Lru.run (set l k v) cs).1.m ≤ n) c
      (run-size (set l k v) (Spec.set l.cap es k v) cs (omega (arith, c)) (set-Holds l es k v h)
        (omega (arith, c, spec_set-size l.cap es k v pos h.ordered.distinct room)))

-- A new map of a positive capacity never holds more bindings than its capacity, whatever is read
-- and written.
pub run_bounded :
    (cap : ℕ) (cs : List Call) → 0 < cap → length (Lru.run (new_lru_map cap) cs).1.m ≤ cap
unfolding new_lru_map
run_bounded cap cs pos = run-size (new_lru_map cap) [] cs pos (new_lru_map-Holds cap) (omega arith)
