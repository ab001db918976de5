-- ===== src/Lru.antt =====
-- The bounded recency map of scheduler_state.go (lruMap), which holds the session bindings of the
-- scheduler: the values, the keys from the oldest to the newest, and the place of each key.
use qoder_cpa.Prelude.{
  ℕ, ◌+◌, ◌-◌, Bool, List, [], ◌∷◌, ◌++◌, Option, none, some, Text, text_eq, leb, if◌then◌else◌,
  length, take, drop, lookup, insert, delete,
}
pub mod Spec
pub mod Order
pub mod Touch
pub mod Holds
pub mod Recent
pub mod Refine

pub record LruMap : Type 0 where
  pub cap : ℕ
  pub m : List (Text × Text)
  pub order : List Text
  pub idx : List (Text × ℕ)

unfoldable pub new_lru_map : ℕ → LruMap
new_lru_map cap = record { cap = cap; m = []; order = []; idx = [] }

-- `for j := i; j < len(l.order); j++ { l.idx[l.order[j]] = j }`, over the keys from place `i` on.
unfoldable pub reindex : ℕ → List Text → List (Text × ℕ) → List (Text × ℕ)
reindex i [] idx = idx
reindex i (k ∷ ks) idx = reindex (i + 1) ks (insert k i idx)

-- The place found is out of range only if the index is out of step with the order.
touch_at : LruMap → Text → ℕ → LruMap
touch_at l key i =
    if leb (length l.order) (i + 1)
    then l
    else let rest = take i l.order ++ drop (i + 1) l.order in
      let idx = reindex i (drop i rest) l.idx in
      record l { order = rest ++ key ∷ []; idx = insert key (length (rest ++ key ∷ []) - 1) idx }

unfoldable pub touch : LruMap → Text → LruMap
unfolding touch_at
touch l key = elim (lookup key l.idx) [ none ↦ l | some i ↦ touch_at l key i ]

evict_from : List Text → LruMap → LruMap
evict_from [] l = l
evict_from (oldest ∷ rest) l = record l {
  m = delete oldest l.m;
  order = rest;
  idx = reindex 0 rest (delete oldest l.idx);
}

unfoldable pub evict_oldest : LruMap → LruMap
unfolding evict_from
evict_oldest l = evict_from l.order l

-- `append`: the new key is the newest.
abbrev push_key : Text → Text → LruMap → LruMap
push_key key val l = record l {
  m = insert key val l.m;
  order = l.order ++ key ∷ [];
  idx = insert key (length l.order) l.idx;
}

unfoldable pub get : LruMap → Text → Option Text × LruMap
get l key = elim (lookup key l.m) [ none ↦ (none, l) | some v ↦ (some v, touch l key) ]

unfoldable pub set : LruMap → Text → Text → LruMap
set l key val = elim (lookup key l.m) [
  | some old ↦ touch (record l { m = insert key val l.m }) key
  | none ↦ push_key key val (if leb l.cap (length l.m) then evict_oldest l else l)
]

-- The calls of a program, one after the other, with the answers of the reads.
unfoldable pub run : LruMap → List Spec.Call → List (Option Text) × LruMap
run l [] = ([], l)
run l (Spec.Call.read k ∷ cs) =
    let (v, l') = get l k in let (vs, last) = run l' cs in (v ∷ vs, last)
run l (Spec.Call.write k v ∷ cs) = run (set l k v) cs
