-- ===== src/Lru/Touch.antt =====
-- The order and the place index of lruMap: touching a key keeps them in step and makes it the
-- newest.
use qoder_cpa.Prelude.{
  ℕ, ◌+◌, ◌≡◌, refl, ap, ◌∙◌, subst, ◌≢◌, List, [], ◌∷◌, ◌++◌, some, inl, inr, arith, Text, text_eq,
  text_beq_iff, Bool-cases, length, length-append, drop-append, append-nil, mem, IsNodup,
  mem-append, lookup, insert, lookup-insert,
}
use qoder_cpa.Lru.Spec.{index_from}
use qoder_cpa.Lru.Order.{
  index_from_absent, mem_of_index_from-none, index_from-append, lookup-reindex, split_at_index,
  remove, IsNodup-cut, IsNodup-append, IsNodup-snoc, remove-cut, cut_out,
}
use qoder_cpa.Lru.{LruMap, reindex, touch}

-- The order and the index of a map agree on the keys `ks`, the oldest first.
pub record Ordered (l : LruMap) (ks : List Text) : Type 0 where
  pub listed : l.order ≡ ks
  pub distinct : IsNodup ks
  pub placed : (k : Text) → lookup k l.idx ≡ index_from 0 k ks

-- The places after a key has been cut out and put at the end.
placed-cut :
    (key k : Text) (before after : List Text) (idx : List (Text × ℕ)) (n : ℕ)
    → IsNodup (before ++ key ∷ after)
    → n ≡ length (before ++ after)
    → lookup k idx ≡ index_from 0 k (before ++ key ∷ after)
    → lookup k (insert key n (reindex (length before) after idx))
      ≡ index_from 0 k ((before ++ after) ++ key ∷ [])
unfolding index_from
placed-cut key k before after idx n d len h =
    let (b, a, rest) = IsNodup-cut key before after d in
    let (db, da, apart) = IsNodup-append before after rest in
    elim (Bool-cases (mem k after)) [
      | inl later ↦ ground (
        arith,
        text_beq_iff key k,
        lookup-insert key k n (reindex (length before) after idx),
        lookup-reindex k (length before) after idx da,
        index_from-append 0 (length before) k before (key ∷ after) (omega arith),
        index_from-append 0 n k (before ++ after) (key ∷ []) (omega arith),
        index_from-append 0 (length before) k before after (omega arith),
        index_from_absent 0 k before,
        index_from_absent 0 key before,
        index_from_absent 0 key (before ++ after),
        mem-append key before after,
        mem_of_index_from-none (length before) k after,
        apart k,
      )
      | inr not_later ↦ ground (
        arith,
        text_beq_iff key k,
        lookup-insert key k n (reindex (length before) after idx),
        lookup-reindex k (length before) after idx da,
        index_from-append 0 (length before) k before (key ∷ after) (omega arith),
        index_from-append 0 n k (before ++ after) (key ∷ []) (omega arith),
        index_from-append 0 (length before) k before after (omega arith),
        index_from_absent 0 key (before ++ after),
        mem-append key before after,
        index_from_absent (length before) k after not_later,
        index_from_absent (length before + 1) k after not_later,
      )
    ]

touch-cut :
    (l : LruMap) (key : Text) (before after : List Text)
    → l.order ≡ before ++ key ∷ after
    → lookup key l.idx ≡ some (length before)
    → length after ≢ 0
    → touch l key ≡ record l {
      order = (before ++ after) ++ key ∷ [];
      idx = insert key (length (before ++ after)) (reindex (length before) after l.idx);
    }
unfolding touch
touch-cut l key before after order at more = ground (
  arith,
  cut_out (length before) key before after refl,
  drop-append before after (length before) refl,
  length-append before (key ∷ after),
  length-append (before ++ after) (key ∷ []),
)

touch-cut_last :
    (l : LruMap) (key : Text) (before : List Text)
    → l.order ≡ before ++ key ∷ []
    → lookup key l.idx ≡ some (length before)
    → touch l key ≡ l
unfolding touch
touch-cut_last l key before order at = ground (arith, length-append before (key ∷ []))

touch-Ordered_cut :
    (l : LruMap) (key : Text) (before after : List Text)
    → Ordered l (before ++ key ∷ after)
    → lookup key l.idx ≡ some (length before)
    → Ordered (touch l key) ((before ++ after) ++ key ∷ [])
touch-Ordered_cut l key before [] o at =
    rw (touch-cut_last l key before o.listed at, append-nil before) o
touch-Ordered_cut l key before (x ∷ after) o at =
    let (b, a, rest) = IsNodup-cut key before (x ∷ after) o.distinct in
    rw (touch-cut l key before (x ∷ after) o.listed at (omega arith)) (record {
      listed = refl;
      distinct =
          IsNodup-snoc (before ++ x ∷ after) key rest
            (rw (mem-append key before (x ∷ after), b, a));
      placed = λ k.
          placed-cut key k before (x ∷ after) l.idx (length (before ++ x ∷ after)) o.distinct refl
            (o.placed k);
    })

-- Touching a bound key makes it the newest.
pub touch-Ordered :
    (l : LruMap) (ks : List Text) (key : Text) (i : ℕ)
    → Ordered l ks
    → index_from 0 key ks ≡ some i
    → Ordered (touch l key) (remove key ks ++ key ∷ [])
touch-Ordered l ks key i o at =
    let (before, after, cut, place) = split_at_index 0 i key ks at in
    let found : lookup key l.idx ≡ some (length before) =
      o.placed key ∙ at ∙ ap some (omega (arith, place)) in
    let o' : Ordered l (before ++ key ∷ after) = subst (Ordered l) cut o in
    rw (cut, remove-cut key before after o'.distinct)
      (touch-Ordered_cut l key before after o' found)

pub touch_keeps : (l : LruMap) (key : Text) → ((touch l key).m ≡ l.m) × ((touch l key).cap ≡ l.cap)
unfolding touch
touch_keeps l key = ground arith
