-- ===== src/Lru/Spec.antt =====
-- What the recency map promises: a list of bindings, the oldest first, and what its place index
-- must agree with.
use qoder_cpa.Prelude.{
  ℕ, ◌+◌, List, [], ◌∷◌, ◌++◌, Option, none, some, Text, text_eq, ◌==◌, leb, if◌then◌else◌, length,
  drop, lookup, delete,
}

abbrev pub Entries : Type 0
Entries = List (Text × Text)

-- A read makes the binding the newest.
unfoldable pub get : Entries → Text → Option Text × Entries
get es key = elim (lookup key es) [
  | none ↦ (none, es)
  | some v ↦ (some v, delete key es ++ (key, v) ∷ [])
]

-- A write makes the binding the newest; a new key in a full map replaces the oldest binding.
unfoldable pub set : ℕ → Entries → Text → Text → Entries
set cap es key val = elim (lookup key es) [
  | some old ↦ delete key es ++ (key, val) ∷ []
  | none ↦ (if leb cap (length es) then drop 1 es else es) ++ (key, val) ∷ []
]

-- The place of a key in a list whose first place is `i`.
unfoldable pub index_from : ℕ → Text → List Text → Option ℕ
index_from i key [] = none
index_from i key (x ∷ xs) = if x == key then some i else index_from (i + 1) key xs

-- A program of the map: reads and writes in any order. The answers of the reads are kept.
pub data Call : Type 0 where
  read : Text → Call
  write : Text → Text → Call

unfoldable pub run : ℕ → Entries → List Call → List (Option Text) × Entries
unfolding get set
run cap es [] = ([], es)
run cap es (read k ∷ cs) =
    let (v, es') = get es k in let (vs, last) = run cap es' cs in (v ∷ vs, last)
run cap es (write k v ∷ cs) = run cap (set cap es k v) cs
