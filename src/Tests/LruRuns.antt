-- ===== src/Tests/LruRuns.antt =====
-- A recency map of two places.
use qoder_cpa.Prelude.{◌≡◌, refl, List, [], ◌∷◌, none, some, text_eq, codes, lookup, insert, delete}
use qoder_cpa.Lru
use qoder_cpa.Lru.Spec
use qoder_cpa.Lru.Spec.{Call, read, write}
use qoder_cpa.Lru.Holds.{Holds}
use qoder_cpa.Lru.Refine.{run_refines}

-- "a" is read after "b" was written, so "c" takes the place of "b".
abbrev calls : List Call
calls =
    write (codes "a") (codes "1")
    ∷ write (codes "b") (codes "2")
    ∷ read (codes "a")
    ∷ write (codes "c") (codes "3")
    ∷ read (codes "b")
    ∷ read (codes "a")
    ∷ []

answers : (Lru.run (Lru.new_lru_map 2) calls).0 ≡ some (codes "1") ∷ none ∷ some (codes "1") ∷ []
unfolding Lru.run Lru.new_lru_map Lru.get Lru.set Lru.touch Lru.evict_oldest Lru.reindex lookup
    insert delete
answers = refl

last_order : (Lru.run (Lru.new_lru_map 2) calls).1.order ≡ codes "c" ∷ codes "a" ∷ []
unfolding Lru.run Lru.new_lru_map Lru.get Lru.set Lru.touch Lru.evict_oldest Lru.reindex lookup
    insert delete
last_order = refl

run_refines_example :
    ((Lru.run (Lru.new_lru_map 2) calls).0 ≡ (Spec.run 2 [] calls).0)
    × Holds (Lru.run (Lru.new_lru_map 2) calls).1 (Spec.run 2 [] calls).1
run_refines_example = run_refines 2 calls
