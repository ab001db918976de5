-- ===== src/Tests/Sorting.antt =====
-- A sort of scheduler candidates by descending priority, which stands for sort.Slice in the runs.
use qoder_cpa.Prelude.{◌≡◌, List, [], ◌∷◌, arith, ◌≤ℤ◌, leb_ℤ, if◌then◌else◌, All}
use qoder_cpa.Scheduler.Select.{Candidate}
use qoder_cpa.Scheduler.Chosen.{Elem, IsSort}

unfoldable pub place : Candidate → List Candidate → List Candidate
place c [] = c ∷ []
place c (d ∷ ds) = if leb_ℤ d.priority c.priority then c ∷ d ∷ ds else d ∷ place c ds

unfoldable pub by_priority : List Candidate → List Candidate
unfolding place
by_priority [] = []
by_priority (c ∷ cs) = place c (by_priority cs)

abbrev Below : Candidate → List Candidate → Type 0
Below c = All (λ d. d.priority ≤ℤ c.priority)

abbrev IsDescending : List Candidate → Type 0
IsDescending [] = Unit
IsDescending (c ∷ cs) = Below c cs × IsDescending cs

place_sound : (x c : Candidate) (cs : List Candidate) → Elem x (place c cs) → Elem x (c ∷ cs)
unfolding place
place_sound x c [] m = m
place_sound x c (d ∷ cs) m = ground (arith, place_sound x c cs)

place_complete : (x c : Candidate) (cs : List Candidate) → Elem x (c ∷ cs) → Elem x (place c cs)
unfolding place
place_complete x c [] m = m
place_complete x c (d ∷ cs) m = ground (arith, place_complete x c cs)

by_priority_sound : (x : Candidate) (cs : List Candidate) → Elem x (by_priority cs) → Elem x cs
unfolding by_priority
by_priority_sound x [] m = m
by_priority_sound x (c ∷ cs) m =
    ground (arith, place_sound x c (by_priority cs), by_priority_sound x cs)

by_priority_complete : (x : Candidate) (cs : List Candidate) → Elem x cs → Elem x (by_priority cs)
unfolding by_priority
by_priority_complete x [] m = m
by_priority_complete x (c ∷ cs) m =
    ground (arith, place_complete x c (by_priority cs), by_priority_complete x cs)

Below-trans :
    (c d : Candidate) (cs : List Candidate) → d.priority ≤ℤ c.priority → Below d cs → Below c cs
Below-trans c d [] h b = tt
Below-trans c d (x ∷ cs) h b = (omega (arith, b.0), Below-trans c d cs h b.1)

Below-place :
    (c d : Candidate) (cs : List Candidate)
    → d.priority ≤ℤ c.priority
    → Below c cs
    → Below c (place d cs)
unfolding place
Below-place c d [] h b = (h, tt)
Below-place c d (x ∷ cs) h b = ground (arith, Below-place c d cs)

place-IsDescending :
    (c : Candidate) (cs : List Candidate) → IsDescending cs → IsDescending (place c cs)
unfolding place
place-IsDescending c [] h = (tt, tt)
place-IsDescending c (d ∷ cs) h =
    ground (arith, Below-trans c d cs, Below-place d c cs, place-IsDescending c cs)

by_priority-IsDescending : (cs : List Candidate) → IsDescending (by_priority cs)
unfolding by_priority
by_priority-IsDescending [] = tt
by_priority-IsDescending (c ∷ cs) =
    place-IsDescending c (by_priority cs) (by_priority-IsDescending cs)

Below-Elem :
    (c d : Candidate) (ds : List Candidate)
    → Below c ds
    → Elem d (c ∷ ds)
    → d.priority ≤ℤ c.priority
Below-Elem c d [] b m = ground arith
Below-Elem c d (x ∷ ds) b m = ground (arith, Below-Elem c d ds b.1)

first_is_highest :
    (c d : Candidate) (cs ds : List Candidate)
    → by_priority cs ≡ c ∷ ds
    → Elem d (c ∷ ds)
    → d.priority ≤ℤ c.priority
first_is_highest c d cs ds e m = Below-Elem c d ds (rw e at (by_priority-IsDescending cs)).0 m

pub by_priority-IsSort : IsSort by_priority
by_priority-IsSort = record {
  sound = by_priority_sound;
  complete = by_priority_complete;
  descending = first_is_highest;
}
