-- ===== src/Auth/Refresh/Flight.antt =====
-- refreshSingleflight.do of internal/qoderauth/refresh.go, as steps of callers that run at once. A
-- caller is a call of `do` and has a number; the result that it allocates is named by that number. A
-- step that a caller cannot make yet, such as reading a channel that is open, changes nothing.
mod Sound
pub mod Shared
use qoder_cpa.Prelude.{
  ℕ, Bool, true, false, ◌&&◌, List, [], ◌∷◌, Option, none, some, Text, text_eq, nat_eq, ◌==◌,
  if◌then◌else◌, lookup, insert, delete, update, lookup-insert, lookup-delete, text_beq_iff,
  nat_beq_iff, ◌≡◌, refl, arith, eq_self,
}

-- Where a caller stands: it has not called, runs the function, has closed `done` and is still in
-- the map, waits on a result, or has returned one.
pub data Phase (R : Type 0) : Type 0 where
  idle : Phase R
  leading : Text → Phase R
  closing : Text → R → Phase R
  waiting : Text → ℕ → Phase R
  returned : Text → ℕ → R → Phase R

pub record Flights (R : Type 0) : Type 0 where
  pub inflight : List (Text × ℕ)
  pub outcome : ℕ → Option R
  pub phase : ℕ → Phase R

pub data Event (R : Type 0) : Type 0 where
  join : ℕ → Text → Event R
  settle : ℕ → R → Event R
  leave : ℕ → Event R
  wake : ℕ → Event R

module _ {R : Type 0} where
  abbrev pub no_flights : Flights R
  no_flights = record { inflight = []; outcome = λ n. none; phase = λ n. idle }

  abbrev entered : Option ℕ → ℕ → Text → Flights R → Flights R
  entered (some f) g k s = record s { phase = update s.phase g (waiting k f) }
  entered none g k s = record s {
    inflight = insert k g s.inflight;
    phase = update s.phase g (leading k);
  }

  abbrev join_from : Phase R → ℕ → Text → Flights R → Flights R
  join_from idle g k s = entered (lookup k s.inflight) g k s
  join_from p g k s = s

  abbrev settle_from : Phase R → ℕ → R → Flights R → Flights R
  settle_from (leading k) g r s = record s {
    outcome = update s.outcome g (some r);
    phase = update s.phase g (closing k r);
  }
  settle_from p g r s = s

  abbrev leave_from : Phase R → ℕ → Flights R → Flights R
  leave_from (closing k r) g s = record s {
    inflight = delete k s.inflight;
    phase = update s.phase g (returned k g r);
  }
  leave_from p g s = s

  abbrev woken : Option R → Text → ℕ → ℕ → Flights R → Flights R
  woken none k f g s = s
  woken (some r) k f g s = record s { phase = update s.phase g (returned k f r) }

  abbrev wake_from : Phase R → ℕ → Flights R → Flights R
  wake_from (waiting k f) g s = woken (s.outcome f) k f g s
  wake_from p g s = s

  unfoldable pub step : Event R → Flights R → Flights R
  step (join g k) s = join_from (s.phase g) g k s
  step (settle g r) s = settle_from (s.phase g) g r s
  step (leave g) s = leave_from (s.phase g) g s
  step (wake g) s = wake_from (s.phase g) g s

  unfoldable pub run : List (Event R) → Flights R → Flights R
  run [] s = s
  run (e ∷ es) s = run es (step e s)
