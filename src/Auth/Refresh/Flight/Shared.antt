-- ===== src/Auth/Refresh/Flight/Shared.antt =====
-- What refreshSingleflight.do promises to its callers.
use qoder_cpa.Prelude.{
  ℕ, true, List, [], ◌∷◌, some, Text, text_eq, nat_eq, nat_beq_iff, ◌≡◌, ◌≢◌, refl, arith, subst,
}
use qoder_cpa.Auth.Refresh.Flight.{
  Phase, idle, leading, closing, waiting, returned, Flights, Event, settle, wake, no_flights, step,
  run,
}
use qoder_cpa.Auth.Refresh.Flight.Sound.{leads, Fits, no_flights-IsSound, run-IsSound}

module _ {R : Type 0} where
  -- In every order of steps, while a caller runs a refresh of an account no other caller runs one of
  -- the same account.
  pub leading_alone :
      (es : List (Event R)) (k : Text) (g h : ℕ)
      → (run es no_flights).phase g ≡ leading k
      → g ≢ h
      → (run es no_flights).phase h ≢ leading k
  leading_alone es k g h at apart too =
      let s = run es no_flights in
      let v = run-IsSound es no_flights no_flights-IsSound in
      let mine : Fits s g (leading k) = subst (Fits s g) at (v.fits g) in
      let yours : Fits s h (leading k) = subst (Fits s h) too (v.fits h) in
      absurd (apart (cc (mine.0, yours.0)))

  -- A caller that has returned was given the outcome of a caller that led a refresh of its own
  -- account.
  pub returned_shared :
      (es : List (Event R)) (k : Text) (g f : ℕ) (r : R)
      → (run es no_flights).phase g ≡ returned k f r
      → ((run es no_flights).outcome f ≡ some r) × (leads k f ((run es no_flights).phase f) ≡ true)
  returned_shared es k g f r at =
      let s = run es no_flights in
      subst (Fits s g) at ((run-IsSound es no_flights no_flights-IsSound).fits g)

  -- The caller `f` closes if it leads, with `q`; then `g`, which waits on it, returns.
  served :
      (s : Flights R) (k : Text) (g f : ℕ) (q : R) (p : Phase R)
      → s.phase g ≡ waiting k f
      → s.phase f ≡ p
      → leads k f p ≡ true
      → Fits s f p
      → (r : R) × ((run (settle f q ∷ wake g ∷ []) s).phase g ≡ returned k f r)
  unfolding run step
  served s k g f q idle at is led fit = cc
  served s k g f q (leading j) at is led fit =
      (q, ground (arith, nat_beq_iff g g, nat_beq_iff f f, nat_beq_iff f g))
  served s k g f q (closing j r) at is led fit = (r, ground (arith, nat_beq_iff g g))
  served s k g f q (waiting j h) at is led fit = cc
  served s k g f q (returned j h r) at is led fit =
      (r, ground (arith, nat_beq_iff g g, nat_beq_iff h f))

  -- A caller that waits is never stuck: whatever the refresh that it waits on gives, it returns after
  -- that caller has closed and it has woken.
  pub waiting_served :
      (es : List (Event R)) (k : Text) (g f : ℕ) (q : R)
      → (run es no_flights).phase g ≡ waiting k f
      → (r : R) × ((run (settle f q ∷ wake g ∷ []) (run es no_flights)).phase g ≡ returned k f r)
  waiting_served es k g f q at =
      let s = run es no_flights in
      let v = run-IsSound es no_flights no_flights-IsSound in
      served s k g f q (s.phase f) at refl (subst (Fits s g) at (v.fits g)) (v.fits f)
