-- ===== src/Auth/Refresh/Flight/Sound.antt =====
-- What holds of the callers of refreshSingleflight.do in every order of their steps.
use qoder_cpa.Prelude.{
  ℕ, Bool, true, false, ◌&&◌, List, [], ◌∷◌, Option, none, some, Text, text_eq, nat_eq, ◌==◌,
  lookup, update, lookup-insert, lookup-delete, text_beq_iff, nat_beq_iff, ◌≡◌, refl, arith,
  eq_self, eq→path, inl, inr, Bool-cases, subst,
}
use qoder_cpa.Auth.Refresh.Flight.{
  Phase, idle, leading, closing, waiting, returned, Flights, Event, join, settle, leave, wake,
  no_flights, entered, join_from, settle_from, leave_from, woken, wake_from, step, run,
}

module _ {R : Type 0} where
  -- The caller is in the map for the account.
  abbrev pub holds : Text → Phase R → Bool
  holds k (leading j) = j == k
  holds k (closing j r) = j == k
  holds k p = false

  -- The caller `f` runs or ran the function for the account.
  abbrev pub leads : Text → ℕ → Phase R → Bool
  leads k f (leading j) = j == k
  leads k f (closing j r) = j == k
  leads k f (returned j h r) = j == k && h == f
  leads k f p = false

  abbrev pub Fits : Flights R → ℕ → Phase R → Type 0
  Fits s g idle = s.outcome g ≡ none
  Fits s g (leading k) = (lookup k s.inflight ≡ some g) × (s.outcome g ≡ none)
  Fits s g (closing k r) = (lookup k s.inflight ≡ some g) × (s.outcome g ≡ some r)
  Fits s g (waiting k f) = leads k f (s.phase f) ≡ true
  Fits s g (returned k f r) = (s.outcome f ≡ some r) × (leads k f (s.phase f) ≡ true)

  pub record IsSound (s : Flights R) : Type 0 where
    pub fits : (g : ℕ) → Fits s g (s.phase g)
    pub bound : (k : Text) (f : ℕ) → lookup k s.inflight ≡ some f → holds k (s.phase f) ≡ true

  pub no_flights-IsSound : IsSound no_flights
  unfolding lookup
  no_flights-IsSound = record { fits = λ g. refl; bound = λ k f h. ground arith }

  leads_of_holds : (k : Text) (f : ℕ) (p : Phase R) → holds k p ≡ true → leads k f p ≡ true
  leads_of_holds k f (leading j) h = h
  leads_of_holds k f (closing j r) h = h
  leads_of_holds k f idle h = cc
  leads_of_holds k f (waiting j g) h = cc
  leads_of_holds k f (returned j g r) h = cc

  -- What a step must keep for a caller that does not make it.
  record Keeps (s t : Flights R) (h : ℕ) : Type 0 where
    settled : (f : ℕ) (r : R) → s.outcome f ≡ some r → t.outcome f ≡ some r
    unsettled : s.outcome h ≡ none → t.outcome h ≡ none
    entry : (k : Text) → lookup k s.inflight ≡ some h → lookup k t.inflight ≡ some h
    leader : (k : Text) (f : ℕ) → leads k f (s.phase f) ≡ true → leads k f (t.phase f) ≡ true

  Fits_kept : (s t : Flights R) (h : ℕ) → Keeps s t h → (p : Phase R) → Fits s h p → Fits t h p
  Fits_kept s t h c idle fit = c.unsettled fit
  Fits_kept s t h c (leading k) fit = (c.entry k fit.0, c.unsettled fit.1)
  Fits_kept s t h c (closing k r) fit = (c.entry k fit.0, c.settled h r fit.1)
  Fits_kept s t h c (waiting k f) fit = c.leader k f fit
  Fits_kept s t h c (returned k f r) fit = (c.settled f r fit.0, c.leader k f fit.1)

  -- The phase of `g` alone changes, to one that fits.
  module _ (s : Flights R) (v : IsSound s) (g : ℕ) where
    others :
        (t : Flights R) (p : Phase R)
        → ((h : ℕ) → t.phase h ≡ update s.phase g p h)
        → Fits t g p
        → ((h : ℕ) → g == h ≡ false → Keeps s t h)
        → (h : ℕ) → Fits t h (t.phase h)
    others t p moved fit keeps h = elim (Bool-cases (g == h)) [
      | inl same ↦ rw (moved h, same) (subst (λ (x : ℕ). Fits t x p) (eq→path g h same) fit)
      | inr apart ↦ rw (moved h, apart) (Fits_kept s t h (keeps h apart) (s.phase h) (v.fits h))
    ]

    leads-update :
        (p : Phase R)
        → ((k : Text) → leads k g (s.phase g) ≡ true → leads k g p ≡ true)
        → (k : Text) (f : ℕ) → leads k f (s.phase f) ≡ true
        → leads k f (update s.phase g p f) ≡ true
    leads-update p goes k f e = elim (Bool-cases (g == f)) [
      | inl same ↦ rw same (
          subst (λ (x : ℕ). leads k x p ≡ true) (eq→path g f same)
            (goes k (rw (eq→path g f same) e)))
      | inr apart ↦ rw apart e
    ]

    holds-update :
        (p : Phase R) (k : Text) (f : ℕ)
        → holds k (s.phase f) ≡ true
        → (holds k (s.phase g) ≡ true → holds k p ≡ true)
        → holds k (update s.phase g p f) ≡ true
    holds-update p k f e goes = elim (Bool-cases (g == f)) [
      | inl same ↦ rw same (goes (rw (eq→path g f same) e))
      | inr apart ↦ rw apart e
    ]

    at_idle : s.phase g ≡ idle → s.outcome g ≡ none
    at_idle at = subst (Fits s g) at (v.fits g)

    entered-IsSound :
        (k : Text) (o : Option ℕ)
        → lookup k s.inflight ≡ o
        → s.phase g ≡ idle
        → IsSound (entered o g k s)
    entered-IsSound k (some f) look at =
        let goes : (j : Text) → leads j g (s.phase g) ≡ true → leads j g (waiting k f) ≡ true =
          λ (j : Text) (e : leads j g (s.phase g) ≡ true). ground arith in
        let led : leads k f (s.phase f) ≡ true =
          leads_of_holds k f (s.phase f) (v.bound k f look) in
        record {
          fits =
              others (entered (some f) g k s) (waiting k f) (λ h. refl)
                (leads-update (waiting k f) goes k f led)
                (λ h apart. record {
                  settled = λ j r e. e;
                  unsettled = λ e. e;
                  entry = λ j e. e;
                  leader = leads-update (waiting k f) goes;
                });
          bound = λ j h e. holds-update (waiting k f) j h (v.bound j h e) (λ busy. ground arith);
        }
    entered-IsSound k none look at =
        let goes : (j : Text) → leads j g (s.phase g) ≡ true → leads j g (leading k) ≡ true =
          λ (j : Text) (e : leads j g (s.phase g) ≡ true). ground arith in
        record {
          fits =
              others (entered none g k s) (leading k) (λ h. refl)
                (rw (lookup-insert k k g s.inflight, eq_self k) refl, at_idle at)
                (λ h apart. record {
                  settled = λ j r e. e;
                  unsettled = λ e. e;
                  entry = λ j e. ground (arith, text_beq_iff k j, lookup-insert k j g s.inflight);
                  leader = leads-update (leading k) goes;
                });
          bound = λ j h e. elim (Bool-cases (k == j)) [
            | inl mine ↦ ground (arith, lookup-insert k j g s.inflight, nat_beq_iff g h)
            | inr other ↦
                holds-update (leading k) j h
                  (v.bound j h (ground (arith, lookup-insert k j g s.inflight)))
                  (λ busy. ground arith)
          ];
        }

    settled-IsSound :
        (k : Text) (r : R) → s.phase g ≡ leading k → IsSound (settle_from (leading k) g r s)
    settled-IsSound k r at =
        let fit : Fits s g (leading k) = subst (Fits s g) at (v.fits g) in
        let goes : (j : Text) → leads j g (s.phase g) ≡ true → leads j g (closing k r) ≡ true =
          λ (j : Text) (e : leads j g (s.phase g) ≡ true). ground arith in
        record {
          fits =
              others (settle_from (leading k) g r s) (closing k r) (λ h. refl)
                (fit.0, rw (eq_self g) refl)
                (λ h apart. record {
                  settled = λ f q e. ground (arith, nat_beq_iff g f);
                  unsettled = λ e. rw apart e;
                  entry = λ j e. e;
                  leader = leads-update (closing k r) goes;
                });
          bound = λ j h e. holds-update (closing k r) j h (v.bound j h e) (λ busy. ground arith);
        }

    left-IsSound :
        (k : Text) (r : R) → s.phase g ≡ closing k r → IsSound (leave_from (closing k r) g s)
    left-IsSound k r at =
        let fit : Fits s g (closing k r) = subst (Fits s g) at (v.fits g) in
        let goes : (j : Text) → leads j g (s.phase g) ≡ true → leads j g (returned k g r) ≡ true =
          λ (j : Text) (e : leads j g (s.phase g) ≡ true). ground (arith, nat_beq_iff g g) in
        record {
          fits =
              others (leave_from (closing k r) g s) (returned k g r) (λ h. refl)
                (fit.1, ground (arith, nat_beq_iff g g, text_beq_iff k k))
                (λ h apart. record {
                  settled = λ f q e. e;
                  unsettled = λ e. e;
                  entry = λ j e.
                      ground
                        (arith, lookup-delete k j s.inflight, text_beq_iff k j, nat_beq_iff g h);
                  leader = leads-update (returned k g r) goes;
                });
          bound = λ j h e. elim (Bool-cases (k == j)) [
            | inl gone ↦ absurd (ground (arith, lookup-delete k j s.inflight))
            | inr other ↦
                holds-update (returned k g r) j h
                  (v.bound j h (ground (arith, lookup-delete k j s.inflight)))
                  (λ busy. ground arith)
          ];
        }

    woken-IsSound :
        (k : Text) (f : ℕ) (o : Option R)
        → s.outcome f ≡ o
        → s.phase g ≡ waiting k f
        → IsSound (woken o k f g s)
    woken-IsSound k f none look at = v
    woken-IsSound k f (some r) look at =
        let fit : Fits s g (waiting k f) = subst (Fits s g) at (v.fits g) in
        let goes : (j : Text) → leads j g (s.phase g) ≡ true → leads j g (returned k f r) ≡ true =
          λ (j : Text) (e : leads j g (s.phase g) ≡ true). ground arith in
        record {
          fits =
              others (woken (some r) k f g s) (returned k f r) (λ h. refl)
                (look, leads-update (returned k f r) goes k f fit)
                (λ h apart. record {
                  settled = λ f q e. e;
                  unsettled = λ e. e;
                  entry = λ j e. e;
                  leader = leads-update (returned k f r) goes;
                });
          bound = λ j h e. holds-update (returned k f r) j h (v.bound j h e) (λ busy. ground arith);
        }

    joined-IsSound : (k : Text) (p : Phase R) → s.phase g ≡ p → IsSound (join_from p g k s)
    joined-IsSound k idle at = entered-IsSound k (lookup k s.inflight) refl at
    joined-IsSound k (leading j) at = v
    joined-IsSound k (closing j r) at = v
    joined-IsSound k (waiting j f) at = v
    joined-IsSound k (returned j f r) at = v

    settle_from-IsSound : (r : R) (p : Phase R) → s.phase g ≡ p → IsSound (settle_from p g r s)
    settle_from-IsSound r idle at = v
    settle_from-IsSound r (leading j) at = settled-IsSound j r at
    settle_from-IsSound r (closing j q) at = v
    settle_from-IsSound r (waiting j f) at = v
    settle_from-IsSound r (returned j f q) at = v

    leave_from-IsSound : (p : Phase R) → s.phase g ≡ p → IsSound (leave_from p g s)
    leave_from-IsSound idle at = v
    leave_from-IsSound (leading j) at = v
    leave_from-IsSound (closing j r) at = left-IsSound j r at
    leave_from-IsSound (waiting j f) at = v
    leave_from-IsSound (returned j f r) at = v

    wake_from-IsSound : (p : Phase R) → s.phase g ≡ p → IsSound (wake_from p g s)
    wake_from-IsSound idle at = v
    wake_from-IsSound (leading j) at = v
    wake_from-IsSound (closing j r) at = v
    wake_from-IsSound (waiting j f) at = woken-IsSound j f (s.outcome f) refl at
    wake_from-IsSound (returned j f r) at = v

  step-IsSound : (e : Event R) (s : Flights R) → IsSound s → IsSound (step e s)
  unfolding step
  step-IsSound (join g k) s v = joined-IsSound s v g k (s.phase g) refl
  step-IsSound (settle g r) s v = settle_from-IsSound s v g r (s.phase g) refl
  step-IsSound (leave g) s v = leave_from-IsSound s v g (s.phase g) refl
  step-IsSound (wake g) s v = wake_from-IsSound s v g (s.phase g) refl

  pub run-IsSound : (es : List (Event R)) (s : Flights R) → IsSound s → IsSound (run es s)
  unfolding run
  run-IsSound [] s v = v
  run-IsSound (e ∷ es) s v = run-IsSound es (step e s) (step-IsSound e s v)
