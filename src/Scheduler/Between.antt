-- ===== src/Scheduler/Between.antt =====
-- Session affinity of scheduler.go over the picks of other sessions: a session keeps its account for as
-- long as fewer other sessions picked since than the recency map holds.
use qoder_cpa.Prelude.{
  ℕ, suc, ◌+◌, ◌<◌, ◌≡◌, ◌≢◌, refl, sym, ap, ◌∙◌, true, false, List, [], ◌∷◌, Option, none, some,
  arith, Text, text_eq, text_beq_iff, ◌==◌, ℤ, length, All,
}
use qoder_cpa.Lru
use qoder_cpa.Lru.Spec
use qoder_cpa.Lru.Spec.{Entries}
use qoder_cpa.Lru.Holds.{Holds, get-Holds, set-Holds}
use qoder_cpa.Lru.Recent.{IsRecent, recent_lookup, IsRecent-later, IsRecent-set, set-IsRecent}
use qoder_cpa.Scheduler.State.{Float64, State, sticky_get, sticky_set}
use qoder_cpa.Scheduler.Select.{
  Candidate, PickRequest, delegate, derive_sticky_key, bind_session, sticky_choice,
  weighted_or_priority, pick_among, eligible_candidates, scheduler_pick,
}
use qoder_cpa.Scheduler.Chosen.{Elem, IsEligible}
use qoder_cpa.Scheduler.Pick.{Elem-eligible, scheduler_pick-none, scheduler_pick-some}
use qoder_cpa.Scheduler.Session.{IsWf, pick_among-binds, pick_among-follows}

-- One more pick: its instant, its random draw and its request.
pub record Later (F : Type 0) : Type 0 where
  pub now : ℤ
  pub draw : F
  pub req : PickRequest

get-cap : (l : Lru.LruMap) (key : Text) → (Lru.get l key).1.cap ≡ l.cap
unfolding Lru.get Lru.touch
get-cap l key = ground arith

set-cap : (l : Lru.LruMap) (key v : Text) → (Lru.set l key v).cap ≡ l.cap
unfolding Lru.set Lru.touch Lru.evict_oldest
set-cap l key v = ground arith

-- The session is bound to an account, and at most `n` sessions are newer.
record IsBound {F : Type 0} (key id : Text) (cap n : ℕ) (s : State F) : Type 0 where
  pub entries : Entries
  pub holds : Holds s.sticky entries
  pub size : s.sticky.cap ≡ cap
  pub recent : IsRecent key id n entries

module _ {F : Type 0} (key id : Text) (cap : ℕ) where
  IsBound-later : (n : ℕ) (s : State F) → IsBound key id cap n s → IsBound key id cap (suc n) s
  IsBound-later n s b = record {
    entries = b.entries;
    holds = b.holds;
    size = b.size;
    recent = IsRecent-later key id n b.entries b.recent;
  }

  IsBound-other :
      (n : ℕ) (s : State F) (k v : Text)
      → (key == k) ≡ false
      → suc n < cap
      → IsBound key id cap n s
      → IsBound key id cap (suc n) (sticky_set k v (sticky_get k s).1)
  unfolding sticky_get sticky_set
  IsBound-other n s k v other room b =
      let l = (Lru.get s.sticky k).1 in
      let same : l.cap ≡ cap = get-cap s.sticky k ∙ b.size in
      record {
        entries = Spec.set l.cap (Spec.get b.entries k).1 k v;
        holds = set-Holds l (Spec.get b.entries k).1 k v (get-Holds s.sticky b.entries k b.holds).1;
        size = set-cap l k v ∙ same;
        recent = rw same (IsRecent-set key id n cap b.entries k v other room b.recent);
      }

  IsBound-set :
      (s : State F)
      → IsWf s
      → s.sticky.cap ≡ cap
      → IsBound key id cap 0 (sticky_set key id (sticky_get key s).1)
  unfolding sticky_get sticky_set
  IsBound-set s (es, holds) size =
      let l = (Lru.get s.sticky key).1 in
      record {
        entries = Spec.set l.cap (Spec.get es key).1 key id;
        holds = set-Holds l (Spec.get es key).1 key id (get-Holds s.sticky es key holds).1;
        size = set-cap l key id ∙ get-cap s.sticky key ∙ size;
        recent = set-IsRecent key id l.cap (Spec.get es key).1;
      }

  IsBound-get : (n : ℕ) (s : State F) → IsBound key id cap n s → (sticky_get key s).0 ≡ some id
  unfolding sticky_get Spec.get
  IsBound-get n s b =
      let found = recent_lookup key id n b.entries b.recent in
      (get-Holds s.sticky b.entries key b.holds).0 ∙ rw (Spec.get, found) refl

module _ (f : Float64) (sort : List Candidate → List Candidate) where
  -- The state after more picks.
  unfoldable pub picks_after : List (Later f.F) → State f.F → State f.F
  picks_after [] s = s
  picks_after (p ∷ ps) s = picks_after ps (scheduler_pick f sort p.now p.draw p.req s).1

  pick_among-keyless :
      (now : ℤ) (draw : f.F) (cs : List Candidate) (s : State f.F)
      → (pick_among f sort now draw none cs s).1 ≡ s
  unfolding pick_among weighted_or_priority sticky_choice bind_session
  pick_among-keyless now draw cs s = ground arith

  module _ (key id : Text) (cap : ℕ) where
    pick_among-IsBound :
        (n : ℕ) (now : ℤ) (draw : f.F) (k : Option Text) (cs : List Candidate) (s : State f.F)
        → k ≢ some key
        → suc n < cap
        → IsBound key id cap n s
        → IsBound key id cap (suc n) (pick_among f sort now draw k cs s).1
    pick_among-IsBound n now draw none cs s other room b =
        rw (pick_among-keyless now draw cs s) (IsBound-later key id cap n s b)
    pick_among-IsBound n now draw (some k) cs s other room b =
        rw (pick_among-binds f sort now draw k cs s)
          (IsBound-other key id cap n s k _ (ground (arith, text_beq_iff key k)) room b)

    scheduler_pick-IsBound :
        (n : ℕ) (p : Later f.F) (s : State f.F)
        → derive_sticky_key p.req ≢ some key
        → suc n < cap
        → IsBound key id cap n s
        → IsBound key id cap (suc n) (scheduler_pick f sort p.now p.draw p.req s).1
    scheduler_pick-IsBound n p s other room b = chosen (eligible_candidates f p.now s p.req) refl
      where
        chosen :
            (es : List Candidate)
            → eligible_candidates f p.now s p.req ≡ es
            → IsBound key id cap (suc n) (scheduler_pick f sort p.now p.draw p.req s).1
        chosen [] e =
            rw (scheduler_pick-none f sort p.now p.draw p.req s e) (IsBound-later key id cap n s b)
        chosen (c ∷ cs) e =
            rw (scheduler_pick-some f sort p.now p.draw p.req s e)
              (pick_among-IsBound n p.now p.draw (derive_sticky_key p.req) (c ∷ cs) s other room b)

    picks_after-IsBound :
        (n : ℕ) (ps : List (Later f.F)) (s : State f.F)
        → All (λ p. derive_sticky_key p.req ≢ some key) ps
        → n + length ps < cap
        → IsBound key id cap n s
        → (m : ℕ) × IsBound key id cap m (picks_after ps s)
    unfolding picks_after
    picks_after-IsBound n [] s others room b = (n, b)
    picks_after-IsBound n (p ∷ ps) s others room b =
        picks_after-IsBound (suc n) ps (scheduler_pick f sort p.now p.draw p.req s).1 others.1
          (omega arith) (scheduler_pick-IsBound n p s others.0 (omega arith) b)

  first-IsBound :
      (now : ℤ) (draw : f.F) (req : PickRequest) (s : State f.F) (key : Text)
      → IsWf s
      → derive_sticky_key req ≡ some key
      → (scheduler_pick f sort now draw req s).0.handled ≡ true
      → IsBound key
          (scheduler_pick f sort now draw req s).0.auth_id
          s.sticky.cap
          0
          (scheduler_pick f sort now draw req s).1
  unfolding delegate
  first-IsBound now draw req s key wf k h = chosen (eligible_candidates f now s req) refl
    where
      chosen :
          (es : List Candidate)
          → eligible_candidates f now s req ≡ es
          → IsBound key
              (scheduler_pick f sort now draw req s).0.auth_id
              s.sticky.cap
              0
              (scheduler_pick f sort now draw req s).1
      chosen [] e = cc (rw (scheduler_pick-none f sort now draw req s e) at h)
      chosen (d ∷ es) e =
          rw
            (
              scheduler_pick-some f sort now draw req s e,
              k,
              pick_among-binds f sort now draw key (d ∷ es) s,
            )
            (IsBound-set key _ s.sticky.cap s wf refl)

  -- A session that was given an account keeps it: after a handled pick with a session key, and any picks
  -- of other sessions or of none, fewer than the recency map holds, a pick with the same key, at any
  -- instant and with any random draw, names the same account, as long as that is a candidate of the
  -- request and eligible then. The bindings of the first state are those of a list.
  pub session_keeps_account :
      (now : ℤ) (draw : f.F) (req : PickRequest) (s : State f.F) (key : Text)
      (between : List (Later f.F)) (last : Later f.F) (c : Candidate)
      → IsWf s
      → derive_sticky_key req ≡ some key
      → (scheduler_pick f sort now draw req s).0.handled ≡ true
      → All (λ p. derive_sticky_key p.req ≢ some key) between
      → length between < s.sticky.cap
      → derive_sticky_key last.req ≡ some key
      → c.id ≡ (scheduler_pick f sort now draw req s).0.auth_id
      → Elem c last.req.candidates
      → IsEligible last.now
          (picks_after between (scheduler_pick f sort now draw req s).1)
          last.req.model
          c
      → (scheduler_pick f sort last.now last.draw last.req
          (picks_after between (scheduler_pick f sort now draw req s).1)).0.auth_id
        ≡ (scheduler_pick f sort now draw req s).0.auth_id
  session_keeps_account now draw req s key between last c wf k h others few k' same there fit =
      again (eligible_candidates f last.now u last.req) refl
        (Elem-eligible f last.now last.req u c there fit)
    where
      first : Text
      first = (scheduler_pick f sort now draw req s).0.auth_id

      u : State f.F
      u = picks_after between (scheduler_pick f sort now draw req s).1

      bound : (sticky_get key u).0 ≡ some first
      bound =
          let (m, b) =
            picks_after-IsBound key first s.sticky.cap 0 between
              (scheduler_pick f sort now draw req s).1 others (omega arith)
              (first-IsBound now draw req s key wf k h) in
          IsBound-get key first s.sticky.cap m u b

      again :
          (es : List Candidate)
          → eligible_candidates f last.now u last.req ≡ es
          → Elem c es
          → (scheduler_pick f sort last.now last.draw last.req u).0.auth_id ≡ first
      again [] e m = elim m [ ]
      again (d ∷ es) e m =
          rw (scheduler_pick-some f sort last.now last.draw last.req u e, k')
            (pick_among-follows f sort last.now last.draw key (d ∷ es) u c
                (bound ∙ ap some (sym same)) m
              ∙ same)
