-- ===== src/Auth/Login/Poll/Reach.antt =====
-- The transactions of internal/qoderauth in every order of logins, polls and cancels. A poll may have
-- looked its transaction up long before it gets the lock, so that the store has lost it meanwhile.
use qoder_cpa.Prelude.{
  Bool, ℕ, ◌≤◌, Option, none, some, Text, text_eq, ◌==◌, nat_beq, ℤ, lookup, update, lookup-insert,
  lookup-delete, text_beq_iff, nat_beq_iff, ◌≡◌, refl, arith, inl, inr, Bool-cases, Option-cases,
  subst,
}
use qoder_cpa.Auth.{Credential, Result, ok, err, ◌>>=◌}
use qoder_cpa.Auth.Login.{
  Status, pending, success, error, Transaction, World, new_world, store_set, store_delete,
  cancel_transaction, OauthConfig, Standard, Draws, new_transaction, begun, device_login,
}
use qoder_cpa.Auth.Login.Poll.{
  Decoder, PollStatus, Poll, Turn, keep, finish, settle, turn_of, poll_at,
}
use qoder_cpa.Auth.Provider.Service.{Clients, written, write_credential}
use qoder_cpa.Auth.Login.Poll.Turns.{EndsWith, IsTurn, turn_of-IsTurn}

-- What any caller may do at any time; the last is how a poll of auth_provider.go completes the credential
-- that it was given, which is that of the transaction.
pub data Step (u : World) : World → Type 0 where
  login :
      (std : Standard) (draws : Draws) (now : ℤ) (config : OauthConfig) (machine : Text) (ttl : ℤ)
      → Step u (device_login std draws now config machine ttl u).0
  poll :
      (std : Standard) (json : Decoder) (p : Poll) (a : ℕ) (txn : Transaction)
      → u.heap a ≡ some txn
      → txn.id ≡ p.id
      → Step u (poll_at std json p a u).0
  cancel : (id : Text) → Step u (cancel_transaction id u)
  complete :
      (clients : Clients) (cn : Bool) (a : ℕ) (txn : Transaction) (c : Credential)
      → u.heap a ≡ some txn
      → txn.credential ≡ some c
      → Step u (write_credential a (written clients cn c) u)

pub data Reach (u : World) : World → Type 0 where
  here : Reach u u
  next : {v w : World} → Reach u v → Step v w → Reach u w

abbrev Paired : Status → Option Credential → Type 0
Paired success none = ⊥
Paired success (some c) = Unit
Paired pending none = Unit
Paired pending (some c) = ⊥
Paired error none = Unit
Paired error (some c) = ⊥

abbrev Held : Text → Option Transaction → Type 0
Held id none = ⊥
Held id (some t) = (t.id ≡ id) × (t.status ≡ pending)

-- What holds in every reached world: addresses from `next` on are free, an id in the store is bound
-- to a pending transaction of that id, and a transaction has a credential exactly when it succeeded.
pub record IsSound (w : World) : Type 0 where
  pub fresh : (a : ℕ) → w.next ≤ a → w.heap a ≡ none
  pub stored : (id : Text) (a : ℕ) → lookup id w.store ≡ some a → Held id (w.heap a)
  pub paired : (a : ℕ) (t : Transaction) → w.heap a ≡ some t → Paired t.status t.credential

new_world-IsSound : IsSound new_world
unfolding new_world lookup
new_world-IsSound = record {
  fresh = λ a h. refl;
  stored = λ id a h. absurd (ground arith);
  paired = λ a t h. absurd (ground arith);
}

abbrev IsNew : Transaction → Type 0
IsNew t = (t.status ≡ pending) × (t.credential ≡ none)

-- A result that is no error is new.
abbrev YieldsNew : Result Transaction → Type 0
YieldsNew (ok t) = IsNew t
YieldsNew (err e) = Unit

YieldsNew-bind :
    {A : Type 0} (m : Result A) (f : A → Result Transaction)
    → ((a : A) → YieldsNew (f a))
    → YieldsNew (m >>= f)
YieldsNew-bind (ok a) f h = h a
YieldsNew-bind (err e) f h = tt

new_transaction-YieldsNew :
    (std : Standard) (draws : Draws) (now : ℤ) (config : OauthConfig) (machine : Text) (ttl : ℤ)
    → YieldsNew (new_transaction std draws now config machine ttl)
unfolding new_transaction
new_transaction-YieldsNew std draws now config machine ttl = ground arith

new-Paired :
    (t : Transaction) → t.status ≡ pending → t.credential ≡ none → Paired t.status t.credential
new-Paired t open_txn bare = rw (open_txn, bare) tt

Paired-pending : (s : Status) (c : Option Credential) → s ≡ pending → Paired s c → c ≡ none
Paired-pending pending none at h = refl
Paired-pending pending (some c) at h = absurd h
Paired-pending success c at h = absurd (ground arith)
Paired-pending error c at h = absurd (ground arith)

-- A pending transaction that ends is paired.
ended-Paired :
    (txn t : Transaction) (r : Result PollStatus)
    → Paired txn.status txn.credential
    → txn.status ≡ pending
    → EndsWith txn t r
    → Paired t.status t.credential
ended-Paired txn t (ok s) old open_txn h = elim (Option-cases t.credential) [
  | inl bare ↦ absurd (h.3 bare)
  | inr (c, has) ↦ rw (h.0, has) tt
]
ended-Paired txn t (err e) old open_txn h =
    rw (h.0, h.1, Paired-pending txn.status txn.credential open_txn old) tt

Paired-update :
    (heap : ℕ → Option Transaction) (a : ℕ) (t : Transaction) (b : ℕ) (u : Transaction)
    → Paired t.status t.credential
    → update heap a (some t) b ≡ some u
    → (heap b ≡ some u → Paired u.status u.credential)
    → Paired u.status u.credential
Paired-update heap a t b u new at old = elim (Bool-cases (nat_beq a b)) [
  | inl mine ↦
      let same : t ≡ u = ground arith in
      subst (λ (x : Transaction). Paired x.status x.credential) same new
  | inr other ↦ old (ground arith)
]

module _ (w : World) (v : IsSound w) where
  begun-IsSound : (m : Result Transaction) → YieldsNew m → IsSound (begun m w).0
  unfolding store_set
  begun-IsSound (err e) n = v
  begun-IsSound (ok t) n = record {
    fresh = λ a h. ground (arith, nat_beq_iff w.next a, v.fresh a);
    stored = λ id a h. elim (Bool-cases (t.id == id)) [
      | inl mine ↦
          ground (
            arith,
            lookup-insert t.id id w.next w.store,
            text_beq_iff t.id id,
            nat_beq_iff w.next a,
          )
      | inr other ↦ ground (
        arith,
        lookup-insert t.id id w.next w.store,
        nat_beq_iff w.next a,
        v.stored id a,
        v.fresh a,
      )
    ];
    paired = λ a u h. Paired-update w.heap w.next t a u (new-Paired t n.0 n.1) h (v.paired a u);
  }

  module _ (id : Text) (a : ℕ) (txn : Transaction) (at : w.heap a ≡ some txn)
      (named : txn.id ≡ id) where
    settle-IsSound : (turn : Turn) → IsTurn txn turn → IsSound (settle id a turn w).0
    unfolding store_delete
    settle-IsSound (keep r) h = v
    settle-IsSound (finish t r) h = record {
      fresh = λ b free. ground (arith, nat_beq_iff a b, v.fresh b);
      stored = λ j b e.
          ground
            (arith, lookup-delete id j w.store, text_beq_iff id j, nat_beq_iff a b, v.stored j b);
      paired = λ b u e.
          Paired-update w.heap a t b u (ended-Paired txn t r (v.paired a txn at) h.0 h.2) e
            (v.paired b u);
    }

Paired-anew :
    (s : Status) (c d : Credential) (o : Option Credential)
    → o ≡ some c
    → Paired s o
    → Paired s (some d)
Paired-anew success c d o e h = tt
Paired-anew pending c d (some x) e h = absurd h
Paired-anew pending c d none e h = cc
Paired-anew error c d (some x) e h = absurd h
Paired-anew error c d none e h = cc

Held-anew :
    (heap : ℕ → Option Transaction) (a : ℕ) (t : Transaction) (d : Credential) (id : Text) (b : ℕ)
    → heap a ≡ some t
    → Held id (heap b)
    → Held id (update heap a (some (record t { credential = some d })) b)
Held-anew heap a t d id b at h = elim (Bool-cases (nat_beq a b)) [
  | inl mine ↦
      let here_too : a ≡ b = ground (arith, nat_beq_iff a b) in
      let same : heap b ≡ some t = subst (λ x. heap x ≡ some t) here_too at in
      rw mine (rw same at h)
  | inr other ↦ rw other h
]

write_credential-IsSound :
    (w : World) (a : ℕ) (t : Transaction) (c d : Credential)
    → IsSound w
    → w.heap a ≡ some t
    → t.credential ≡ some c
    → IsSound (write_credential a d w)
unfolding write_credential
write_credential-IsSound w a t c d v at has = rw at (record {
  fresh = λ b h. ground (arith, nat_beq_iff a b, v.fresh b);
  stored = λ id b h. Held-anew w.heap a t d id b at (v.stored id b h);
  paired = λ b x h.
      Paired-update w.heap a (record t { credential = some d }) b x
        (Paired-anew t.status c d t.credential has (v.paired a t at)) h (v.paired b x);
})

module _ {u : World} where
  Step-IsSound : {w : World} → Step u w → IsSound u → IsSound w
  unfolding device_login poll_at cancel_transaction store_delete
  Step-IsSound (login std draws now config machine ttl) v =
      begun-IsSound u v (new_transaction std draws now config machine ttl)
        (new_transaction-YieldsNew std draws now config machine ttl)
  Step-IsSound (poll std json p a txn at named) v = rw at (
      settle-IsSound u v p.id a txn at named (turn_of txn.status std json p txn)
        (turn_of-IsTurn txn.status std json p txn refl))
  Step-IsSound (complete clients cn a txn c at has) v =
      write_credential-IsSound u a txn c (written clients cn c) v at has
  Step-IsSound (cancel id) v = record {
    fresh = v.fresh;
    stored = λ j a e. v.stored j a (ground (arith, lookup-delete id j u.store));
    paired = v.paired;
  }

pub Reach-IsSound : {u w : World} → Reach u w → IsSound u → IsSound w
Reach-IsSound here v = v
Reach-IsSound (next r s) v = Step-IsSound s (Reach-IsSound r v)

-- In every order of logins, polls, completions and cancels, late polls included, an id in the store is bound to a
-- pending transaction of that id, and a transaction has a credential exactly when it succeeded.
pub Reach-new_world-IsSound : {w : World} → Reach new_world w → IsSound w
Reach-new_world-IsSound r = Reach-IsSound r new_world-IsSound
