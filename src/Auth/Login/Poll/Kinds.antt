-- ===== src/Auth/Login/Poll/Kinds.antt =====
-- Which polls of internal/qoderauth/oauth.go end a transaction, and which may be tried again.
use qoder_cpa.Prelude.{
  ℕ, Bool, true, false, not, ◌||◌, Option, none, some, Text, text_eq, nat_beq, ltb, length, ℤ,
  ltb_ℤ, lookup-delete, text_beq_iff, nat_beq_iff, ◌≡◌, ◌⊎◌, refl, arith, inl, inr, Bool-cases,
}
use qoder_cpa.Auth.{
  Result, ok, Reply, unbuilt, unreached, broken, response, limited, is_2xx, max_response_body_bytes,
}
use qoder_cpa.Auth.Login.{pending, Transaction, World, store_get, store_delete, Standard}
use qoder_cpa.Auth.Login.Poll.{
  Decoder, PollStatus, Poll, Turn, keep, finish, settle, turn_of, ask, asked, poll_url, on_answer,
  read_reply, do_poll_request, polled, poll_at, found, poll_login,
}
use qoder_cpa.Auth.Login.Poll.Turns.{EndsWith, IsTurn, turn_of-IsTurn}

-- The transaction of `id`, pending before, has ended with the answer `r`, and the store has lost it.
pub record HasEnded (id : Text) (w w' : World) (r : Result PollStatus) : Type 0 where
  pub address : ℕ
  pub before : Transaction
  pub after : Transaction
  pub looked_up : store_get id w ≡ some address
  pub was : w.heap address ≡ some before
  pub was_pending : before.status ≡ pending
  pub gone : store_get id w' ≡ none
  pub now : w'.heap address ≡ some after
  pub same : after.id ≡ before.id
  pub ends : EndsWith before after r

module _ (id : Text) (a : ℕ) (txn : Transaction) (w : World) (at : store_get id w ≡ some a)
    (was : w.heap a ≡ some txn) where
  settle_ended :
      (turn : Turn)
      → IsTurn txn turn
      → ((settle id a turn w).0 ≡ w) ⊎ HasEnded id w (settle id a turn w).0 (settle id a turn w).1
  unfolding store_delete store_get
  settle_ended (keep r) h = inl refl
  settle_ended (finish t r) h = inr (record {
    address = a;
    before = txn;
    after = t;
    looked_up = at;
    was = was;
    was_pending = h.0;
    gone = ground (arith, lookup-delete id id w.store, text_beq_iff id id);
    now = ground (arith, nat_beq_iff a a);
    same = h.1;
    ends = h.2;
  })

module _ (std : Standard) (json : Decoder) (p : Poll) (w : World) where
  abbrev Changes : World × Result PollStatus → Type 0
  Changes (w', r) = (w' ≡ w) ⊎ HasEnded p.id w w' r

  polled_ended :
      (a : ℕ) (o : Option Transaction)
      → store_get p.id w ≡ some a
      → w.heap a ≡ o
      → Changes (polled std json p a o w)
  polled_ended a none at was = inl refl
  polled_ended a (some txn) at was =
      settle_ended p.id a txn w at was (turn_of txn.status std json p txn)
        (turn_of-IsTurn txn.status std json p txn refl)

  found_ended : (o : Option ℕ) → store_get p.id w ≡ o → Changes (found std json p o w)
  unfolding poll_at
  found_ended none at = inl refl
  found_ended (some a) at = polled_ended a (w.heap a) at refl

  -- A poll changes nothing, or it ends the transaction that it is about, which was pending: the store
  -- loses the id, and the transaction succeeds with the credential of the answer, or has failed
  -- where the answer is an error.
  pub poll_login_ended :
      ((poll_login std json p w).0 ≡ w)
      ⊎ HasEnded p.id w (poll_login std json p w).0 (poll_login std json p w).1
  unfolding poll_login
  poll_login_ended = found_ended (store_get p.id w) refl

-- A reply after which the login may still succeed: none, a broken body, or a status that is not 2xx or
-- says that the login is pending.
abbrev pub is_transient : Reply → Bool
is_transient (unbuilt e) = true
is_transient (unreached e) = true
is_transient (broken status) = true
is_transient (response status body) = not (is_2xx status) || nat_beq status 202

abbrev pub gives_no_verdict : Option (Text → Reply) → Text → Bool
gives_no_verdict none url = true
gives_no_verdict (some send) url = is_transient (send url)

abbrev IsKept : Turn → Type 0
IsKept (keep r) = Unit
IsKept (finish t r) = ⊥

on_status-IsKept :
    (json : Decoder) (later : ℤ) (txn : Transaction) (status : ℕ) (body : Text)
    → (not (is_2xx status) || nat_beq status 202) ≡ true
    → IsKept (on_answer json later txn (ok (status, body)))
unfolding on_answer
on_status-IsKept json later txn status body h =
    elim (Bool-cases (nat_beq status 404 || nat_beq status 202)) [
      | inl waits ↦ rw waits tt
      | inr told ↦ elim (Bool-cases (is_2xx status)) [
        | inl fine ↦ absurd (ground arith)
        | inr bad ↦ rw (told, bad) tt
      ]
    ]

on_reply-IsKept :
    (json : Decoder) (later : ℤ) (txn : Transaction) (reply : Reply)
    → is_transient reply ≡ true
    → IsKept (on_answer json later txn (read_reply reply))
unfolding on_answer read_reply
on_reply-IsKept json later txn (unbuilt e) h = tt
on_reply-IsKept json later txn (unreached e) h = tt
on_reply-IsKept json later txn (broken status) h = tt
on_reply-IsKept json later txn (response status body) h =
    elim (Bool-cases (ltb max_response_body_bytes (length (limited body)))) [
      | inl over ↦ rw over tt
      | inr within ↦ rw within (on_status-IsKept json later txn status (limited body) h)
    ]

module _ (json : Decoder) (p : Poll) (txn : Transaction)
    (transient : (url : Text) → gives_no_verdict p.client url ≡ true) where
  on_client-IsKept :
      (o : Option (Text → Reply)) (url : Text)
      → gives_no_verdict o url ≡ true
      → IsKept (on_answer json p.later txn (do_poll_request o url))
  unfolding do_poll_request on_answer
  on_client-IsKept none url h = tt
  on_client-IsKept (some send) url h = on_reply-IsKept json p.later txn (send url) h

  asked-IsKept : (url : Option Text) → IsKept (asked json p txn url)
  unfolding asked
  asked-IsKept none = tt
  asked-IsKept (some url) = on_client-IsKept p.client url (transient url)

settle_kept :
    (id : Text) (a : ℕ) (turn : Turn) (w : World) → IsKept turn → (settle id a turn w).0 ≡ w
settle_kept id a (keep r) w h = refl
settle_kept id a (finish t r) w h = absurd h

-- A login that is pending and not expired survives every poll that gets no verdict: no client, no
-- reply, a broken body, a 202, a 404 or any other status that is not 2xx. The world is
-- left as it is, so that the next poll finds the same transaction.
pub poll_login_transient :
    (std : Standard) (json : Decoder) (p : Poll) (w : World) (a : ℕ) (txn : Transaction)
    → store_get p.id w ≡ some a
    → w.heap a ≡ some txn
    → txn.status ≡ pending
    → ltb_ℤ txn.expires_at p.now ≡ false
    → ((url : Text) → gives_no_verdict p.client url ≡ true)
    → (poll_login std json p w).0 ≡ w
unfolding poll_login poll_at turn_of ask
poll_login_transient std json p w a txn at was open_txn within transient =
    rw (poll_login, at, poll_at, was, open_txn, turn_of, within)
      (settle_kept p.id a (ask std json p txn) w
        (asked-IsKept json p txn transient (poll_url std p.config txn)))
